-- ===== src/App/Options/Runnable.antt =====
-- What the command line can make of the configuration.
use phantomfpga_project.Base.{ℕ, zero, suc, ◌^◌, ◌≤◌, ◌≡◌, refl, arith, u32, ℤ, pos, negsuc}
use phantomfpga_project.Base.{Bool, true, false, ◌||◌, ◌==◌, up_to, up_to_lem}
use phantomfpga_project.Base.{List, [], ◌∷◌, none, some, Bool-cases, inl, inr}
use phantomfpga_project.App.Options.{
  AppConfig, Argument, set_rate, set_count, no_crc, print_stats, be_verbose, tcp_server,
  use_zero_copy, show_version, show_help, unknown, Step, continue, leave, bad_rate, bad_count,
  refuse_if, parse_argument, parse_arguments, resume, initial_config,
}

-- A ring of 4 to 4096 entries whose number is a power of two.
abbrev pub IsRingSize : ℕ → Type 0
IsRingSize n = (4 ≤ n) × (n ≤ 4096) × ((e : ℕ) × (n ≡ 2 ^ e))

-- Whether a number is a power of two up to an exponent.
unfoldable is_power : ℕ → ℕ → Bool
is_power n zero = n == 1
is_power n (suc e) = (n == 2 ^ suc e) || is_power n e

is_power_lem : (n last : ℕ) → is_power n last ≡ true → (e : ℕ) × (n ≡ 2 ^ e)
unfolding is_power
is_power_lem n zero h = (0, ground arith)
is_power_lem n (suc last) h = elim (Bool-cases (n == 2 ^ suc last)) [
  | inl same ↦ (suc last, ground arith)
  | inr other ↦ is_power_lem n last (ground arith)
]

all_counts : up_to (λ n. bad_count n || is_power n 12) 4096 ≡ true
unfolding up_to is_power
all_counts = refl

count-IsRingSize : (n : ℕ) → bad_count n ≡ false → IsRingSize n
count-IsRingSize n h =
    let low : 4 ≤ n = ground arith in
    let high : n ≤ 4096 = ground arith in
    let here = up_to_lem (λ n. bad_count n || is_power n 12) 4096 all_counts n high in
    (low, high, is_power_lem n 12 (ground arith))

-- 1 to 60 frames a second and a ring size, as the messages of `parse_arguments` ask.
abbrev pub IsRunnable : AppConfig → Type 0
IsRunnable c = (1 ≤ c.frame_rate) × (c.frame_rate ≤ 60) × IsRingSize c.desc_count

-- A configuration is promised with return code 0 only.
abbrev Promised : ℤ → AppConfig → Type 0
Promised (pos zero) c = IsRunnable c
Promised (pos (suc n)) c = Unit
Promised (negsuc n) c = Unit

abbrev Keeps : Step → Type 0
Keeps (continue c) = IsRunnable c
Keeps (leave code c) = Promised code c

refuse_if-Keeps :
    (bad : Bool) (c : AppConfig) → (bad ≡ false → IsRunnable c) → Keeps (refuse_if bad c)
refuse_if-Keeps true c good = tt
refuse_if-Keeps false c good = good refl

set_rate-Keeps : (n : ℕ) (c : AppConfig) → IsRunnable c → Keeps (parse_argument (set_rate n) c)
set_rate-Keeps n c run =
    refuse_if-Keeps (bad_rate (u32 n)) (record c { frame_rate = u32 n })
      (λ h. (ground arith, ground arith, run.2))

set_count-Keeps : (n : ℕ) (c : AppConfig) → IsRunnable c → Keeps (parse_argument (set_count n) c)
set_count-Keeps n c run =
    refuse_if-Keeps (bad_count (u32 n)) (record c { desc_count = u32 n })
      (λ h. (run.0, run.1, count-IsRingSize (u32 n) h))

parse_argument-Keeps : (a : Argument) (c : AppConfig) → IsRunnable c → Keeps (parse_argument a c)
parse_argument-Keeps (set_rate n) c run = set_rate-Keeps n c run
parse_argument-Keeps (set_count n) c run = set_count-Keeps n c run
parse_argument-Keeps no_crc c run = run
parse_argument-Keeps print_stats c run = run
parse_argument-Keeps be_verbose c run = run
parse_argument-Keeps (tcp_server (some n)) c run = run
parse_argument-Keeps (tcp_server none) c run = run
parse_argument-Keeps use_zero_copy c run = run
parse_argument-Keeps show_version c run = tt
parse_argument-Keeps show_help c run = tt
parse_argument-Keeps unknown c run = tt

resume-Promised :
    (next : AppConfig → ℤ × AppConfig) (s : Step)
    → Keeps s
    → ((c : AppConfig) → IsRunnable c → Promised (next c).0 (next c).1)
    → Promised (resume next s).0 (resume next s).1
resume-Promised next (continue c) kept later = later c kept
resume-Promised next (leave code c) kept later = kept

parse_arguments-Promised :
    (arguments : List Argument) (c : AppConfig)
    → IsRunnable c
    → Promised (parse_arguments arguments c).0 (parse_arguments arguments c).1
unfolding parse_arguments
parse_arguments-Promised [] c run = run
parse_arguments-Promised (a ∷ rest) c run =
    resume-Promised (parse_arguments rest) (parse_argument a c) (parse_argument-Keeps a c run)
      (parse_arguments-Promised rest)

Promised_lem : (code : ℤ) (c : AppConfig) → Promised code c → code ≡ pos 0 → IsRunnable c
Promised_lem (pos zero) c promised e = promised
Promised_lem (pos (suc n)) c promised e = absurd (ground arith)
Promised_lem (negsuc n) c promised e = absurd (ground arith)

initial-IsRunnable : IsRunnable initial_config
initial-IsRunnable = (omega arith, omega arith, (omega arith, omega arith, (8, refl)))

-- For every sequence of options that getopt_long can hand out, with any numbers as their
-- arguments: when `parse_arguments` returns 0 from the initial configuration, the frame rate is
-- 1 to 60 and the descriptor count is a power of two from 4 to 4096.
pub parse_arguments-IsRunnable :
    (arguments : List Argument)
    → (parse_arguments arguments initial_config).0 ≡ pos 0
    → IsRunnable (parse_arguments arguments initial_config).1
parse_arguments-IsRunnable arguments =
    let result = parse_arguments arguments initial_config in
    Promised_lem result.0 result.1
      (parse_arguments-Promised arguments initial_config initial-IsRunnable)
