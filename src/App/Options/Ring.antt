-- ===== src/App/Options/Ring.antt =====
-- The ring that a command line asks for: the number of descriptors that `parse_arguments` of
-- app/phantomfpga_app.cpp accepts and the ring helpers of driver/phantomfpga_regs.h.
use mathlib.Core.Path.{subst}
use native.Mathlib.Nat.{pow-le-pow_right}
use native.Mathlib.Decide.{dec_lt}
use phantomfpga_project.Base.{ℕ, ◌^◌, ◌-◌, ◌≤◌, ◌<◌, ◌≡◌, sym, arith, pos, List}
use phantomfpga_project.Regs.Ring.Counters.{Counts, ring-Counts}
use phantomfpga_project.App.Options.{Argument, parse_arguments, initial_config}
use phantomfpga_project.App.Options.Runnable.{IsRingSize, parse_arguments-IsRunnable}

beyond : (e : ℕ) → 32 ≤ e → 2 ^ e ≤ 4096 → ⊥
beyond e le small = omega (arith, pow-le-pow_right {n = 2} (omega arith) {i = 32} {j = e} le)

ring_size-Counts : (n s c : ℕ) → IsRingSize n → c ≤ s → s - c < n → Counts n s c
ring_size-Counts n s c (low, high, (e, same)) ordered fits =
    let small : e < 32 = elim (dec_lt e 32) [
      | yes h ↦ h
      | no h ↦ absurd (beyond e (ground arith) (omega (arith, same)))
    ] in
    subst (λ m. Counts m s c) (sym same) (ring-Counts e small s c ordered (omega (arith, same)))

-- For every command line that `parse_arguments` accepts, with n the descriptor count it leaves,
-- and counters of submitted and completed descriptors of which the second is at most the first
-- and less than n behind: `desc_pending`, `desc_free`, `desc_ring_empty` and `desc_ring_full` on
-- a ring of n slots give the answers of the counters.
pub parse_arguments-Counts :
    (arguments : List Argument) (s c : ℕ)
    → (parse_arguments arguments initial_config).0 ≡ pos 0
    → c ≤ s
    → s - c < (parse_arguments arguments initial_config).1.desc_count
    → Counts (parse_arguments arguments initial_config).1.desc_count s c
parse_arguments-Counts arguments s c accepted =
    ring_size-Counts (parse_arguments arguments initial_config).1.desc_count s c
      (parse_arguments-IsRunnable arguments accepted).2
