-- ===== src/App/Options.antt =====
-- `PhantomFpgaApp::parse_arguments`: the options that getopt_long hands out, one after the other.
pub mod Ring
pub mod Runnable
use phantomfpga_project.Base.{ℕ, ◌-◌, u16, u32, ℤ, pos, negsuc, Bool, true, false, not, ◌||◌}
use phantomfpga_project.Base.{List, [], ◌∷◌, Option, none, some, ltb, ◌==◌, bit_and, if◌then◌else◌}

-- `struct AppConfig`.
pub record AppConfig : Type 0 where
  pub desc_count : ℕ
  pub frame_rate : ℕ
  pub buffer_size : ℕ
  pub tcp_port : ℕ
  pub verbose : Bool
  pub stats_only : Bool
  pub validate_crc : Bool
  pub zero_copy : Bool

abbrev pub default_tcp_port : ℕ
default_tcp_port = 5000

abbrev pub initial_config : AppConfig
initial_config = record {
  desc_count = 256;
  frame_rate = 25;
  buffer_size = 0;
  tcp_port = default_tcp_port;
  verbose = false;
  stats_only = false;
  validate_crc = true;
  zero_copy = false;
}

-- An option with the value that strtoul reads from its argument.
pub data Argument : Type 0 where
  set_rate set_count : ℕ → Argument
  no_crc print_stats be_verbose : Argument
  tcp_server : Option ℕ → Argument
  use_zero_copy show_version show_help unknown : Argument

-- Whether the loop goes on, or returns a code.
pub data Step : Type 0 where
  continue : AppConfig → Step
  leave : ℤ → AppConfig → Step

abbrev pub bad_rate : ℕ → Bool
bad_rate n = ltb n 1 || ltb 60 n

abbrev pub bad_count : ℕ → Bool
bad_count n = ltb n 4 || ltb 4096 n || not (bit_and n (n - 1) == 0)

abbrev pub refuse_if : Bool → AppConfig → Step
refuse_if bad c = if bad then leave (negsuc 0) c else continue c

-- The cases of the switch.
abbrev pub parse_argument : Argument → AppConfig → Step
parse_argument (set_rate n) c = refuse_if (bad_rate (u32 n)) (record c { frame_rate = u32 n })
parse_argument (set_count n) c = refuse_if (bad_count (u32 n)) (record c { desc_count = u32 n })
parse_argument no_crc c = continue (record c { validate_crc = false })
parse_argument print_stats c = continue (record c { stats_only = true })
parse_argument be_verbose c = continue (record c { verbose = true })
parse_argument (tcp_server (some n)) c = continue (record c { tcp_port = u16 n })
parse_argument (tcp_server none) c = continue (record c { tcp_port = default_tcp_port })
parse_argument use_zero_copy c = continue (record c { zero_copy = true })
parse_argument show_version c = leave (pos 1) c
parse_argument show_help c = leave (pos 1) c
parse_argument unknown c = leave (negsuc 0) c

abbrev pub resume : (AppConfig → ℤ × AppConfig) → Step → ℤ × AppConfig
resume next (continue c) = next c
resume next (leave code c) = (code, c)

-- The return value of `parse_arguments` and the configuration that it leaves.
unfoldable pub parse_arguments : List Argument → AppConfig → ℤ × AppConfig
parse_arguments [] c = (pos 0, c)
parse_arguments (a ∷ rest) c = resume (parse_arguments rest) (parse_argument a c)
