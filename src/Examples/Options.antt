-- ===== src/Examples/Options.antt =====
-- Command lines that are accepted and refused.
use phantomfpga_project.Base.{arith, pos, negsuc, List, [], ◌∷◌, ◌≡◌, refl, none}
use phantomfpga_project.App.Options.{
  Argument, set_rate, set_count, be_verbose, tcp_server, show_version, initial_config,
  parse_arguments,
}
use phantomfpga_project.Regs.Ring.Counters.{Counts}
use phantomfpga_project.App.Options.Ring.{parse_arguments-Counts}
use phantomfpga_project.App.Options.Runnable.{IsRunnable, parse_arguments-IsRunnable}

abbrev fast : List Argument
fast = set_rate 60 ∷ set_count 1024 ∷ tcp_server none ∷ be_verbose ∷ []

fast_accepted : (parse_arguments fast initial_config).0 ≡ pos 0
unfolding parse_arguments
fast_accepted = refl

parse_arguments-IsRunnable_example : IsRunnable (parse_arguments fast initial_config).1
parse_arguments-IsRunnable_example = parse_arguments-IsRunnable fast fast_accepted

fast-count : (parse_arguments fast initial_config).1.desc_count ≡ 1024
unfolding parse_arguments
fast-count = refl

-- A ring of 1024 slots that has gone round once: 1500 submitted, 1000 completed.
parse_arguments-Counts_example : Counts (parse_arguments fast initial_config).1.desc_count 1500 1000
parse_arguments-Counts_example =
    parse_arguments-Counts fast 1500 1000 fast_accepted (omega arith) (omega (arith, fast-count))

-- 2^32 + 25 is cut to 25.
rate-cut : parse_arguments (set_rate 4294967321 ∷ []) initial_config ≡ (pos 0, initial_config)
unfolding parse_arguments
rate-cut = refl

count-refused : (parse_arguments (set_count 1000 ∷ show_version ∷ []) initial_config).0 ≡ negsuc 0
unfolding parse_arguments
count-refused = refl
