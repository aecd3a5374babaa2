-- ===== src/Examples/Interrupts.antt =====
-- Ctrl+C while the handlers are installed, and in the loop.
use phantomfpga_project.Base.{ℕ, ℤ, pos, negsuc, Bool, true, ◌≡◌, refl, ◌≤◌, ◌==◌, suc}
use phantomfpga_project.Base.{some, get_or, ◌||◌, if◌then◌else◌}
use phantomfpga_project.App.Signals.{
  sigint, sigterm, started, deliver, initial, runs, arrives, Steps, done, more, lines, State,
  Process, handled, execute, other,
}
use phantomfpga_project.App.Signals.Stops.{IsStopped, deliver-stops}
use phantomfpga_project.App.Server.{unbound}
use phantomfpga_project.App.Run.{App, fresh}
use phantomfpga_project.App.Run.Impl.{accept_loop}
use phantomfpga_project.App.Run.Impl.Loop.{main_loop, rounds, main_loop-ends}

-- After two lines SIGINT is handled and SIGTERM still has its default action.
abbrev two_lines : Process
two_lines = record started { instance_ = true; on_sigint = handled }

half_way : Steps initial (record { line = 2; process = two_lines })
unfolding lines
half_way = more (more done (runs 0 started)) (runs 1 (record started { instance_ = true }))

abbrev interrupted : State
interrupted = record { line = 2; process = deliver sigint two_lines }

-- SIGINT comes, the third line runs, and SIGTERM comes too.
abbrev at_last : Process
at_last = deliver sigterm (execute (get_or lines 2 other) interrupted.process)

to_the_end : Steps interrupted (record { line = 3; process = at_last })
to_the_end =
    more (more done (runs 2 interrupted.process))
      (arrives sigterm 3 (execute (get_or lines 2 other) interrupted.process))

deliver-stops_example : IsStopped at_last
deliver-stops_example = deliver-stops sigint half_way to_the_end

-- A client in the second round, and Ctrl+C in the third and the fifth.
abbrev ready : ℕ → ℤ
ready n = if n == 1 then pos 7 else negsuc 10

abbrev signals : ℕ → Bool
signals n = (n == 2) || (n == 4)

abbrev serving : App
serving = record fresh {
  tcp_server = some (record (unbound 5000) { listen_fd = record { fd = pos 5 } });
}

main_loop-ends_example :
    (j : ℕ) × (j ≤ 4)
    × (signals j ≡ true)
    × (main_loop ready signals 6 0 serving ≡ some (accept_loop (rounds ready (suc j) 0) serving))
main_loop-ends_example = main_loop-ends ready signals 4 serving refl refl
