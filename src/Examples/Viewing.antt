-- ===== src/Examples/Viewing.antt =====
-- A derived class that receives a frame in each round, finds every other one broken and homes the
-- cursor for the others, until Ctrl+C while the sixth method runs; at the end it hides the cursor or
-- leaves it.
use mathlib.Core.Option
use phantomfpga_project.Base.{
  ℕ, suc, ◌+◌, ◌≤◌, ◌==◌, ◌%◌, ◌^◌, Bool, true, false, not, ◌&&◌, if◌then◌else◌, pos, ◌≡◌, ◌≢◌,
  refl, arith,
}
use phantomfpga_project.Base.{List, [], ◌∷◌, ◌++◌, length, some}
use phantomfpga_project.Viewer.Connect.{Candidate}
use phantomfpga_project.Viewer.Terminal.{Use, homes, hides, visible}
use phantomfpga_project.Viewer.Run.{
  ViewerStats, Method, receive_frame, validate_frame, display_frame, check_sequence, frame_delay,
  print_stats, Called, Derived, Timing, quiet, during, Running, run_viewer,
}
use phantomfpga_project.Viewer.Run.Ends.{NeverRaises, Rounds, run_viewer-ends}
use phantomfpga_project.Viewer.Run.Frames.{frames, LeavesCount}
use phantomfpga_project.Viewer.Run.Screen.{ShowsStats, run_viewer_lem}
use phantomfpga_project.Viewer.Run.Stubs.{lowered}
use phantomfpga_project.Viewer.Entry.{new_viewer}

-- The member counts the frames, and check_sequence counts one as dropped.
abbrev returns : Bool → List Use → Bool → ViewerStats → Bool → ℕ → Called ℕ
returns b us arrives stats running n = record {
  value = b;
  uses = us;
  stats = stats;
  running = running && not arrives;
  members = n;
}

abbrev alternating : List Use → Derived ℕ
alternating last receive_frame arrives stats running n =
    returns true [] arrives stats running (suc n)
alternating last validate_frame arrives stats running n =
    returns (n % 2 == 1) [] arrives stats running n
alternating last check_sequence arrives stats running n =
    returns false [] arrives (record stats { frames_dropped = 1 }) running n
alternating last display_frame arrives stats running n =
    returns false (homes ∷ []) arrives stats running n
alternating last frame_delay arrives stats running n = returns false [] arrives stats running n
alternating last print_stats arrives stats running n = returns false last arrives stats running n

alternating-NeverRaises : (last : List Use) → NeverRaises (alternating last)
alternating-NeverRaises last receive_frame arrives stats running n e = lowered running arrives e
alternating-NeverRaises last _ arrives stats running n e = lowered running arrives e

alternating-LeavesCount : (last : List Use) → LeavesCount (alternating last)
alternating-LeavesCount last receive_frame arrives stats running n = refl
alternating-LeavesCount last _ arrives stats running n = refl

alternating-ShowsStats : ShowsStats (alternating [])
alternating-ShowsStats arrives stats running n = tt

abbrev sixth : ℕ → Timing
sixth i = if i == 5 then during else quiet

sixth-signal : sixth 5 ≢ quiet
sixth-signal e = cc

run_viewer-ends_example :
    (w : Running ℕ) × (cs : List (Method × Bool)) × (value : Bool) × (run_viewer
        (alternating (hides ∷ []))
        sixth
        7
        (new_viewer false)
        0
      ≡ some w)
    × (w.calls ≡ cs ++ ((print_stats, value) ∷ []))
    × Rounds cs
    × (length w.calls ≤ 11)
run_viewer-ends_example =
    run_viewer-ends (alternating (hides ∷ [])) sixth (alternating-NeverRaises (hides ∷ [])) 5
      sixth-signal (new_viewer false) 0

run_viewer_lem_example :
    (w : Running ℕ) × (run_viewer (alternating []) sixth 7 (new_viewer false) 0 ≡ some w)
    × (visible true w.output ≡ true)
    × (w.viewer.terminal.cursor_hidden ≡ false)
    × (w.viewer.stats.frames_received ≡ (0 + frames w.calls) % 2 ^ 64)
run_viewer_lem_example =
    run_viewer_lem (alternating []) sixth (alternating-LeavesCount []) (alternating-NeverRaises [])
      alternating-ShowsStats 5 sixth-signal (new_viewer false) 0 true (omega arith)

abbrev reachable : List Candidate
reachable = record { socket = pos 3; connects = true } ∷ []

-- The calls that are made.
abbrev made : List (Method × Bool)
made =
    (receive_frame, true)
    ∷ (validate_frame, true)
    ∷ (check_sequence, false)
    ∷ (display_frame, false)
    ∷ (frame_delay, false)
    ∷ (receive_frame, true)
    ∷ (validate_frame, false)
    ∷ (print_stats, false)
    ∷ []

run_viewer-made :
    Option.map
      (λ (w : Running ℕ). w.calls)
      (run_viewer (alternating []) sixth 7 (new_viewer false) 0)
    ≡ some made
unfolding run_viewer
run_viewer-made = refl
