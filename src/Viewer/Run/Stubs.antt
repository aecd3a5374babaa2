-- ===== src/Viewer/Run/Stubs.antt =====
-- `PhantomFpgaViewerImpl` as it stands: methods that print a reminder, and the two with a result
-- return false.
use phantomfpga_project.Base.{Bool, true, false, not, ◌&&◌, [], ◌≡◌, refl}
use phantomfpga_project.Viewer.Run.{
  ViewerStats, receive_frame, validate_frame, check_sequence, display_frame, frame_delay,
  print_stats, Called, Derived,
}
use phantomfpga_project.Viewer.Run.Ends.{NeverRaises}

-- No member is added, and none of the base is touched: the flag is down if the handler lowered it.
abbrev returned : Bool → ViewerStats → Bool → Called (Unit {0})
returned arrives stats running = record {
  value = false;
  uses = [];
  stats = stats;
  running = running && not arrives;
  members = tt;
}

unfoldable pub stubs : Derived (Unit {0})
stubs receive_frame arrives stats running s = returned arrives stats running
stubs validate_frame arrives stats running s = returned arrives stats running
stubs check_sequence arrives stats running s = returned arrives stats running
stubs display_frame arrives stats running s = returned arrives stats running
stubs frame_delay arrives stats running s = returned arrives stats running
stubs print_stats arrives stats running s = returned arrives stats running

pub lowered :
    (running arrives : Bool)
    → (running && not arrives) ≡ true
    → (running ≡ true) × (arrives ≡ false)
lowered true false e = (refl, refl)
lowered true true e = cc
lowered false arrives e = cc

pub stubs-NeverRaises : NeverRaises stubs
unfolding stubs
stubs-NeverRaises receive_frame arrives stats running s = lowered running arrives
stubs-NeverRaises _ arrives stats running s = lowered running arrives
