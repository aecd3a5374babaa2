-- ===== src/Viewer/Entry.antt =====
-- `PhantomFpgaViewer::run` and the `main` of phantomfpga_view_impl.cpp, which destroys the viewer.
use Prim.Native.String.{String}
use phantomfpga_project.Base.{ℕ, zero, suc, ℤ, pos, negsuc, Bool, true, false, not, ◌≡◌, ◌≢◌}
use phantomfpga_project.Base.{List, [], ◌++◌, Option, none, some}
use phantomfpga_project.Posix.{Resource, Event, Leads}
use phantomfpga_project.Viewer.Connect
use phantomfpga_project.Viewer.Connect.{TcpClient, Lookup, new_client, connect}
use phantomfpga_project.Viewer.Terminal
use phantomfpga_project.Viewer.Terminal.{Output, new_terminal, visible}
use phantomfpga_project.Viewer.Run.{Viewer, Derived, Timing, quiet, Running, run_viewer}
use phantomfpga_project.Viewer.Run.Ends.{NeverRaises}
use phantomfpga_project.Viewer.Options.{Parsed, leave, proceed, parse_arguments}

-- The flag is down if a signal arrived between the lines that install the handlers and the loop.
abbrev pub new_viewer : (early : Bool) → Viewer
new_viewer early = record {
  terminal = new_terminal;
  stats = record {
    frames_received = 0;
    frames_dropped = 0;
    crc_errors = 0;
    magic_errors = 0;
    last_sequence = negsuc 0;
  };
  running = not early;
}

-- The exit status, the members that own something, and what was done.
pub record Process : Type 0 where
  pub status : ℕ
  pub client : TcpClient
  pub viewer : Viewer
  pub events : List Event
  pub output : List Output

abbrev exit_early : ℕ → Process
exit_early status = record {
  status = status;
  client = new_client;
  viewer = new_viewer false;
  events = [];
  output = [];
}

-- `(ret > 0) ? 0 : 1`.
abbrev pub early_status : ℤ → ℕ
early_status (pos zero) = 1
early_status (pos (suc n)) = 0
early_status (negsuc n) = 1

-- After `run_viewer`, if it returned.
abbrev viewed {ℓ} : {S : Type ℓ} → TcpClient → List Event → Option (Running S) → Option Process
viewed c es none = none
viewed c es (some w) =
    some (record { status = 0; client = c; viewer = w.viewer; events = es; output = w.output })

-- The members in reverse: the terminal, then the client.
abbrev pub destroy : Process → Process
destroy p = record p {
  events = p.events ++ Connect.destroy p.client;
  output = p.output ++ Terminal.destroy p.viewer.terminal;
}

abbrev destroyed : Option Process → Option Process
destroyed none = none
destroyed (some p) = some (destroy p)

-- A derived class, its members once `record_path_` is set, and the signals that arrive early and at
-- its methods. It does not connect `client_` again.
module _ {ℓ} {S : Type ℓ} (d : Derived S) (members : String → S) (early : Bool)
    (signals : ℕ → Timing) (fuel : ℕ) where
  -- The first argument is what `connect` returned.
  abbrev view_if : Bool → String → TcpClient → List Event → Option Process
  view_if false path c es =
      some (record (exit_early 1) { client = c; viewer = new_viewer early; events = es })
  view_if true path c es = viewed c es (run_viewer d signals fuel (new_viewer early) (members path))

  abbrev run_parsed : Parsed → Lookup → Option Process
  run_parsed (leave code) k = some (exit_early (early_status code))
  run_parsed (proceed path host port) k =
      let o = connect k new_client in view_if o.success path o.client o.events

  -- With the answers to `connect`; `none` when the fuel of the loop is gone.
  unfoldable pub run : (String → ℤ) → List String → Lookup → Option Process
  unfolding parse_arguments connect run_viewer
  run atoi args k = run_parsed (parse_arguments atoi args) k

  unfoldable pub main : (String → ℤ) → List String → Lookup → Option Process
  unfolding run
  main atoi args k = destroyed (run atoi args k)

-- Nothing is open, and the screen shows its cursor.
abbrev pub IsClean : Resource → Process → Type 0
IsClean r p = Leads r p.events 0 0 × (visible true p.output ≡ true)

module _ {ℓ} {S : Type ℓ} (d : Derived S) (members : String → S) (early : Bool)
    (signals : ℕ → Timing) (keeps : NeverRaises d) (i : ℕ) (signal : signals i ≢ quiet)
    (r : Resource) where
  -- The viewer exits, clean.
  abbrev Exits : Option Process → Type 0
  Exits o = (p : Process) × (destroyed o ≡ some p) × IsClean r p
