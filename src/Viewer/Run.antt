-- ===== src/Viewer/Run.antt =====
-- `PhantomFpgaViewer::run_viewer` over the virtual methods of a derived class, with signals at any
-- call of them.
pub mod Ends
pub mod Frames
pub mod Screen
pub mod Stubs
use phantomfpga_project.Base.{ℕ, zero, suc, add64, ℤ, Bool, true, false, not, if◌then◌else◌}
use phantomfpga_project.Base.{List, [], ◌∷◌, ◌++◌, length, Option, none, some}
use phantomfpga_project.Viewer.Terminal
use phantomfpga_project.Viewer.Terminal.{Terminal, Output, newline, Use, do_uses}

pub record ViewerStats : Type 0 where
  pub frames_received : ℕ
  pub frames_dropped : ℕ
  pub crc_errors : ℕ
  pub magic_errors : ℕ
  pub last_sequence : ℤ

-- The protected members that `run_viewer` reads or writes.
pub record Viewer : Type 0 where
  pub terminal : Terminal
  pub stats : ViewerStats
  pub running : Bool

-- The virtual methods.
pub data Method : Type 0 where
  receive_frame validate_frame check_sequence display_frame frame_delay print_stats : Method

-- What a call of a method comes to: what it returns, `false` where it returns nothing; its calls of
-- the terminal, by which alone it prints escape sequences; and afterwards the counters, the flag,
-- and whatever else the class keeps: its own members, what it has read from `client_`,
-- `frame_buffer_` and `record_path_`.
pub record Called {ℓ} (S : Type ℓ) : Type ℓ where
  pub value : Bool
  pub uses : List Use
  pub stats : ViewerStats
  pub running : Bool
  pub members : S

-- A method meets whether a signal arrives while it runs, the counters, the flag and the members.
abbrev pub Derived {ℓ} : Type ℓ → Type ℓ
Derived S = Method → (arrives : Bool) → ViewerStats → (running : Bool) → S → Called S

-- When a signal arrives, as to a call: not at all, while it runs, or between it and what follows.
pub data Timing : Type 0 where
  quiet during after : Timing

abbrev pub is_during : Timing → Bool
is_during quiet = false
is_during during = true
is_during after = false

-- The flag after a call that leaves it as given; the handler lowers it.
abbrev pub flag_after : Timing → Bool → Bool
flag_after quiet running = running
flag_after during running = running
flag_after after running = false

-- While `run_viewer` runs: the object, the escape sequences and newlines that were printed, and the
-- methods called, with their values.
pub record Running {ℓ} (S : Type ℓ) : Type ℓ where
  pub viewer : Viewer
  pub members : S
  pub output : List Output
  pub calls : List (Method × Bool)

abbrev pub on_terminal {ℓ} :
    {S : Type ℓ} → (Terminal → Terminal × List Output) → Running S → Running S
on_terminal f r =
    let (t, os) = f r.viewer.terminal in
    record r { viewer = record r.viewer { terminal = t }; output = r.output ++ os }

-- The terminal's calls of `run_viewer` itself.
abbrev pub start_view {ℓ} : {S : Type ℓ} → Viewer → S → Running S
start_view v s = on_terminal Terminal.hide_cursor (
    on_terminal Terminal.clear_screen (record { viewer = v; members = s; output = []; calls = [] }))

-- `terminal_.show_cursor()` and the newline.
abbrev pub show_again {ℓ} : {S : Type ℓ} → Running S → Running S
show_again r =
    let shown = on_terminal Terminal.show_cursor r in
    record shown { output = shown.output ++ (newline ∷ []) }

-- `stats_.frames_received++`.
abbrev pub count {ℓ} : {S : Type ℓ} → Running S → Running S
count r =
    let stats = r.viewer.stats in
    record r {
      viewer = record r.viewer {
        stats = record stats { frames_received = add64 stats.frames_received 1 };
      };
    }

-- Where a round of the loop leaves it, and whether the loop goes on: `break`, `continue` or the end
-- of the body.
abbrev pub leave_round {ℓ} :
    {S : Type ℓ} → (got is_valid : Bool) (lost rejected displayed : Running S) → Bool × Running S
leave_round got is_valid lost rejected displayed =
    if not got then (false, lost) else if not is_valid then (true, rejected) else (true, displayed)

-- With the signal that comes at each call, by the number of calls before it.
module _ {ℓ} {S : Type ℓ} (d : Derived S) (signals : ℕ → Timing) where
  abbrev pub call : Method → Running S → Bool × Running S
  call m r =
      let timing = signals (length r.calls) in
      let c = d m (is_during timing) r.viewer.stats r.viewer.running r.members in
      let (t, os) = do_uses c.uses r.viewer.terminal in
      (
        c.value,
        record {
          viewer = record { terminal = t; stats = c.stats; running = flag_after timing c.running };
          members = c.members;
          output = r.output ++ os;
          calls = r.calls ++ ((m, c.value) ∷ []);
        },
      )

  -- check_sequence, display_frame and frame_delay.
  abbrev pub show_frame : Running S → Running S
  show_frame r = (call frame_delay (call display_frame (call check_sequence r).1).1).1

  abbrev pub body : Running S → Bool × Running S
  body r =
      let (got, r1) = call receive_frame r in
      let (is_valid, r2) = call validate_frame (count r1) in
      leave_round got is_valid r1 r2 (show_frame r2)

  -- `none` when the fuel is gone.
  pub loop : (fuel : ℕ) → Running S → Option (Running S)
  loop zero r = none
  loop (suc fuel) r =
      let (goes_on, r') = body r in
      let rest = loop fuel r' in
      if not r.viewer.running then some r else if goes_on then rest else some r'

  -- What follows the loop.
  abbrev pub finish : Option (Running S) → Option (Running S)
  finish none = none
  finish (some r) = some (call print_stats (show_again r)).1

  -- It returns 0 in any case.
  unfoldable pub run_viewer : (fuel : ℕ) → Viewer → S → Option (Running S)
  unfolding loop
  run_viewer fuel v s = finish (loop fuel (start_view v s))
