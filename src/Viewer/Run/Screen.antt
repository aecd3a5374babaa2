-- ===== src/Viewer/Run/Screen.antt =====
-- What a run of the viewer leaves: the screen, the terminal's flag and the count of frames.
use mathlib.Core.Path.{subst}
use phantomfpga_project.Base.{
  ℕ, zero, suc, ◌+◌, ◌<◌, ◌%◌, ◌^◌, Bool, true, false, not, ◌≡◌, ◌≢◌, refl, ap, ◌∙◌, arith,
  if◌then◌else◌,
}
use phantomfpga_project.Base.{List, [], ◌∷◌, ◌++◌, length, Option, none, some}
use phantomfpga_project.Viewer.Terminal.{
  Terminal, show, newline, Use, clears, hides, shows, homes, do_use, do_uses, do_uses-visible,
  visible, visible-append,
}
use phantomfpga_project.Viewer.Run.{
  ViewerStats, Viewer, Method, print_stats, Derived, Timing, quiet, is_during, Running, start_view,
  show_again, call, body, loop, finish, run_viewer,
}
use phantomfpga_project.Viewer.Run.Ends.{NeverRaises, loop-ends}
use phantomfpga_project.Viewer.Run.Frames.{
  frames, frames-append, LeavesCount, Counts, call-received, body-Counts,
}

-- No call of `hide_cursor`.
abbrev pub NoHides : List Use → Type 0
NoHides [] = Unit
NoHides (hides ∷ us) = ⊥
NoHides (clears ∷ us) = NoHides us
NoHides (shows ∷ us) = NoHides us
NoHides (homes ∷ us) = NoHides us

do_uses-shown :
    (us : List Use) (t : Terminal)
    → NoHides us
    → t.cursor_hidden ≡ false
    → (do_uses us t).0.cursor_hidden ≡ false
do_uses-shown [] t h e = e
do_uses-shown (hides ∷ us) t h e = absurd h
do_uses-shown (clears ∷ us) t h e = do_uses-shown us t h e
do_uses-shown (shows ∷ us) t h e = do_uses-shown us (do_use shows t).0 h refl
do_uses-shown (homes ∷ us) t h e = do_uses-shown us t h e

module _ {ℓ} {S : Type ℓ} where
  -- The flag of the terminal says what the screen shows, which showed its cursor or not at first.
  abbrev pub Agrees : Bool → Running S → Type 0
  Agrees shown r = visible shown r.output ≡ not r.viewer.terminal.cursor_hidden

  some-injective : (r r' : Running S) → some r ≡ some r' → r ≡ r'
  some-injective r r' e = ap (λ o. elim o [ none ↦ r | some x ↦ x ]) e

  leave_loop :
      (P : Running S → Type 0) (running goes_on : Bool) (r r1 r' : Running S)
      (rest : Option (Running S))
      → P r
      → P r1
      → (rest ≡ some r' → P r')
      → (if not running then some r else if goes_on then rest else some r1) ≡ some r'
      → P r'
  leave_loop P false goes_on r r1 r' rest h h1 later e = subst P (some-injective r r' e) h
  leave_loop P true false r r1 r' rest h h1 later e = subst P (some-injective r1 r' e) h1
  leave_loop P true true r r1 r' rest h h1 later e = later e

  module _ (d : Derived S) (signals : ℕ → Timing) where
    -- What every round keeps holds after the loop.
    loop-keeps :
        (P : Running S → Type 0)
        → ((r : Running S) → P r → P (body d signals r).1)
        → (fuel : ℕ) (r r' : Running S) → P r
        → loop d signals fuel r ≡ some r'
        → P r'
    unfolding loop
    loop-keeps P keeps zero r r' h e = cc
    loop-keeps P keeps (suc fuel) r r' h e =
        let (goes_on, r1) = body d signals r in
        leave_loop P r.viewer.running goes_on r r1 r' (loop d signals fuel r1) h (keeps r h)
          (loop-keeps P keeps fuel r1 r' (keeps r h)) e

    call-Agrees :
        (shown : Bool) (m : Method) (r : Running S)
        → Agrees shown r
        → Agrees shown (call d signals m r).1
    call-Agrees shown m r agrees =
        let t = signals (length r.calls) in
        let c = d m (is_during t) r.viewer.stats r.viewer.running r.members in
        visible-append shown r.output (do_uses c.uses r.viewer.terminal).1
        ∙ rw agrees (do_uses-visible c.uses r.viewer.terminal)

    -- The screen and the flag agree once the cursor was shown again and `print_stats` returned.
    pub close-Agrees :
        (shown : Bool) (r : Running S) → Agrees shown (call d signals print_stats (show_again r)).1
    close-Agrees shown r = call-Agrees shown print_stats (show_again r) (
        visible-append shown (r.output ++ show ∷ []) (newline ∷ [])
        ∙ visible-append shown r.output (show ∷ []))

    module _ (keeps : NeverRaises d) (k : ℕ) (signal : signals k ≢ quiet) (v : Viewer) (s : S) where
      -- What every round keeps holds where `run_viewer` shows the cursor again.
      run_viewer-keeps :
          (P : Running S → Type 0)
          → ((r : Running S) → P r → P (body d signals r).1)
          → P (start_view v s)
          → (r : Running S) × (run_viewer d signals (k + 2) v s
              ≡ some (call d signals print_stats (show_again r)).1)
            × P r
      unfolding run_viewer
      run_viewer-keeps P round start =
          let (r, cs, ends, same, rounds, few) = loop-ends d signals keeps k signal v s in
          (r, ap (finish d signals) ends, loop-keeps P round (k + 2) (start_view v s) r start ends)

      -- For every class, one whose `print_stats` hides the cursor included.
      pub run_viewer-Agrees :
          (shown : Bool)
          → (w : Running S) × (run_viewer d signals (k + 2) v s ≡ some w) × Agrees shown w
      run_viewer-Agrees shown =
          let (r, ends, any) = run_viewer-keeps (λ r. Unit {0}) (λ r h. tt) tt in
          ((call d signals print_stats (show_again r)).1, ends, close-Agrees shown r)

  -- `print_stats` does not hide the cursor.
  abbrev pub ShowsStats : Derived S → Type ℓ
  ShowsStats d =
      (arrives : Bool) (stats : ViewerStats) (running : Bool) (s : S)
      → NoHides (d print_stats arrives stats running s).uses

  module _ (d : Derived S) (signals : ℕ → Timing) (leaves : LeavesCount d) where
    module _ (keeps : NeverRaises d) (quiet_end : ShowsStats d) (k : ℕ)
        (signal : signals k ≢ quiet) where
      -- For every derived class that never raises the flag, leaves the count of frames alone and
      -- does not hide the cursor in print_stats, and a count below 2^64: when a signal comes at call
      -- k, if that many are made, `run_viewer` returns; the screen then shows its cursor, whatever
      -- it showed before, and the terminal's flag says so; and frames_received has grown by the
      -- number of calls of receive_frame that returned true, mod 2^64.
      pub run_viewer_lem :
          (v : Viewer) (s : S) (shown : Bool)
          → v.stats.frames_received < 2 ^ 64
          → (w : Running S) × (run_viewer d signals (k + 2) v s ≡ some w)
            × (visible shown w.output ≡ true)
            × (w.viewer.terminal.cursor_hidden ≡ false)
            × (w.viewer.stats.frames_received ≡ (v.stats.frames_received + frames w.calls) % 2 ^ 64)
      run_viewer_lem v s shown small =
          let before = v.stats.frames_received in
          let (r, ends, counts) =
            run_viewer-keeps d signals keeps k signal v s (Counts before)
              (body-Counts d signals leaves before) (omega arith) in
          let last = show_again r in
          let (value, w) = call d signals print_stats last in
          let t = signals (length r.calls) in
          let hidden =
            do_uses-shown
              (d print_stats (is_during t) last.viewer.stats last.viewer.running last.members).uses
              last.viewer.terminal
              (quiet_end (is_during t) last.viewer.stats last.viewer.running last.members) refl in
          (
            w,
            ends,
            close-Agrees d signals shown r ∙ ap not hidden,
            hidden,
            call-received d signals leaves print_stats last
                ∙ counts
                ∙ omega (arith, frames-append r.calls ((print_stats, value) ∷ [])),
          )
