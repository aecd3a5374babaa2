-- ===== src/Viewer/Run/Frames.antt =====
-- The frames that a run of the viewer receives, and its count of them.
use phantomfpga_project.Base.{
  ℕ, suc, ◌+◌, ◌<◌, ◌%◌, ◌^◌, add64, Bool, true, false, ◌≡◌, refl, ap, ◌∙◌, arith, if◌then◌else◌,
}
use phantomfpga_project.Base.{List, [], ◌∷◌, ◌++◌, length}
use phantomfpga_project.Viewer.Run.{
  ViewerStats, Method, receive_frame, validate_frame, check_sequence, display_frame, frame_delay,
  print_stats, Derived, Timing, is_during, Running, leave_round, call, count, body,
}
use phantomfpga_project.Viewer.Run.Ends.{Round, lost, rejected, displayed, body-Made}

-- The frames received, by the calls and the values that they returned.
abbrev pub frames : List (Method × Bool) → ℕ
frames [] = 0
frames ((receive_frame, true) ∷ cs) = suc (frames cs)
frames (_ ∷ cs) = frames cs

pub frames-append : (cs ds : List (Method × Bool)) → frames (cs ++ ds) ≡ frames cs + frames ds
frames-append [] ds = omega arith
frames-append ((receive_frame, true) ∷ cs) ds = omega (arith, frames-append cs ds)
frames-append ((receive_frame, false) ∷ cs) ds = frames-append cs ds
frames-append ((validate_frame, b) ∷ cs) ds = frames-append cs ds
frames-append ((check_sequence, b) ∷ cs) ds = frames-append cs ds
frames-append ((display_frame, b) ∷ cs) ds = frames-append cs ds
frames-append ((frame_delay, b) ∷ cs) ds = frames-append cs ds
frames-append ((print_stats, b) ∷ cs) ds = frames-append cs ds

Round-frames :
    {goes_on : Bool} {cs : List (Method × Bool)}
    → Round goes_on cs
    → frames cs ≡ (if goes_on then 1 else 0)
Round-frames lost = refl
Round-frames rejected = refl
Round-frames (displayed a b c) = refl

module _ {ℓ} {S : Type ℓ} where
  abbrev pub received : Running S → ℕ
  received r = r.viewer.stats.frames_received

  -- Only `run_viewer` counts the frames.
  abbrev pub LeavesCount : Derived S → Type ℓ
  LeavesCount d =
      (m : Method) (arrives : Bool) (stats : ViewerStats) (running : Bool) (s : S)
      → (d m arrives stats running s).stats.frames_received ≡ stats.frames_received

  -- The count after frames in the calls made.
  abbrev pub Counts : ℕ → Running S → Type 0
  Counts before r = received r ≡ (before + frames r.calls) % 2 ^ 64

  leave_round-received :
      (got is_valid : Bool) (r r1 r2 r5 : Running S)
      → received r < 2 ^ 64
      → received r1 ≡ received r
      → received r2 ≡ add64 (received r) 1
      → received r5 ≡ add64 (received r) 1
      → let o = leave_round got is_valid r1 r2 r5 in
        received o.1 ≡ (received r + (if o.0 then 1 else 0)) % 2 ^ 64
  leave_round-received false is_valid r r1 r2 r5 small e1 e2 e5 = omega arith
  leave_round-received true false r r1 r2 r5 small e1 e2 e5 = e2
  leave_round-received true true r r1 r2 r5 small e1 e2 e5 = e5

  module _ (d : Derived S) (signals : ℕ → Timing) (leaves : LeavesCount d) where
    pub call-received : (m : Method) (r : Running S) → received (call d signals m r).1 ≡ received r
    call-received m r =
        leaves m (is_during (signals (length r.calls))) r.viewer.stats r.viewer.running r.members

    pub body-Counts :
        (before : ℕ) (r : Running S) → Counts before r → Counts before (body d signals r).1
    body-Counts before r counts =
        let (got, r1) = call d signals receive_frame r in
        let e1 = call-received receive_frame r in
        let (is_valid, r2) = call d signals validate_frame (count r1) in
        let e2 = call-received validate_frame (count r1) ∙ ap (λ n. add64 n 1) e1 in
        let r3 = (call d signals check_sequence r2).1 in
        let r4 = (call d signals display_frame r3).1 in
        let r5 = (call d signals frame_delay r4).1 in
        let e5 =
          call-received frame_delay r4
          ∙ call-received display_frame r3
          ∙ call-received check_sequence r2
          ∙ e2 in
        let (first, made, round) = body-Made d signals r in
        let counted =
          leave_round-received got is_valid r r1 r2 r5 (omega (arith, counts)) e1 e2 e5 in
        let here : frames (body d signals r).1.calls
            ≡ frames r.calls + (if (body d signals r).0 then 1 else 0) =
          ap frames made
          ∙ frames-append r.calls first
          ∙ ap (λ n. frames r.calls + n) (Round-frames round) in
        counted ∙ omega (arith, counts, here)
