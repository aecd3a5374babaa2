-- ===== src/Viewer/Run/Ends.antt =====
-- That `run_viewer` returns, and the calls that it makes until then.
use mathlib.Core.List.{append-nil, append_assoc}
use phantomfpga_project.Base.{
  ℕ, zero, suc, ◌+◌, ◌≤◌, Bool, true, false, not, ◌≡◌, ◌≢◌, refl, sym, ap, ◌∙◌, arith,
}
use phantomfpga_project.Base.{
  List, [], ◌∷◌, ◌++◌, length, length-append, Option, some, if◌then◌else◌, ◌⊎◌, inl, inr,
}
use phantomfpga_project.Viewer.Run.{
  ViewerStats, Viewer, Method, receive_frame, validate_frame, check_sequence, display_frame,
  frame_delay, print_stats, Derived, Timing, quiet, during, after, is_during, flag_after, Running,
  start_view, show_again, leave_round, call, count, body, loop, finish, run_viewer,
}

-- The calls of a round, by the values that they returned, and whether the loop goes on: it ends at
-- a receive_frame that fails, and a frame that is not valid is not displayed.
pub data Round : Bool → List (Method × Bool) → Type 0 where
  lost : Round false ((receive_frame, false) ∷ [])
  rejected : Round true ((receive_frame, true) ∷ (validate_frame, false) ∷ [])
  displayed :
      (a b c : Bool)
      → Round true (
          (receive_frame, true)
          ∷ (validate_frame, true)
          ∷ (check_sequence, a)
          ∷ (display_frame, b)
          ∷ (frame_delay, c)
          ∷ [])

-- The calls of the loop, up to its end at the test or at a lost server.
pub data Rounds : List (Method × Bool) → Type 0 where
  stopped : Rounds []
  ended : {cs : List (Method × Bool)} → Round false cs → Rounds cs
  next : {first cs : List (Method × Bool)} → Round true first → Rounds cs → Rounds (first ++ cs)

Round-length :
    {goes_on : Bool} {cs : List (Method × Bool)}
    → Round goes_on cs
    → (1 ≤ length cs) × (length cs ≤ 5)
Round-length lost = omega arith
Round-length rejected = omega arith
Round-length (displayed a b c) = omega arith

flag_after-up :
    (t : Timing) (running : Bool)
    → flag_after t running ≡ true
    → (running ≡ true) × (is_during t ≡ true ⊎ (t ≡ quiet))
flag_after-up quiet running up = (up, inr refl)
flag_after-up during running up = (up, inl refl)
flag_after-up after running up = cc

pub leave_round-keeps {ℓ} :
    {S : Type ℓ} (P : Running S → Type 0) (got is_valid : Bool) (r1 r2 r5 : Running S)
    → P r1
    → P r2
    → P r5
    → P (leave_round got is_valid r1 r2 r5).1
leave_round-keeps P false is_valid r1 r2 r5 on_1 on_2 on_5 = on_1
leave_round-keeps P true false r1 r2 r5 on_1 on_2 on_5 = on_2
leave_round-keeps P true true r1 r2 r5 on_1 on_2 on_5 = on_5

module _ {ℓ} {S : Type ℓ} (d : Derived S) where
  -- A method leaves the flag up only if it met it up and no signal lowered it meanwhile.
  abbrev pub NeverRaises : Type ℓ
  NeverRaises =
      (m : Method) (arrives : Bool) (stats : ViewerStats) (running : Bool) (s : S)
      → (d m arrives stats running s).running ≡ true
      → (running ≡ true) × (arrives ≡ false)

  module _ (signals : ℕ → Timing) where
    -- What a round adds to the calls.
    abbrev pub Made : Bool → Running S → Running S → Type 0
    Made goes_on r r' =
        (first : List (Method × Bool)) × (r'.calls ≡ r.calls ++ first) × Round goes_on first

    choose :
        (got is_valid a b c : Bool) (r r1 r2 r5 : Running S)
        → r1.calls ≡ r.calls ++ ((receive_frame, got) ∷ [])
        → r2.calls ≡ r.calls ++ ((receive_frame, got) ∷ (validate_frame, is_valid) ∷ [])
        → r5.calls
          ≡ r.calls
            ++ ((receive_frame, got)
                ∷ (validate_frame, is_valid)
                ∷ (check_sequence, a)
                ∷ (display_frame, b)
                ∷ (frame_delay, c)
                ∷ [])
        → let o = leave_round got is_valid r1 r2 r5 in Made o.0 r o.1
    choose false is_valid a b c r r1 r2 r5 e1 e2 e5 = (_, e1, lost)
    choose true false a b c r r1 r2 r5 e1 e2 e5 = (_, e2, rejected)
    choose true true a b c r r1 r2 r5 e1 e2 e5 = (_, e5, displayed a b c)

    pub body-Made : (r : Running S) → Made (body d signals r).0 r (body d signals r).1
    body-Made r =
        let (got, r1) = call d signals receive_frame r in
        let (is_valid, r2) = call d signals validate_frame (count r1) in
        let (a, r3) = call d signals check_sequence r2 in
        let (b, r4) = call d signals display_frame r3 in
        let (c, r5) = call d signals frame_delay r4 in
        let two =
          append_assoc r.calls ((receive_frame, got) ∷ []) ((validate_frame, is_valid) ∷ []) in
        let three = ap (λ cs. cs ++ ((check_sequence, a) ∷ [])) two ∙ append_assoc r.calls _ _ in
        let four = ap (λ cs. cs ++ ((display_frame, b) ∷ [])) three ∙ append_assoc r.calls _ _ in
        let five = ap (λ cs. cs ++ ((frame_delay, c) ∷ [])) four ∙ append_assoc r.calls _ _ in
        choose got is_valid a b c r r1 r2 r5 refl two five

    module _ (keeps : NeverRaises) (k : ℕ) (signal : signals k ≢ quiet) where
      -- While the flag is up, the call at which the signal comes is not over.
      abbrev IsEarly : Running S → Type 0
      IsEarly r = r.viewer.running ≡ true → length r.calls ≤ k

      call-IsEarly : (m : Method) (r : Running S) → IsEarly r → IsEarly (call d signals m r).1
      call-IsEarly m r early up =
          let t = signals (length r.calls) in
          let c = d m (is_during t) r.viewer.stats r.viewer.running r.members in
          let (left, when) = flag_after-up t c.running up in
          let (met, missed) =
            keeps m (is_during t) r.viewer.stats r.viewer.running r.members left in
          let now : t ≡ quiet = elim when [ inl hit ↦ cc | inr calm ↦ calm ] in
          let before : length r.calls ≢ k = λ e. signal (ap signals (sym e) ∙ now) in
          omega (arith, before, early met, length-append {0} r.calls ((m, c.value) ∷ []))

      body-IsEarly : (r : Running S) → IsEarly r → IsEarly (body d signals r).1
      body-IsEarly r early =
          let (got, r1) = call d signals receive_frame r in
          let early1 = call-IsEarly receive_frame r early in
          let (is_valid, r2) = call d signals validate_frame (count r1) in
          let early2 = call-IsEarly validate_frame (count r1) early1 in
          let r3 = (call d signals check_sequence r2).1 in
          let early3 = call-IsEarly check_sequence r2 early2 in
          let early4 = call-IsEarly display_frame r3 early3 in
          let r4 = (call d signals display_frame r3).1 in
          let early5 = call-IsEarly frame_delay r4 early4 in
          leave_round-keeps IsEarly got is_valid r1 r2 (call d signals frame_delay r4).1 early1
            early2 early5

      -- The loop ends, after these calls.
      abbrev Ended : Running S → Option (Running S) → Type ℓ
      Ended r o =
          (r' : Running S) × (cs : List (Method × Bool)) × (o ≡ some r')
          × (r'.calls ≡ r.calls ++ cs)
          × Rounds cs
          × (length r'.calls ≤ k + 5)

      round-Ended :
          (running goes_on : Bool) (r r1 : Running S) (rest : Option (Running S))
          → Made goes_on r r1
          → length r.calls ≤ k + 5
          → (running ≡ true → length r.calls ≤ k)
          → (running ≡ true → goes_on ≡ true → Ended r1 rest)
          → Ended r (if not running then some r else if goes_on then rest else some r1)
      round-Ended false goes_on r r1 rest made few early later =
          (r, [], refl, sym (append-nil r.calls), stopped, few)
      round-Ended true false r r1 rest (first, made, round) few early later =
          let (some_call, short) = Round-length round in
          (
            r1,
            first,
            refl,
            made,
            ended round,
            omega (arith, ap length made, length-append {0} r.calls first, early refl),
          )
      round-Ended true true r r1 rest (first, made, round) few early later =
          let (r', cs, ends, same, rounds, bound) = later refl refl in
          (
            r',
            first ++ cs,
            ends,
            same ∙ ap (λ before. before ++ cs) made ∙ append_assoc r.calls first cs,
            next round rounds,
            bound,
          )

      loop-Ended :
          (fuel : ℕ) (r : Running S)
          → 1 ≤ fuel
          → k + 2 ≤ fuel + length r.calls
          → IsEarly r
          → length r.calls ≤ k + 5
          → Ended r (loop d signals fuel r)
      unfolding loop
      loop-Ended zero r positive enough early few = absurd (omega arith)
      loop-Ended (suc fuel) r positive enough early few =
          let (goes_on, r1) = body d signals r in
          let (first, made, round) = body-Made r in
          let (some_call, short) = Round-length round in
          let grown : length r1.calls ≡ length r.calls + length first =
            ap length made ∙ length-append {0} r.calls first in
          round-Ended r.viewer.running goes_on r r1 (loop d signals fuel r1) (body-Made r) few early
            (λ up on.
              loop-Ended fuel r1 (omega (arith, early up)) (omega arith) (body-IsEarly r early)
                (omega (arith, early up)))

      pub loop-ends :
          (v : Viewer) (s : S) → Ended (start_view v s) (loop d signals (k + 2) (start_view v s))
      loop-ends v s =
          loop-Ended (k + 2) (start_view v s) (omega arith) (omega arith) (λ up. omega arith)
            (omega arith)

      -- For every derived class that never raises the flag, whatever its methods return, print and
      -- store: when a signal comes at call k of them, if that many are made, `run_viewer` returns;
      -- the calls that it made are rounds, in which a frame is displayed exactly if it was received
      -- and valid, up to a receive_frame that failed if there is one, and then one of print_stats;
      -- and there are at most k + 6 of them.
      pub run_viewer-ends :
          (v : Viewer) (s : S)
          → (w : Running S) × (cs : List (Method × Bool)) × (value : Bool) × (run_viewer d signals
                (k + 2)
                v
                s
              ≡ some w)
            × (w.calls ≡ cs ++ ((print_stats, value) ∷ []))
            × Rounds cs
            × (length w.calls ≤ k + 6)
      unfolding run_viewer
      run_viewer-ends v s =
          let (r, cs, ends, same, rounds, few) = loop-ends v s in
          let (value, w) = call d signals print_stats (show_again r) in
          (
            w,
            cs,
            value,
            ap (finish d signals) ends,
            ap (λ before. before ++ ((print_stats, value) ∷ [])) same,
            rounds,
            omega (arith, length-append {0} r.calls ((print_stats, value) ∷ [])),
          )
