-- ===== src/App/Run/Impl/Loop.antt =====
-- `main_loop` against the clock: the loop looks at the flag, makes a round and sleeps, and a signal
-- may arrive in any round.
use phantomfpga_project.Base.{
  ℕ, zero, suc, ◌+◌, ◌≤◌, ℤ, pos, Bool, true, false, ◌≡◌, refl, ap, ◌∙◌, arith,
}
use phantomfpga_project.Base.{
  List, [], ◌∷◌, Option, none, some, if◌then◌else◌, Bool-cases, inl, inr,
}
use phantomfpga_project.Posix.{Event}
use phantomfpga_project.App.Run.{App, Answer}
use phantomfpga_project.App.Run.Impl.{accept_round, accept_loop, then_loop}

-- The handler's effect on the object, if a signal came: `instance_` points to it by then.
abbrev signalled : Bool → App → App
signalled true a = record a { running = false }
signalled false a = a

abbrev later : List Event → Option Answer → Option Answer
later events none = none
later events (some o) = some (then_loop events o)

-- What accept(2) has ready in the next rounds.
abbrev pub rounds : (ℕ → ℤ) → (count n : ℕ) → List ℤ
rounds ready zero n = []
rounds ready (suc count) n = ready n ∷ rounds ready count (suc n)

-- From round n on: what accept(2) has ready in each round, and whether a signal comes in it.
-- `none` when the fuel is gone.
module _ (ready : ℕ → ℤ) (signals : ℕ → Bool) where
  unfoldable pub main_loop : (fuel n : ℕ) → App → Option Answer
  main_loop zero n a = none
  main_loop (suc fuel) n a =
      let (a', events) = accept_round (ready n) a in
      let rest = main_loop fuel (suc n) (signalled (signals n) a') in
      if a.running then later events rest else some (record { ret = pos 0; app = a; events = [] })

  main_loop-down :
      (fuel n : ℕ) (a : App)
      → a.running ≡ false
      → main_loop (suc fuel) n a ≡ some (record { ret = pos 0; app = a; events = [] })
  unfolding main_loop
  main_loop-down fuel n a down = rw down refl

  main_loop-up :
      (fuel n : ℕ) (a : App)
      → a.running ≡ true
      → let (a', events) = accept_round (ready n) a in
        main_loop (suc fuel) n a ≡ later events (main_loop fuel (suc n) (signalled (signals n) a'))
  unfolding main_loop
  main_loop-up fuel n a up = rw up refl

  -- A round in which the signal comes is the last one.
  last_round :
      (fuel n : ℕ) (a : App)
      → a.running ≡ true
      → signals n ≡ true
      → main_loop (suc (suc fuel)) n a ≡ some (accept_loop (ready n ∷ []) a)
  unfolding accept_loop
  last_round fuel n a up signal =
      let (a', events) = accept_round (ready n) a in
      main_loop-up (suc fuel) n a up
      ∙ ap (λ b. later events (main_loop (suc fuel) (suc n) (signalled b a'))) signal
      ∙ ap (later events) (main_loop-down fuel (suc n) (record a' { running = false }) refl)

  abbrev Ends : (k n : ℕ) → App → Type 0
  Ends k n a =
      (j : ℕ) × (j ≤ k)
      × (signals (n + j) ≡ true)
      × (main_loop (suc (suc k)) n a ≡ some (accept_loop (rounds ready (suc j) n) a))

  next_round :
      (k n : ℕ) (a : App)
      → a.running ≡ true
      → signals n ≡ false
      → Ends k (suc n) (accept_round (ready n) a).0
      → Ends (suc k) n a
  unfolding accept_loop
  next_round k n a up quiet (j, le, signal, rest) =
      let (a', events) = accept_round (ready n) a in
      (
        suc j,
        omega arith,
        ap signals (omega arith) ∙ signal,
        main_loop-up (suc (suc k)) n a up
            ∙ ap (λ b. later events (main_loop (suc (suc k)) (suc n) (signalled b a'))) quiet
            ∙ ap (later events) rest,
      )

  loop_from : (k n : ℕ) (a : App) → a.running ≡ true → signals (n + k) ≡ true → Ends k n a
  loop_from zero n a up signal =
      (0, omega arith, signal, last_round 0 n a up (ap signals (omega arith) ∙ signal))
  loop_from (suc k) n a up signal = elim (Bool-cases (signals n)) [
    | inl now ↦ (0, omega arith, ap signals (omega arith) ∙ now, last_round (suc k) n a up now)
    | inr quiet ↦
        next_round k n a up quiet
          (loop_from k (suc n) (accept_round (ready n) a).0 up (ap signals (omega arith) ∙ signal))
  ]

  -- Whatever accept(2) has ready in each round: when the loop is entered with the flag up and a
  -- signal comes in some round k, `main_loop` returns at the test after a round j, at most k, in
  -- which a signal came, with the answer of `accept_loop` on what was ready in rounds 0 to j.
  pub main_loop-ends :
      (k : ℕ) (a : App)
      → a.running ≡ true
      → signals k ≡ true
      → (j : ℕ) × (j ≤ k)
        × (signals j ≡ true)
        × (main_loop (suc (suc k)) 0 a ≡ some (accept_loop (rounds ready (suc j) 0) a))
  main_loop-ends k a up signal =
      let (j, le, at_j, ends) = loop_from k 0 a up (ap signals (omega arith) ∙ signal) in
      (j, le, ap signals (omega arith) ∙ at_j, ends)
