-- ===== src/App/Handles/Store.antt =====
-- Programs over several handles, named by their places, so that two names may mean one handle.
use phantomfpga_project.Base.{ℕ, zero, suc, ◌+◌, ◌<◌, Bool, false, ◌≡◌, refl, sym, ap, arith}
use phantomfpga_project.Base.{
  List, [], ◌∷◌, ◌++◌, length, get_or, set, replicate, ltb, ◌==◌, ==_iff,
}
use phantomfpga_project.Base.{if◌then◌else◌, Bool-cases, inl, inr}
use phantomfpga_project.Posix.{Resource, Event, Leads, Leads-append}
use phantomfpga_project.App.Handles.Wrapper.{Wrapper}

module _ (W : Wrapper) where
  open W use {Handle, empty, destroy, assign, owned, obtain}

  -- `h_i = Handle(answer of the kernel)`, and `h_i = std::move(h_j)`.
  pub data Op : Type 0 where
    put : ℕ → Handle → Op
    move : ℕ → ℕ → Op

  abbrev at : List Handle → ℕ → Handle
  at hs i = get_or hs i empty

  abbrev in_range : List Handle → Op → Bool
  in_range hs (put i h) = ltb i (length hs)
  in_range hs (move i j) = if ltb i (length hs) then ltb j (length hs) else false

  -- The handle that is put is a temporary, assigned and destroyed.
  abbrev put_at : List Handle → ℕ → Handle → List Handle × List Event
  put_at hs i h =
      let (this, other, events) = assign false (at hs i) h in
      (set hs i this, obtain h ++ (events ++ destroy other))

  abbrev move_at : List Handle → ℕ → ℕ → List Handle × List Event
  move_at hs i j =
      let (this, other, events) = assign (i == j) (at hs i) (at hs j) in
      (set (set hs j other) i this, events)

  abbrev do_op : List Handle → Op → List Handle × List Event
  do_op hs (put i h) = put_at hs i h
  do_op hs (move i j) = move_at hs i j

  -- An operation on a handle that is not there does nothing.
  abbrev step : List Handle → Op → List Handle × List Event
  step hs op = if in_range hs op then do_op hs op else (hs, [])

  -- The end of the scope.
  abbrev destroy_all : List Handle → List Event
  destroy_all [] = []
  destroy_all (h ∷ hs) = destroy h ++ destroy_all hs

  unfoldable pub scope : List Op → List Handle → List Event
  scope [] hs = destroy_all hs
  scope (op ∷ ops) hs = let (hs', events) = step hs op in events ++ scope ops hs'

  abbrev total : Resource → List Handle → ℕ
  total r [] = 0
  total r (h ∷ hs) = owned r h + total r hs

  total-replicate : (r : Resource) (n : ℕ) → total r (replicate n empty) ≡ 0
  total-replicate r zero = refl
  total-replicate r (suc n) = omega (arith, total-replicate r n, W.owned-empty r)

  total-set :
      (r : Resource) (hs : List Handle) (i : ℕ) (h : Handle)
      → i < length hs
      → total r (set hs i h) + owned r (at hs i) ≡ total r hs + owned r h
  total-set r [] i h lt = absurd (omega arith)
  total-set r (g ∷ hs) zero h lt = omega arith
  total-set r (g ∷ hs) (suc i) h lt = omega (arith, total-set r hs i h (omega arith))

  length-set : (hs : List Handle) (i : ℕ) (h : Handle) → length (set hs i h) ≡ length hs
  length-set [] i h = refl
  length-set (g ∷ hs) zero h = refl
  length-set (g ∷ hs) (suc i) h = omega (arith, length-set hs i h)

  at-set_other :
      (hs : List Handle) (i j : ℕ) (h : Handle) → (i == j) ≡ false → at (set hs j h) i ≡ at hs i
  at-set_other [] i j h ne = refl
  at-set_other (g ∷ hs) zero zero h ne = cc
  at-set_other (g ∷ hs) zero (suc j) h ne = refl
  at-set_other (g ∷ hs) (suc i) zero h ne = refl
  at-set_other (g ∷ hs) (suc i) (suc j) h ne = at-set_other hs i j h (ground arith)

  set_self : (hs : List Handle) (i : ℕ) → set hs i (at hs i) ≡ hs
  set_self [] i = refl
  set_self (g ∷ hs) zero = refl
  set_self (g ∷ hs) (suc i) = ap (λ rest. g ∷ rest) (set_self hs i)

  destroy_all-Leads : (r : Resource) (hs : List Handle) → Leads r (destroy_all hs) (total r hs) 0
  destroy_all-Leads r [] = refl
  destroy_all-Leads r (h ∷ hs) =
      Leads-append r (destroy h) (destroy_all hs) (total r (h ∷ hs)) (total r hs) 0
        (W.destroy-Leads r h (total r hs)) (destroy_all-Leads r hs)

  destroy-Leads_to :
      (r : Resource) (h : Handle) (n m : ℕ) → n ≡ owned r h + m → Leads r (destroy h) n m
  destroy-Leads_to r h n m e = rw e (W.destroy-Leads r h m)

  put_at-Leads :
      (r : Resource) (hs : List Handle) (i : ℕ) (h : Handle)
      → i < length hs
      → Leads r (put_at hs i h).1 (total r hs) (total r (put_at hs i h).0)
  put_at-Leads r hs i h lt =
      let after = total r (set hs i h) in
      rw (W.assign-other (at hs i) h) (
        Leads-append r (obtain h) (destroy (at hs i) ++ destroy empty) (total r hs)
          (owned r h + total r hs) after (W.obtain-Leads r h (total r hs))
          (Leads-append r (destroy (at hs i)) (destroy empty) (owned r h + total r hs) after after
            (destroy-Leads_to r (at hs i) (owned r h + total r hs) after
              (omega (arith, total-set r hs i h lt)))
            (destroy-Leads_to r empty after after (omega (arith, W.owned-empty r)))))

  move_at-Leads_self :
      (r : Resource) (hs : List Handle) (i : ℕ)
      → Leads r (move_at hs i i).1 (total r hs) (total r (move_at hs i i).0)
  move_at-Leads_self r hs i =
      rw ((==_iff i i).1 refl, W.assign-self (at hs i), set_self hs i, set_self hs i)

  total-move :
      (r : Resource) (hs : List Handle) (i j : ℕ)
      → i < length hs
      → j < length hs
      → (i == j) ≡ false
      → total r hs ≡ owned r (at hs i) + total r (set (set hs j empty) i (at hs j))
  total-move r hs i j lt lt' other = omega (
    arith,
    total-set r (set hs j empty) i (at hs j) (rw (length-set hs j empty) lt),
    total-set r hs j empty lt',
    ap (owned r) (at-set_other hs i j empty other),
    W.owned-empty r,
  )

  move_at-Leads :
      (r : Resource) (hs : List Handle) (i j : ℕ)
      → i < length hs
      → j < length hs
      → Leads r (move_at hs i j).1 (total r hs) (total r (move_at hs i j).0)
  move_at-Leads r hs i j lt lt' = elim (Bool-cases (i == j)) [
    | inl same ↦ rw (← (==_iff i j).0 same) (move_at-Leads_self r hs i)
    | inr other ↦
        rw (other, W.assign-other (at hs i) (at hs j))
          (destroy-Leads_to r (at hs i) (total r hs) (total r (set (set hs j empty) i (at hs j)))
            (total-move r hs i j lt lt' other))
  ]

  step-Leads :
      (r : Resource) (hs : List Handle) (op : Op)
      → Leads r (step hs op).1 (total r hs) (total r (step hs op).0)
  step-Leads r hs (put i h) = elim (Bool-cases (in_range hs (put i h))) [
    | inl within ↦ rw within (put_at-Leads r hs i h (ground arith))
    | inr beyond ↦ rw beyond
  ]
  step-Leads r hs (move i j) = elim (Bool-cases (in_range hs (move i j))) [
    | inl within ↦ rw within (move_at-Leads r hs i j (ground arith) (ground arith))
    | inr beyond ↦ rw beyond
  ]

  scope-Leads :
      (r : Resource) (ops : List Op) (hs : List Handle) → Leads r (scope ops hs) (total r hs) 0
  unfolding scope
  scope-Leads r [] hs = destroy_all-Leads r hs
  scope-Leads r (op ∷ ops) hs =
      Leads-append r (step hs op).1 (scope ops (step hs op).0) (total r hs) (total r (step hs op).0)
        0 (step-Leads r hs op) (scope-Leads r ops (step hs op).0)

  scope-Leads_from :
      (r : Resource) (ops : List Op) (hs : List Handle) (n : ℕ)
      → n ≡ total r hs
      → Leads r (scope ops hs) n 0
  scope-Leads_from r ops hs n e = rw e (scope-Leads r ops hs)

  -- For every resource: in a scope of any number of handles, empty at first, and any sequence of
  -- new handles and move assignments, those of a handle to itself included, what is obtained is
  -- given back exactly once by the end of the scope, and nothing is given back that is not held.
  pub scope-Released :
      (r : Resource) (n : ℕ) (ops : List Op) → Leads r (scope ops (replicate n empty)) 0 0
  scope-Released r n ops = scope-Leads_from r ops (replicate n empty) 0 (sym (total-replicate r n))
