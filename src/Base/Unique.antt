-- ===== src/Base/Unique.antt =====
-- Lists of numbers without repetition, and a number taken out of one.
use Prim.Native.Nat.{ℕ, zero, suc, ◌<◌, ◌≤◌}
use mathlib.Core.Path.{◌≡◌, refl, sym, ap, subst}
use mathlib.Core.Logic.{◌≢◌}
use mathlib.Core.List.{List, [], ◌∷◌, ◌++◌}
use native.Mathlib.Omega.{arith}
use native.Mathlib.Decide.{ℕ_discrete}
use phantomfpga_project.Base.Lists.{length}

-- The number is not in the list.
abbrev pub Lacks : ℕ → List ℕ → Type 0
Lacks n [] = Unit
Lacks n (x ∷ xs) = (x ≢ n) × Lacks n xs

abbrev pub Distinct : List ℕ → Type 0
Distinct [] = Unit
Distinct (x ∷ xs) = Lacks x xs × Distinct xs

-- Every number of the list is below a bound.
abbrev pub Below : ℕ → List ℕ → Type 0
Below n [] = Unit
Below n (x ∷ xs) = (x < n) × Below n xs

abbrev keep_unless : {n : ℕ} (x : ℕ) → Dec (x ≡ n) → List ℕ → List ℕ → List ℕ
keep_unless x (yes same) xs rest = xs
keep_unless x (no differ) xs rest = x ∷ rest

-- The first entry that is the number, left out.
abbrev pub erase : ℕ → List ℕ → List ℕ
erase n [] = []
erase n (x ∷ xs) = keep_unless x (ℕ_discrete x n) xs (erase n xs)

module _ {ℓ} (P : List ℕ → Type ℓ) (x n : ℕ) (xs rest : List ℕ) (on_same : x ≡ n → P xs)
    (on_other : x ≢ n → P (x ∷ rest)) where
  keep_unless-holds : (d : Dec (x ≡ n)) → P (keep_unless x d xs rest)
  keep_unless-holds (yes same) = on_same same
  keep_unless-holds (no differ) = on_other differ

pub erase-head : (n : ℕ) (xs : List ℕ) → erase n (n ∷ xs) ≡ xs
erase-head n xs =
    keep_unless-holds (λ l. l ≡ xs) n n xs (erase n xs) (λ same. refl)
      (λ differ. absurd (differ refl)) (ℕ_discrete n n)

Lacks-middle : (n : ℕ) (xs ys : List ℕ) (y : ℕ) → Lacks n (xs ++ y ∷ ys) → y ≢ n
Lacks-middle n [] ys y h = h.0
Lacks-middle n (x ∷ xs) ys y h = Lacks-middle n xs ys y h.1

-- In a list without repetition the number is where it was put.
pub erase-middle :
    (xs ys : List ℕ) (n : ℕ) → Distinct (xs ++ n ∷ ys) → erase n (xs ++ n ∷ ys) ≡ xs ++ ys
erase-middle [] ys n h = erase-head n ys
erase-middle (x ∷ xs) ys n h =
    keep_unless-holds (λ l. l ≡ x ∷ (xs ++ ys)) x n (xs ++ n ∷ ys) (erase n (xs ++ n ∷ ys))
      (λ same. absurd (Lacks-middle x xs ys n h.0 (sym same)))
      (λ differ. ap (λ l. x ∷ l) (erase-middle xs ys n h.1)) (ℕ_discrete x n)

module _ (n : ℕ) where
  Lacks-erase : (m : ℕ) (xs : List ℕ) → Lacks m xs → Lacks m (erase n xs)
  Lacks-erase m [] h = tt
  Lacks-erase m (x ∷ xs) h =
      keep_unless-holds (Lacks m) x n xs (erase n xs) (λ same. h.1)
        (λ differ. (h.0, Lacks-erase m xs h.1)) (ℕ_discrete x n)

  pub Distinct-erase : (xs : List ℕ) → Distinct xs → Distinct (erase n xs)
  Distinct-erase [] h = tt
  Distinct-erase (x ∷ xs) h =
      keep_unless-holds Distinct x n xs (erase n xs) (λ same. h.1)
        (λ differ. (Lacks-erase x xs h.0, Distinct-erase xs h.1)) (ℕ_discrete x n)

  pub Below-erase : (bound : ℕ) (xs : List ℕ) → Below bound xs → Below bound (erase n xs)
  Below-erase bound [] h = tt
  Below-erase bound (x ∷ xs) h =
      keep_unless-holds (Below bound) x n xs (erase n xs) (λ same. h.1)
        (λ differ. (h.0, Below-erase bound xs h.1)) (ℕ_discrete x n)

  Below-Lacks : (xs : List ℕ) → Below (suc n) xs → Lacks n xs → Below n xs
  Below-Lacks [] below lacks = tt
  Below-Lacks (x ∷ xs) below lacks = (omega arith, Below-Lacks xs below.1 lacks.1)

  -- Without its largest number, a list of different numbers is one shorter at most.
  Below-largest : (xs : List ℕ) → Distinct xs → Below (suc n) xs → Below n (erase n xs)
  Below-largest [] distinct below = tt
  Below-largest (x ∷ xs) distinct below =
      keep_unless-holds (Below n) x n xs (erase n xs)
        (λ same. Below-Lacks xs below.1 (subst (λ y. Lacks y xs) same distinct.0))
        (λ differ. (omega arith, Below-largest xs distinct.1 below.1)) (ℕ_discrete x n)

  length-erase : (xs : List ℕ) → length xs ≤ suc (length (erase n xs))
  length-erase [] = omega arith
  length-erase (x ∷ xs) =
      keep_unless-holds (λ l. suc (length xs) ≤ suc (length l)) x n xs (erase n xs)
        (λ same. omega arith) (λ differ. omega (arith, length-erase xs)) (ℕ_discrete x n)

-- Different numbers below n are at most n in number.
pub length-Below : (n : ℕ) (xs : List ℕ) → Distinct xs → Below n xs → length xs ≤ n
length-Below n [] distinct below = omega arith
length-Below zero (x ∷ xs) distinct below = absurd (omega arith)
length-Below (suc n) (x ∷ xs) distinct below =
    let rest =
      length-Below n (erase n (x ∷ xs)) (Distinct-erase n (x ∷ xs) distinct)
        (Below-largest n (x ∷ xs) distinct below) in
    omega (arith, rest, length-erase n (x ∷ xs))
