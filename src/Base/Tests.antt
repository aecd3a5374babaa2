-- ===== src/Base/Tests.antt =====
-- Boolean tests on the native numbers, the conditional of C, and evaluation over a finite range.
use Prim.Native.Nat.{ℕ, zero, suc, ◌≤◌, compare, Ordering}
use mathlib.Core.Path.{◌≡◌, refl}
use mathlib.Core.Logic.{◌↔◌, ◌⊎◌, inl, inr}
use mathlib.Core.Bool.{Bool, true, false, ◌&&◌}
use native.Mathlib.Omega.{arith}
use native.Mathlib.Decide.{dec_le}

-- These compute to `compare`, which `ground` and `grind` read with no lemma listed.
abbrev pub ltb : ℕ → ℕ → Bool
ltb a b = elim (compare a b) [ Ordering.lt ↦ true | _ ↦ false ]

infix 50 ◌==◌
abbrev pub ◌==◌ : ℕ → ℕ → Bool
a == b = elim (compare a b) [ Ordering.eq ↦ true | _ ↦ false ]

infix 1 if◌then◌else◌
abbrev pub if◌then◌else◌ {ℓ} : {A : Type ℓ} → Bool → A → A → A
if true then x else y = x
if false then x else y = y

pub ==_iff : (a b : ℕ) → ((a == b) ≡ true) ↔ (a ≡ b)
==_iff a b = ground arith

-- To split on a computed value and keep the equation.
pub Bool-cases : (b : Bool) → (b ≡ true) ⊎ (b ≡ false)
Bool-cases true = inl refl
Bool-cases false = inr refl

-- Whether a test holds at every number from 0 up to a last one.
unfoldable pub up_to : (ℕ → Bool) → ℕ → Bool
up_to test zero = test zero
up_to test (suc last) = up_to test last && test (suc last)

pub up_to_lem :
    (test : ℕ → Bool) (last : ℕ) → up_to test last ≡ true → (n : ℕ) → n ≤ last → test n ≡ true
unfolding up_to
up_to_lem test zero passed n le = let e : n ≡ 0 = omega arith in rw e passed
up_to_lem test (suc last) passed n le = elim (dec_le n last) [
  | yes h ↦ up_to_lem test last (ground arith) n h
  | no h ↦ let e : n ≡ suc last = omega arith in rw e (ground arith)
]
