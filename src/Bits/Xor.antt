-- ===== src/Bits/Xor.antt =====
-- Exclusive or: a commutative group in which every element is its own inverse; it commutes with
-- a shift right, and adds fields that do not meet.
use Prim.Native.Nat.{bit_xor-bitwise}
use native.Mathlib.Nat.{two-pow-succ}
use phantomfpga_project.Base.{ℕ, zero, suc, ◌+◌, ◌*◌, ◌/◌, ◌%◌, ◌^◌, ◌<◌}
use phantomfpga_project.Base.{bit_xor, ◌≡◌, refl, ap, sym, ◌∙◌, arith}
use phantomfpga_project.Bits.Digit.{bit_xor_digit}
use phantomfpga_project.Bits.Mask.{digit_induction}

pub half-bit_xor : (a b : ℕ) → bit_xor a b / 2 ≡ bit_xor (a / 2) (b / 2)
half-bit_xor a b = omega (arith, bit_xor_digit a b)

pub parity-bit_xor : (a b : ℕ) → bit_xor a b % 2 ≡ (a % 2 + b % 2) % 2
parity-bit_xor a b = omega (arith, bit_xor_digit a b)

pub zero-bit_xor : (b : ℕ) → bit_xor 0 b ≡ b
zero-bit_xor b = bit_xor-bitwise 0 b

pub bit_xor-zero : (a : ℕ) → bit_xor a 0 ≡ a
bit_xor-zero =
    digit_induction (λ a. bit_xor a 0 ≡ a) (λ n ih. omega (arith, bit_xor_digit (suc n) 0)) refl

pub bit_xor_self : (a : ℕ) → bit_xor a a ≡ 0
bit_xor_self =
    digit_induction (λ a. bit_xor a a ≡ 0) (λ n ih. omega (arith, bit_xor_digit (suc n) (suc n)))
      refl

pub bit_xor_comm : (a b : ℕ) → bit_xor a b ≡ bit_xor b a
bit_xor_comm =
    digit_induction (λ a. (b : ℕ) → bit_xor a b ≡ bit_xor b a)
      (λ n ih b. omega (arith, bit_xor_digit (suc n) b, bit_xor_digit b (suc n), ih (b / 2)))
      (λ b. zero-bit_xor b ∙ sym (bit_xor-zero b))

pub bit_xor_assoc : (a b c : ℕ) → bit_xor (bit_xor a b) c ≡ bit_xor a (bit_xor b c)
bit_xor_assoc =
    digit_induction (λ a. (b c : ℕ) → bit_xor (bit_xor a b) c ≡ bit_xor a (bit_xor b c))
      (λ n ih b c. step n b c (ih (b / 2) (c / 2)))
      (λ b c. rw (zero-bit_xor b, zero-bit_xor (bit_xor b c)))
  where
    step :
        (n b c : ℕ)
        → bit_xor (bit_xor (suc n / 2) (b / 2)) (c / 2)
          ≡ bit_xor (suc n / 2) (bit_xor (b / 2) (c / 2))
        → bit_xor (bit_xor (suc n) b) c ≡ bit_xor (suc n) (bit_xor b c)
    step n b c ih =
        bit_xor_digit (bit_xor (suc n) b) c
        ∙ rw (half-bit_xor, parity-bit_xor, ih)
            (sym (
              bit_xor_digit (suc n) (bit_xor b c)
              ∙ rw (half-bit_xor b c, parity-bit_xor b c) (omega arith)))

pub bit_xor_cancel : (a b : ℕ) → bit_xor a (bit_xor a b) ≡ b
bit_xor_cancel a b = rw (← bit_xor_assoc, bit_xor_self, zero-bit_xor)

pub bit_xor_left_comm : (a b c : ℕ) → bit_xor a (bit_xor b c) ≡ bit_xor b (bit_xor a c)
bit_xor_left_comm a b c =
    sym (bit_xor_assoc a b c) ∙ ap (λ x. bit_xor x c) (bit_xor_comm a b) ∙ bit_xor_assoc b a c

-- Numbers of at most k digits stay so.
pub bit_xor-lt : (k a b : ℕ) → a < 2 ^ k → b < 2 ^ k → bit_xor a b < 2 ^ k
bit_xor-lt zero a b h g =
    let e : a ≡ 0 = omega arith in let f : b ≡ 0 = omega arith in rw (e, f) (omega arith)
bit_xor-lt (suc k) a b h g = omega (
  arith,
  two-pow-succ k,
  bit_xor_digit a b,
  bit_xor-lt k (a / 2) (b / 2) (omega (arith, two-pow-succ k)) (omega (arith, two-pow-succ k)),
)

xor_fields_double :
    (p q r : ℕ)
    → bit_xor (q * p) (r / 2) ≡ q * p + r / 2
    → bit_xor (q * (p + p)) r ≡ q * (p + p) + r
xor_fields_double p q r ih =
    let half : q * (p + p) / 2 ≡ q * p = omega arith in
    bit_xor_digit (q * (p + p)) r ∙ rw (half, ih) (omega arith)

-- `q * 2^k ^ r` is a sum when `r` has at most k digits.
pub bit_xor-fields : (k q r : ℕ) → r < 2 ^ k → bit_xor (q * 2 ^ k) r ≡ q * 2 ^ k + r
bit_xor-fields zero q r h = let e : r ≡ 0 = omega arith in rw (e, bit_xor-zero) (omega arith)
bit_xor-fields (suc k) q r h =
    rw two-pow-succ
      (xor_fields_double (2 ^ k) q r (bit_xor-fields k q (r / 2) (omega (arith, two-pow-succ k))))
