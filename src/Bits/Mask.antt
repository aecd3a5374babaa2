-- ===== src/Bits/Mask.antt =====
-- A mask of low ones is a remainder, and `|` of disjoint fields is a sum, at every width.
use native.Mathlib.Nat.{two-pow-succ, one-le-pow, div-add-mod, mul-add-mod_self_left, mod-lt}
use native.Mathlib.Nat.{mod-eq_of_lt}
use phantomfpga_project.Base.{ℕ, zero, suc, ◌+◌, ◌-◌, ◌*◌, ◌/◌, ◌%◌, ◌^◌, ◌≤◌, ◌<◌}
use phantomfpga_project.Base.{bit_and, bit_or, ◌≡◌, refl, ap, ◌∙◌, arith}
use phantomfpga_project.Bits.Digit.{bit_and_digit, bit_or_digit}

-- The remainder is determined by being below the divisor.
pub mod-eq_of_fields : (n q r : ℕ) → r < n → (n * q + r) % n ≡ r
mod-eq_of_fields n q r h = mul-add-mod_self_left n q r ∙ mod-eq_of_lt h

below_induction :
    (P : ℕ → Type 0) → ((n : ℕ) → P (suc n / 2) → P (suc n)) → P 0 → (f n : ℕ) → n ≤ f → P n
below_induction P step base f zero h = base
below_induction P step base zero (suc n) h = absurd (omega arith)
below_induction P step base (suc f) (suc n) h =
    step n (below_induction P step base f (suc n / 2) (omega arith))

-- Induction from the number without its lowest digit.
pub digit_induction : (P : ℕ → Type 0) → ((n : ℕ) → P (suc n / 2) → P (suc n)) → P 0 → (n : ℕ) → P n
digit_induction P step base n = below_induction P step base n n (omega arith)

pub bit_and-zero : (a : ℕ) → bit_and a 0 ≡ 0
bit_and-zero =
    digit_induction (λ a. bit_and a 0 ≡ 0) (λ n ih. omega (arith, bit_and_digit (suc n) 0)) refl

pub bit_or-zero : (a : ℕ) → bit_or a 0 ≡ a
bit_or-zero =
    digit_induction (λ a. bit_or a 0 ≡ a) (λ n ih. omega (arith, bit_or_digit (suc n) 0)) refl

double_remainder : (p a : ℕ) → 0 < p → a % (p + p) ≡ a / 2 % p * 2 + a % 2
double_remainder p a pos =
    ap (λ x. x % (p + p)) (omega (arith, div-add-mod (a / 2) p))
    ∙ mod-eq_of_fields (p + p) (a / 2 / p) (a / 2 % p * 2 + a % 2)
        (omega (arith, mod-lt (a / 2) pos))

low_ones_double :
    (p a : ℕ) → 0 < p → bit_and (a / 2) (p - 1) ≡ a / 2 % p → bit_and a (p + p - 1) ≡ a % (p + p)
low_ones_double p a pos ih =
    let half : (p + p - 1) / 2 ≡ p - 1 = omega arith in
    bit_and_digit a (p + p - 1) ∙ rw (half, ih) (omega (arith, double_remainder p a pos))

-- `a & (2^k - 1)` is `a % 2^k`.
pub bit_and-low_ones : (k a : ℕ) → bit_and a (2 ^ k - 1) ≡ a % 2 ^ k
bit_and-low_ones zero a = rw bit_and-zero (omega arith)
bit_and-low_ones (suc k) a =
    rw two-pow-succ
      (low_ones_double (2 ^ k) a (one-le-pow k 2 (omega arith)) (bit_and-low_ones k (a / 2)))

or_fields_double :
    (p q r : ℕ) → bit_or (q * p) (r / 2) ≡ q * p + r / 2 → bit_or (q * (p + p)) r ≡ q * (p + p) + r
or_fields_double p q r ih =
    let half : q * (p + p) / 2 ≡ q * p = omega arith in
    bit_or_digit (q * (p + p)) r ∙ rw (half, ih) (omega arith)

-- `q * 2^k | r` is a sum when `r` has at most k digits.
pub bit_or-fields : (k q r : ℕ) → r < 2 ^ k → bit_or (q * 2 ^ k) r ≡ q * 2 ^ k + r
bit_or-fields zero q r h = let e : r ≡ 0 = omega arith in rw (e, bit_or-zero) (omega arith)
bit_or-fields (suc k) q r h =
    rw two-pow-succ
      (or_fields_double (2 ^ k) q r (bit_or-fields k q (r / 2) (omega (arith, two-pow-succ k))))
