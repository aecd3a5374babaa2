-- ===== src/Crc/Linear.antt =====
-- The shift register is linear over exclusive or, which lets a table of bytes replace eight rounds.
use mathlib.Core.Path.{ap₂}
use native.Mathlib.Nat.{two-pow-succ, pow-succ', div-one, div-div-eq-div-mul}
use phantomfpga_project.Base.{ℕ, zero, suc, ◌+◌, ◌*◌, ◌/◌, ◌%◌, ◌^◌, ◌<◌, bit_xor}
use phantomfpga_project.Base.{◌≡◌, ◌⊎◌, inl, inr, refl, ap, sym, ◌∙◌, arith, get_or}
use phantomfpga_project.Bits.Mask.{bit_and-low_ones}
use phantomfpga_project.Bits.Xor.{
  half-bit_xor, parity-bit_xor, bit_xor-zero, bit_xor_comm, bit_xor_assoc, bit_xor_cancel,
  bit_xor-fields,
}
use phantomfpga_project.Crc.{
  polynomial, crc_bit, crc_bits, table_from, build_crc32_table, crc_update,
}

-- The round by the lowest digit.
pub crc_bit_even : (a : ℕ) → a % 2 ≡ 0 → crc_bit a ≡ a / 2
unfolding crc_bit
crc_bit_even a h = ground (arith, bit_and-low_ones 1 a)

pub crc_bit_odd : (a : ℕ) → a % 2 ≡ 1 → crc_bit a ≡ bit_xor (a / 2) polynomial
unfolding crc_bit
crc_bit_odd a h = ground (arith, bit_and-low_ones 1 a)

pub parity : (a : ℕ) → (a % 2 ≡ 0) ⊎ (a % 2 ≡ 1)
parity a = omega arith

cancel_both : (x y p : ℕ) → bit_xor (bit_xor x p) (bit_xor y p) ≡ bit_xor x y
cancel_both x y p = rw (bit_xor_assoc, bit_xor_comm y p, bit_xor_cancel)

pub crc_bit-xor : (a b : ℕ) → crc_bit (bit_xor a b) ≡ bit_xor (crc_bit a) (crc_bit b)
crc_bit-xor a b = elim (parity a) [
  | inl e ↦ elim (parity b) [
    | inl f ↦
        rw
          (
            crc_bit_even a e,
            crc_bit_even b f,
            crc_bit_even (bit_xor a b) (omega (arith, parity-bit_xor a b)),
          )
          (half-bit_xor a b)
    | inr f ↦ rw (
      crc_bit_even a e,
      crc_bit_odd b f,
      crc_bit_odd (bit_xor a b) (omega (arith, parity-bit_xor a b)),
      half-bit_xor,
      bit_xor_assoc,
    )
  ]
  | inr e ↦ elim (parity b) [
    | inl f ↦ rw (
      crc_bit_odd a e,
      crc_bit_even b f,
      crc_bit_odd (bit_xor a b) (omega (arith, parity-bit_xor a b)),
      half-bit_xor,
      bit_xor_assoc,
      bit_xor_assoc,
      bit_xor_comm (b / 2) polynomial,
    )
    | inr f ↦
        rw
          (
            crc_bit_odd a e,
            crc_bit_odd b f,
            crc_bit_even (bit_xor a b) (omega (arith, parity-bit_xor a b)),
            half-bit_xor,
          )
          (sym (cancel_both (a / 2) (b / 2) polynomial))
  ]
]

pub crc_bits-xor : (n a b : ℕ) → crc_bits n (bit_xor a b) ≡ bit_xor (crc_bits n a) (crc_bits n b)
unfolding crc_bits
crc_bits-xor zero a b = refl
crc_bits-xor (suc n) a b =
    ap (crc_bits n) (crc_bit-xor a b) ∙ crc_bits-xor n (crc_bit a) (crc_bit b)

-- Digits that the rounds do not reach are only shifted.
crc_bits-shifted : (n h : ℕ) → crc_bits n (h * 2 ^ n) ≡ h
unfolding crc_bits
crc_bits-shifted zero h = omega arith
crc_bits-shifted (suc n) h =
    ap (crc_bits n)
      (crc_bit_even (h * 2 ^ suc n) (rw two-pow-succ (omega arith)) ∙ rw two-pow-succ (omega arith))
    ∙ crc_bits-shifted n h

pow-suc-div : (k a : ℕ) → a / 2 ^ suc k ≡ a / 2 / 2 ^ k
pow-suc-div k a = rw pow-succ' (sym (div-div-eq-div-mul a 2 (2 ^ k)))

pub bit_xor-shr : (k a b : ℕ) → bit_xor a b / 2 ^ k ≡ bit_xor (a / 2 ^ k) (b / 2 ^ k)
bit_xor-shr zero a b = div-one _ ∙ ap₂ bit_xor (sym (div-one a)) (sym (div-one b))
bit_xor-shr (suc k) a b =
    pow-suc-div k (bit_xor a b)
    ∙ ap (λ x. x / 2 ^ k) (half-bit_xor a b)
    ∙ bit_xor-shr k (a / 2) (b / 2)
    ∙ ap₂ bit_xor (sym (pow-suc-div k a)) (sym (pow-suc-div k b))

-- Eight rounds are a shift by a byte and the rounds of the low byte.
crc_bits-byte : (x : ℕ) → crc_bits 8 x ≡ bit_xor (x / 2 ^ 8) (crc_bits 8 (x % 2 ^ 8))
crc_bits-byte x =
    let fields = bit_xor-fields 8 (x / 2 ^ 8) (x % 2 ^ 8) (omega arith) in
    let whole : x ≡ bit_xor (x / 2 ^ 8 * 2 ^ 8) (x % 2 ^ 8) = omega (arith, fields) in
    ap (crc_bits 8) whole
    ∙ crc_bits-xor 8 (x / 2 ^ 8 * 2 ^ 8) (x % 2 ^ 8)
    ∙ ap (λ y. bit_xor y (crc_bits 8 (x % 2 ^ 8))) (crc_bits-shifted 8 (x / 2 ^ 8))

table_entry : (n i j : ℕ) → j < n → get_or (table_from n i) j 0 ≡ crc_bits 8 (i + j)
unfolding table_from
table_entry zero i j h = absurd (omega arith)
table_entry (suc n) i zero h = ap (crc_bits 8) (omega arith)
table_entry (suc n) i (suc j) h =
    table_entry n (i + 1) j (omega arith) ∙ ap (crc_bits 8) (omega arith)

-- Looking a byte up in the table does what eight rounds do.
pub crc_update_lem :
    (crc byte : ℕ) → byte < 2 ^ 8 → crc_update crc byte ≡ crc_bits 8 (bit_xor crc byte)
unfolding crc_update build_crc32_table
crc_update_lem crc byte h =
    let x : ℕ = bit_xor crc byte in
    let no_high : byte / 2 ^ 8 ≡ 0 = omega arith in
    let high : x / 2 ^ 8 ≡ crc / 2 ^ 8 =
      bit_xor-shr 8 crc byte ∙ ap (bit_xor (crc / 2 ^ 8)) no_high ∙ bit_xor-zero (crc / 2 ^ 8) in
    let entry = table_entry 256 0 (x % 2 ^ 8) (omega arith) in
    sym (
      crc_bits-byte x
      ∙ ap₂ bit_xor high (
          sym (
            ap (λ i. get_or (table_from 256 0) i 0) (bit_and-low_ones 8 x)
            ∙ entry
            ∙ ap (crc_bits 8) (omega arith))))
