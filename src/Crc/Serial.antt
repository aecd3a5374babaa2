-- ===== src/Crc/Serial.antt =====
-- The checksum without a table: a shift register that takes one bit of the message at a time, the
-- lowest bit of each byte first.
use phantomfpga_project.Base.{ℕ, zero, suc, ◌*◌, ◌/◌, ◌%◌, ◌^◌, ◌<◌, bit_xor}
use phantomfpga_project.Base.{◌≡◌, refl, ap, sym, ◌∙◌, arith, List, [], ◌∷◌, ◌++◌}
use native.Mathlib.Nat.{two-pow-succ}
use phantomfpga_project.Bits.Xor.{bit_xor-zero, bit_xor_assoc, bit_xor_comm, bit_xor-fields}
use phantomfpga_project.Crc.{crc_bit, crc_bits, crc_update, crc_loop, compute}
use phantomfpga_project.Crc.Linear.{crc_bit-xor, crc_bit_even, crc_update_lem}

-- The lowest bits of `byte` go into the register, that many of them.
pub shift_in : ℕ → ℕ → ℕ → ℕ
shift_in zero crc byte = crc
shift_in (suc bits) crc byte = shift_in bits (crc_bit (bit_xor crc (byte % 2))) (byte / 2)

pub shift_in_all : ℕ → List ℕ → ℕ
shift_in_all crc [] = crc
shift_in_all crc (byte ∷ bytes) = shift_in_all (shift_in 8 crc byte) bytes

abbrev pub AreBytes : List ℕ → Type 0
AreBytes [] = Unit
AreBytes (b ∷ bs) = (b < 2 ^ 8) × AreBytes bs

pub AreBytes-append : (xs ys : List ℕ) → AreBytes xs → AreBytes ys → AreBytes (xs ++ ys)
AreBytes-append [] ys h k = k
AreBytes-append (x ∷ xs) ys h k = (h.0, AreBytes-append xs ys h.1 k)

-- The bits that come later may as well be in the register from the start.
shift_in_lem : (n crc byte : ℕ) → byte < 2 ^ n → shift_in n crc byte ≡ crc_bits n (bit_xor crc byte)
unfolding shift_in crc_bits
shift_in_lem zero crc byte h =
    let e : byte ≡ 0 = omega arith in sym (ap (bit_xor crc) e ∙ bit_xor-zero crc)
shift_in_lem (suc n) crc byte h =
    let fields = bit_xor-fields 1 (byte / 2) (byte % 2) (omega arith) in
    let split : byte ≡ bit_xor (byte % 2) (byte / 2 * 2 ^ 1) =
      omega (arith, fields, bit_xor_comm (byte / 2 * 2 ^ 1) (byte % 2)) in
    let rest : crc_bit (byte / 2 * 2 ^ 1) ≡ byte / 2 =
      crc_bit_even (byte / 2 * 2 ^ 1) (omega arith) ∙ omega arith in
    shift_in_lem n (crc_bit (bit_xor crc (byte % 2))) (byte / 2) (omega (arith, two-pow-succ n))
    ∙ ap (crc_bits n) (
        sym (
          ap (λ b. crc_bit (bit_xor crc b)) split
          ∙ ap crc_bit (sym (bit_xor_assoc crc (byte % 2) (byte / 2 * 2 ^ 1)))
          ∙ crc_bit-xor (bit_xor crc (byte % 2)) (byte / 2 * 2 ^ 1)
          ∙ ap (bit_xor (crc_bit (bit_xor crc (byte % 2)))) rest))

crc_loop-serial :
    (crc : ℕ) (bytes : List ℕ) → AreBytes bytes → crc_loop crc bytes ≡ shift_in_all crc bytes
unfolding crc_loop shift_in_all
crc_loop-serial crc [] h = refl
crc_loop-serial crc (b ∷ bs) h =
    let step : crc_update crc b ≡ shift_in 8 crc b =
      crc_update_lem crc b h.0 ∙ sym (shift_in_lem 8 crc b h.0) in
    ap (λ c. crc_loop c bs) step ∙ crc_loop-serial (shift_in 8 crc b) bs h.1

-- On every list of bytes `compute` is the bit-serial checksum: the register starts at all ones,
-- takes the message bit by bit, and is inverted at the end.
pub compute-serial :
    (bytes : List ℕ)
    → AreBytes bytes
    → compute bytes ≡ bit_xor (shift_in_all 0xFFFFFFFF bytes) 0xFFFFFFFF
unfolding compute
compute-serial bytes h = ap (λ c. bit_xor c 0xFFFFFFFF) (crc_loop-serial 0xFFFFFFFF bytes h)
