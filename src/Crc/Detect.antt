-- ===== src/Crc/Detect.antt =====
-- Two messages of one length that differ in a single byte never have the same checksum.
use phantomfpga_project.Base.{ℕ, zero, suc, ◌/◌, ◌^◌, ◌<◌, bit_xor}
use phantomfpga_project.Base.{◌≡◌, ◌≢◌, inl, inr, ap, sym, ◌∙◌, arith, List, [], ◌∷◌, ◌++◌}
use phantomfpga_project.Bits.Xor.{
  bit_xor_assoc, bit_xor_self, bit_xor-zero, bit_xor_cancel, bit_xor-lt,
}
use phantomfpga_project.Crc.{polynomial, crc_bit, crc_bits, crc_update, crc_loop, compute}
use phantomfpga_project.Crc.Linear.{crc_bit_even, crc_bit_odd, parity, bit_xor-shr, crc_update_lem}
use phantomfpga_project.Crc.Serial.{AreBytes}

-- Both sides lose what was added to them.
xor_injective : (x y p : ℕ) → bit_xor x p ≡ bit_xor y p → x ≡ y
xor_injective x y p e = sym (undo x) ∙ ap (λ z. bit_xor z p) e ∙ undo y
  where
    undo : (z : ℕ) → bit_xor (bit_xor z p) p ≡ z
    undo z = bit_xor_assoc z p p ∙ ap (bit_xor z) (bit_xor_self p) ∙ bit_xor-zero z

-- The polynomial's top digit marks the rounds that shifted a one out.
marked : (a b : ℕ) → a < 2 ^ 32 → b < 2 ^ 32 → a / 2 ≡ bit_xor (b / 2) polynomial → ⊥
marked a b ha hb e =
    let no_top : b / 2 / 2 ^ 31 ≡ 0 = omega arith in
    let top : bit_xor (b / 2) polynomial / 2 ^ 31 ≡ 1 =
      bit_xor-shr 31 (b / 2) polynomial ∙ ap (λ t. bit_xor t 1) no_top in
    omega (arith, ap (λ t. t / 2 ^ 31) e)

crc_bit-injective : (a b : ℕ) → a < 2 ^ 32 → b < 2 ^ 32 → crc_bit a ≡ crc_bit b → a ≡ b
crc_bit-injective a b ha hb e = elim (parity a) [
  | inl p ↦ elim (parity b) [
    | inl q ↦ omega (arith, sym (crc_bit_even a p) ∙ e ∙ crc_bit_even b q)
    | inr q ↦ absurd (marked a b ha hb (sym (crc_bit_even a p) ∙ e ∙ crc_bit_odd b q))
  ]
  | inr p ↦ elim (parity b) [
    | inl q ↦ absurd (marked b a hb ha (sym (crc_bit_even b q) ∙ sym e ∙ crc_bit_odd a p))
    | inr q ↦ omega (
      arith,
      xor_injective (a / 2) (b / 2) polynomial (sym (crc_bit_odd a p) ∙ e ∙ crc_bit_odd b q),
    )
  ]
]

crc_bit-lt : (a : ℕ) → a < 2 ^ 32 → crc_bit a < 2 ^ 32
crc_bit-lt a h = elim (parity a) [
  | inl p ↦ rw (crc_bit_even a p) (omega arith)
  | inr p ↦ rw (crc_bit_odd a p) (bit_xor-lt 32 (a / 2) polynomial (omega arith) (omega arith))
]

crc_bits-lt : (n a : ℕ) → a < 2 ^ 32 → crc_bits n a < 2 ^ 32
unfolding crc_bits
crc_bits-lt zero a h = h
crc_bits-lt (suc n) a h = crc_bits-lt n (crc_bit a) (crc_bit-lt a h)

crc_bits-injective : (n a b : ℕ) → a < 2 ^ 32 → b < 2 ^ 32 → crc_bits n a ≡ crc_bits n b → a ≡ b
unfolding crc_bits
crc_bits-injective zero a b ha hb e = e
crc_bits-injective (suc n) a b ha hb e =
    crc_bit-injective a b ha hb
      (crc_bits-injective n (crc_bit a) (crc_bit b) (crc_bit-lt a ha) (crc_bit-lt b hb) e)

xor_byte-lt : (c x : ℕ) → c < 2 ^ 32 → x < 2 ^ 8 → bit_xor c x < 2 ^ 32
xor_byte-lt c x hc hx = bit_xor-lt 32 c x hc (omega arith)

crc_update-lt : (c x : ℕ) → c < 2 ^ 32 → x < 2 ^ 8 → crc_update c x < 2 ^ 32
crc_update-lt c x hc hx =
    rw (crc_update_lem c x hx) (crc_bits-lt 8 (bit_xor c x) (xor_byte-lt c x hc hx))

-- What went into the register, byte and earlier content together, can be told from what came out.
crc_update-injective :
    (c d x y : ℕ)
    → c < 2 ^ 32
    → d < 2 ^ 32
    → x < 2 ^ 8
    → y < 2 ^ 8
    → crc_update c x ≡ crc_update d y
    → bit_xor c x ≡ bit_xor d y
crc_update-injective c d x y hc hd hx hy e =
    crc_bits-injective 8 (bit_xor c x) (bit_xor d y) (xor_byte-lt c x hc hx) (xor_byte-lt d y hd hy)
      (sym (crc_update_lem c x hx) ∙ e ∙ crc_update_lem d y hy)

crc_loop-injective :
    (bytes : List ℕ) (c d : ℕ)
    → AreBytes bytes
    → c < 2 ^ 32
    → d < 2 ^ 32
    → crc_loop c bytes ≡ crc_loop d bytes
    → c ≡ d
unfolding crc_loop
crc_loop-injective [] c d h hc hd e = e
crc_loop-injective (b ∷ bs) c d h hc hd e = xor_injective c d b (
    crc_update-injective c d b b hc hd h.0 h.0 (
      crc_loop-injective bs (crc_update c b) (crc_update d b) h.1 (crc_update-lt c b hc h.0)
        (crc_update-lt d b hd h.0) e))

loops_apart :
    (before after : List ℕ) (x y c : ℕ)
    → AreBytes before
    → AreBytes after
    → x < 2 ^ 8
    → y < 2 ^ 8
    → c < 2 ^ 32
    → crc_loop c (before ++ (x ∷ after)) ≡ crc_loop c (before ++ (y ∷ after))
    → x ≡ y
unfolding crc_loop
loops_apart [] after x y c hb ha hx hy hc e =
    let same =
      crc_loop-injective after (crc_update c x) (crc_update c y) ha (crc_update-lt c x hc hx)
        (crc_update-lt c y hc hy) e in
    let inputs = crc_update-injective c c x y hc hc hx hy same in
    sym (bit_xor_cancel c x) ∙ ap (bit_xor c) inputs ∙ bit_xor_cancel c y
loops_apart (b ∷ bs) after x y c hb ha hx hy hc e =
    loops_apart bs after x y (crc_update c b) hb.1 ha hx hy (crc_update-lt c b hc hb.0) e

pub compute-injective_at :
    (before after : List ℕ) (x y : ℕ)
    → AreBytes before
    → AreBytes after
    → x < 2 ^ 8
    → y < 2 ^ 8
    → compute (before ++ (x ∷ after)) ≡ compute (before ++ (y ∷ after))
    → x ≡ y
unfolding compute
compute-injective_at before after x y hb ha hx hy e =
    loops_apart before after x y 0xFFFFFFFF hb ha hx hy (omega arith)
      (xor_injective _ _ 0xFFFFFFFF e)

-- Changing one byte of a message, whichever and to whatever other byte, changes its checksum.
pub compute-detects :
    (before after : List ℕ) (x y : ℕ)
    → AreBytes before
    → AreBytes after
    → x < 2 ^ 8
    → y < 2 ^ 8
    → x ≢ y
    → compute (before ++ (x ∷ after)) ≢ compute (before ++ (y ∷ after))
compute-detects before after x y hb ha hx hy ne e =
    ne (compute-injective_at before after x y hb ha hx hy e)

crc_loop-lt : (bytes : List ℕ) (c : ℕ) → AreBytes bytes → c < 2 ^ 32 → crc_loop c bytes < 2 ^ 32
unfolding crc_loop
crc_loop-lt [] c h hc = hc
crc_loop-lt (b ∷ bs) c h hc = crc_loop-lt bs (crc_update c b) h.1 (crc_update-lt c b hc h.0)

pub compute-lt : (bytes : List ℕ) → AreBytes bytes → compute bytes < 2 ^ 32
unfolding compute
compute-lt bytes h =
    bit_xor-lt 32 (crc_loop 0xFFFFFFFF bytes) 0xFFFFFFFF
      (crc_loop-lt bytes 0xFFFFFFFF h (omega arith)) (omega arith)
