-- ===== src/Uapi/Abi.antt =====
-- The structures of driver/phantomfpga_uapi.h and driver/phantomfpga_regs.h under any ABI: a field
-- of w bytes is aligned to some divisor of w, which a 32-bit and a 64-bit program may choose
-- differently (8 bytes are aligned to 4 on i386), and which is 1 in a packed structure.
use native.Mathlib.Nat.{div-add-mod, mul-add-div_right, div-eq_of_lt}
use phantomfpga_project.Base.{ℕ, ◌+◌, ◌-◌, ◌*◌, ◌/◌, ◌%◌, ◌<◌, ◌≡◌, refl, sym, ap, ◌∙◌, arith}
use phantomfpga_project.Base.{
  Bool, true, false, ◌&&◌, ◌==◌, ==_iff, ltb, if◌then◌else◌, List, [], ◌∷◌,
}
use phantomfpga_project.Uapi.Layout.{
  align_up, packed_size, aligned_size, config_fields, stats_fields, buffer_info_fields,
  fault_cfg_fields, frame_header_fields, completion_fields, sg_desc_fields,
}

-- The first byte of each field, from a byte on, and where the last one ends.
abbrev pub offsets : (align : ℕ → ℕ) → ℕ → List ℕ → List ℕ
offsets align at_byte [] = []
offsets align at_byte (w ∷ ws) =
    align_up at_byte (align w) ∷ offsets align (align_up at_byte (align w) + w) ws

abbrev end_of : (align : ℕ → ℕ) → ℕ → List ℕ → ℕ
end_of align at_byte [] = at_byte
end_of align at_byte (w ∷ ws) = end_of align (align_up at_byte (align w) + w) ws

abbrev strictest : (align : ℕ → ℕ) → ℕ → List ℕ → ℕ
strictest align a [] = a
strictest align a (w ∷ ws) = strictest align (if ltb a (align w) then align w else a) ws

abbrev pub size : (align : ℕ → ℕ) → List ℕ → ℕ
size align ws = align_up (end_of align 0 ws) (strictest align 1 ws)

-- Each field after the one before it, with nothing between.
abbrev pub packed_offsets : ℕ → List ℕ → List ℕ
packed_offsets at_byte [] = []
packed_offsets at_byte (w ∷ ws) = at_byte ∷ packed_offsets (at_byte + w) ws

abbrev pub Divides : ℕ → ℕ → Type 0
Divides a n = (q : ℕ) × (n ≡ q * a)

abbrev pub IsRule : (ℕ → ℕ) → Type 0
IsRule align = (w : ℕ) → 0 < w → (0 < align w) × Divides (align w) w

pub data Structure : Type 0 where
  config stats buffer_info fault_cfg frame_header completion sg_desc : Structure

abbrev pub fields : Structure → List ℕ
fields config = config_fields
fields stats = stats_fields
fields buffer_info = buffer_info_fields
fields fault_cfg = fault_cfg_fields
fields frame_header = frame_header_fields
fields completion = completion_fields
fields sg_desc = sg_desc_fields

-- Every field begins at a multiple of its width, and so would one after the last.
abbrev natural : (total at_byte : ℕ) → List ℕ → Bool
natural total at_byte [] = at_byte == total
natural total at_byte (w ∷ ws) =
    ltb 0 w && (at_byte % w == 0) && (total % w == 0) && natural total (at_byte + w) ws

fields-natural : (s : Structure) → natural (packed_size (fields s)) 0 (fields s) ≡ true
fields-natural config = refl
fields-natural stats = refl
fields-natural buffer_info = refl
fields-natural fault_cfg = refl
fields-natural frame_header = refl
fields-natural completion = refl
fields-natural sg_desc = refl

no_padding : (s : Structure) → packed_size (fields s) ≡ aligned_size (fields s)
no_padding config = refl
no_padding stats = refl
no_padding buffer_info = refl
no_padding fault_cfg = refl
no_padding frame_header = refl
no_padding completion = refl
no_padding sg_desc = refl

align_up-multiple : (n a : ℕ) → 0 < a → Divides a n → align_up n a ≡ n
align_up-multiple n a pos (q, same) =
    let quotient : (q * a + (a - 1)) / a ≡ q =
      mul-add-div_right pos q (a - 1)
      ∙ omega (arith, div-eq_of_lt {n = a - 1} {m = a} (omega arith)) in
    ap (λ t. (t + (a - 1)) / a * a) same ∙ ap (λ t. t * a) quotient ∙ sym same

Divides-through : (a w n : ℕ) → Divides a w → n % w ≡ 0 → Divides a n
Divides-through a w n (q, same) whole =
    (n / w * q, omega (arith, div-add-mod n w, ap (λ t. t * (n / w)) same))

module _ (align : ℕ → ℕ) (rule : IsRule align) where
  record Packs (total at_byte : ℕ) (ws : List ℕ) : Type 0 where
    no_gaps : offsets align at_byte ws ≡ packed_offsets at_byte ws
    ends : end_of align at_byte ws ≡ total
    divides : (a : ℕ) → 0 < a → Divides a total → align_up total (strictest align a ws) ≡ total

  natural-Packs :
      (total at_byte : ℕ) (ws : List ℕ) → natural total at_byte ws ≡ true → Packs total at_byte ws
  natural-Packs total at_byte [] h = record {
    no_gaps = refl;
    ends = (==_iff _ _).0 h;
    divides = align_up-multiple total;
  }
  natural-Packs total at_byte (w ∷ ws) h =
      let (pos, divisor) = rule w (ground arith) in
      let placed : align_up at_byte (align w) ≡ at_byte =
        align_up-multiple at_byte (align w) pos
          (Divides-through (align w) w at_byte divisor (ground arith)) in
      let later = natural-Packs total (at_byte + w) ws (ground arith) in
      let whole = Divides-through (align w) w total divisor (ground arith) in
      record {
        no_gaps = rw placed (ap (λ l. at_byte ∷ l) later.no_gaps);
        ends = rw placed later.ends;
        divides = λ a a_pos a_whole. strictest_of later (ltb a (align w)) a a_pos a_whole pos whole;
      }
    where
      strictest_of :
          Packs total (at_byte + w) ws
          → (b : Bool) (a : ℕ) → 0 < a
          → Divides a total
          → 0 < align w
          → Divides (align w) total
          → align_up total (strictest align (if b then align w else a) ws) ≡ total
      strictest_of later true a a_pos a_whole pos whole = later.divides (align w) pos whole
      strictest_of later false a a_pos a_whole pos whole = later.divides a a_pos a_whole

  -- The structures that cross the interface, in a program or a driver of any ABI, packed or not, in
  -- which a field of w bytes is aligned to some divisor of w: every field begins where the one
  -- before it ends, and the size is that of `aligned_size`, which the command codes carry.
  pub same_layout :
      (s : Structure)
      → (offsets align 0 (fields s) ≡ packed_offsets 0 (fields s))
        × (size align (fields s) ≡ aligned_size (fields s))
  same_layout s =
      let packs = natural-Packs (packed_size (fields s)) 0 (fields s) (fields-natural s) in
      (
        packs.no_gaps,
        ap (λ n. align_up n (strictest align 1 (fields s))) packs.ends
            ∙ packs.divides 1 (omega arith) (packed_size (fields s), omega arith)
            ∙ no_padding s,
      )
