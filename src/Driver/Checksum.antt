-- ===== src/Driver/Checksum.antt =====
-- The frame check of the driver: `pfpga_compute_crc32` and `pfpga_validate_frame_crc`. The
-- kernel's `crc32_le` is a parameter.
use phantomfpga_project.Base.{ℕ, Bool, true, ◌+◌, ◌*◌, ◌/◌, ◌%◌, ◌^◌, ◌<◌, bit_xor, ◌==◌, ==_iff}
use phantomfpga_project.Base.{◌≡◌, ◌↔◌, ap, sym, ◌∙◌, arith, List, [], ◌∷◌, ◌++◌}
use phantomfpga_project.Base.{length, take, drop, length-append, take-append, drop-append}
use phantomfpga_project.Regs.{frame_crc_offset}
use phantomfpga_project.Crc.{compute}
use phantomfpga_project.Crc.Serial.{shift_in_all, AreBytes, AreBytes-append, compute-serial}
use phantomfpga_project.Crc.Detect.{compute-injective_at, compute-lt}

-- What <linux/crc32.h> documents: the bitwise little-endian CRC of the bytes, from the seed, with
-- no inversion at either end.
abbrev pub IsCrc32Le : (ℕ → List ℕ → ℕ) → Type 0
IsCrc32Le crc32_le =
    (seed : ℕ) (bytes : List ℕ) → AreBytes bytes → crc32_le seed bytes ≡ shift_in_all seed bytes

-- A little-endian word in memory, read and written.
abbrev pub le32 : List ℕ → ℕ
le32 (a ∷ b ∷ c ∷ d ∷ rest) = a + b * 2 ^ 8 + c * 2 ^ 16 + d * 2 ^ 24
le32 _ = 0

abbrev pub le32_bytes : ℕ → List ℕ
le32_bytes v = v % 2 ^ 8 ∷ (v / 2 ^ 8 % 2 ^ 8) ∷ (v / 2 ^ 16 % 2 ^ 8) ∷ (v / 2 ^ 24 % 2 ^ 8) ∷ []

module _ (crc32_le : ℕ → List ℕ → ℕ) where
  pub compute_crc32 : List ℕ → ℕ
  compute_crc32 bytes = bit_xor (crc32_le 0xFFFFFFFF bytes) 0xFFFFFFFF

  pub validate_frame_crc : List ℕ → Bool
  validate_frame_crc frame =
      let computed_crc = compute_crc32 (take frame_crc_offset frame) in
      let stored_crc = le32 (drop frame_crc_offset frame) in computed_crc == stored_crc

  module _ (is_crc : IsCrc32Le crc32_le) where
    -- The driver, the application and the viewer compute one checksum.
    pub compute_crc32-compute :
        (bytes : List ℕ) → AreBytes bytes → compute_crc32 bytes ≡ compute bytes
    unfolding compute_crc32
    compute_crc32-compute bytes h =
        ap (λ c. bit_xor c 0xFFFFFFFF) (is_crc 0xFFFFFFFF bytes h) ∙ sym (compute-serial bytes h)

    le32-le32_bytes : (v : ℕ) → v < 2 ^ 32 → le32 (le32_bytes v) ≡ v
    le32-le32_bytes v h = omega arith

    -- A frame that ends in this checksum passes exactly if it is that of the bytes before.
    validate_lem :
        (payload : List ℕ) (v : ℕ)
        → AreBytes payload
        → length payload ≡ frame_crc_offset
        → v < 2 ^ 32
        → (validate_frame_crc (payload ++ le32_bytes v) ≡ true) ↔ (compute payload ≡ v)
    unfolding validate_frame_crc
    validate_lem payload v bytes size small =
        let first = take-append frame_crc_offset payload (le32_bytes v) size in
        let last = drop-append frame_crc_offset payload (le32_bytes v) size in
        let computed = ap compute_crc32 first ∙ compute_crc32-compute payload bytes in
        let stored = ap le32 last ∙ le32-le32_bytes v small in
        (
          λ e. sym computed ∙ (==_iff _ _).0 e ∙ stored,
          λ e. (==_iff _ _).1 (computed ∙ e ∙ sym stored),
        )

    -- Of the frames that are stored with the checksum of `before ++ x ∷ after`, of 5116 bytes, the
    -- one itself passes the driver's check, and none passes in which one byte `x` was changed.
    pub validate-one_byte :
        (before after : List ℕ) (x y : ℕ)
        → AreBytes before
        → AreBytes after
        → x < 2 ^ 8
        → y < 2 ^ 8
        → length (before ++ (x ∷ after)) ≡ frame_crc_offset
        → (validate_frame_crc
              ((before ++ (y ∷ after)) ++ le32_bytes (compute (before ++ (x ∷ after))))
            ≡ true)
          ↔ (y ≡ x)
    validate-one_byte before after x y hb ha hx hy size =
        let sent = AreBytes-append before (x ∷ after) hb (hx, ha) in
        let received = AreBytes-append before (y ∷ after) hb (hy, ha) in
        let same_size : length (before ++ (y ∷ after)) ≡ frame_crc_offset =
          omega (arith, length-append before (y ∷ after), length-append before (x ∷ after), size) in
        let check =
          validate_lem (before ++ (y ∷ after)) (compute (before ++ (x ∷ after))) received same_size
            (compute-lt (before ++ (x ∷ after)) sent) in
        (
          λ e. compute-injective_at before after y x hb ha hy hx (check.0 e),
          λ e. check.1 (ap (λ z. compute (before ++ (z ∷ after))) e),
        )
