-- ===== src/Examples/Checksums.antt =====
-- The standard check value, a short message, and a whole frame of zeros.
use phantomfpga_project.Base.{ℕ, zero, suc, true, ◌≡◌, ◌≢◌, ◌↔◌, refl, ap, bit_xor, arith}
use phantomfpga_project.Base.{List, [], ◌∷◌, ◌++◌, length, length-append}
use phantomfpga_project.Regs.{frame_crc_offset}
use phantomfpga_project.Crc.{compute}
use phantomfpga_project.Crc.Serial.{AreBytes, shift_in_all, compute-serial}
use phantomfpga_project.Crc.Detect.{compute-detects}
use phantomfpga_project.Driver.Checksum.{le32_bytes, validate_frame_crc, validate-one_byte}

-- "123456789"
abbrev digits : List ℕ
digits = 49 ∷ 50 ∷ 51 ∷ 52 ∷ 53 ∷ 54 ∷ 55 ∷ 56 ∷ 57 ∷ []

compute-digits : compute digits ≡ 0xCBF43926
unfolding compute
compute-digits = refl

compute-serial_example : compute digits ≡ bit_xor (shift_in_all 0xFFFFFFFF digits) 0xFFFFFFFF
compute-serial_example = compute-serial digits (omega arith)

compute-detects_example : compute ((49 ∷ []) ++ (50 ∷ [])) ≢ compute ((49 ∷ []) ++ (51 ∷ []))
compute-detects_example =
    compute-detects (49 ∷ []) [] 50 51 (omega arith) tt (omega arith) (omega arith) (omega arith)

zeros : ℕ → List ℕ
zeros zero = []
zeros (suc n) = 0 ∷ zeros n

zeros-AreBytes : (n : ℕ) → AreBytes (zeros n)
unfolding zeros
zeros-AreBytes zero = tt
zeros-AreBytes (suc n) = (omega arith, zeros-AreBytes n)

length-zeros : (n : ℕ) → length (zeros n) ≡ n
unfolding zeros
length-zeros zero = refl
length-zeros (suc n) = ap suc (length-zeros n)

frame_size_example : length (zeros 100 ++ (10 ∷ zeros 5015)) ≡ frame_crc_offset
frame_size_example =
    omega (arith, length-append (zeros 100) (10 ∷ zeros 5015), length-zeros 100, length-zeros 5015)

-- A newline at byte 100 that arrives as a space.
validate-one_byte_example :
    (validate_frame_crc shift_in_all
        ((zeros 100 ++ (32 ∷ zeros 5015)) ++ le32_bytes (compute (zeros 100 ++ (10 ∷ zeros 5015))))
      ≡ true)
    ↔ (◌≡◌ {A = ℕ} 32 10)
validate-one_byte_example =
    validate-one_byte shift_in_all (λ seed bytes h. refl) (zeros 100) (zeros 5015) 10 32
      (zeros-AreBytes 100) (zeros-AreBytes 5015) (omega arith) (omega arith) frame_size_example
