-- ===== src/Crc.antt =====
-- `CRC32::compute` of app/phantomfpga_app.cpp and viewer/phantomfpga_view.cpp (the two are the
-- same), with the table that it uses. A buffer is the list of its bytes.
pub mod Linear
pub mod Serial
pub mod Detect
use phantomfpga_project.Base.{ℕ, zero, suc, ◌+◌, bit_and, bit_xor, shr, ◌==◌, if◌then◌else◌}
use phantomfpga_project.Base.{List, [], ◌∷◌, get_or}

abbrev pub polynomial : ℕ
polynomial = 0xEDB88320

-- A round of the inner loop of `build_crc32_table`, and the rounds left of it.
pub crc_bit : ℕ → ℕ
crc_bit crc = if bit_and crc 1 == 0 then shr crc 1 else bit_xor (shr crc 1) polynomial

pub crc_bits : ℕ → ℕ → ℕ
unfolding crc_bit
crc_bits zero crc = crc
crc_bits (suc left) crc = crc_bits left (crc_bit crc)

-- The outer loop from index `i` on, with that many entries left.
table_from : ℕ → ℕ → List ℕ
table_from zero i = []
table_from (suc left) i = crc_bits 8 i ∷ table_from left (i + 1)

build_crc32_table : List ℕ
unfolding table_from crc_bits
build_crc32_table = table_from 256 0

-- A round of `compute`'s loop. The index is below 256, so the default is never read.
pub crc_update : ℕ → ℕ → ℕ
crc_update crc byte =
    bit_xor (shr crc 8) (get_or build_crc32_table (bit_and (bit_xor crc byte) 0xFF) 0)

pub crc_loop : ℕ → List ℕ → ℕ
crc_loop crc [] = crc
crc_loop crc (byte ∷ bytes) = crc_loop (crc_update crc byte) bytes

unfoldable pub compute : List ℕ → ℕ
unfolding crc_loop crc_update build_crc32_table
compute bytes = bit_xor (crc_loop 0xFFFFFFFF bytes) 0xFFFFFFFF
