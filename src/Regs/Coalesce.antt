-- ===== src/Regs/Coalesce.antt =====
-- The interrupt coalescing register of driver/phantomfpga_regs.h: the count threshold in the low
-- half, the timeout in microseconds in the high half.
use phantomfpga_project.Base.{ℕ, ◌+◌, ◌*◌, ◌/◌, ◌%◌, ◌^◌, ◌<◌, bit_and, bit_or, u16, u32, shl, shr}
use phantomfpga_project.Base.{◌≡◌, ◌↔◌, sym, ap, ◌∙◌, arith}
use phantomfpga_project.Bits.Mask.{bit_and-low_ones, bit_or-fields}

pub irq_coalesce_pack : ℕ → ℕ → ℕ
irq_coalesce_pack count timeout_us = u32 (bit_or (u32 (shl timeout_us 16)) count)

-- The two out parameters, as a pair.
pub irq_coalesce_unpack : ℕ → ℕ × ℕ
irq_coalesce_unpack val = (u16 (bit_and val 0xFFFF), u16 (shr val 16))

pack_as_sum :
    (count timeout : ℕ)
    → count < 2 ^ 16
    → timeout < 2 ^ 16
    → irq_coalesce_pack count timeout ≡ timeout * 2 ^ 16 + count
unfolding irq_coalesce_pack
pack_as_sum count timeout h g =
    let uncut : u32 (shl timeout 16) ≡ timeout * 2 ^ 16 = omega arith in
    rw (uncut, bit_or-fields 16 timeout count h) (omega arith)

unpack_as_fields : (val : ℕ) → val < 2 ^ 32 → irq_coalesce_unpack val ≡ (val % 2 ^ 16, val / 2 ^ 16)
unfolding irq_coalesce_unpack
unpack_as_fields val h =
    let low : u16 (bit_and val 0xFFFF) ≡ val % 2 ^ 16 = omega (arith, bit_and-low_ones 16 val) in
    let high : u16 (shr val 16) ≡ val / 2 ^ 16 = omega arith in rw (low, high)

-- Unpacking the packed register gives both settings back, for every two 16-bit settings.
pub unpack-pack :
    (count timeout : ℕ)
    → count < 2 ^ 16
    → timeout < 2 ^ 16
    → irq_coalesce_unpack (irq_coalesce_pack count timeout) ≡ (count, timeout)
unpack-pack count timeout h g =
    let sum = pack_as_sum count timeout h g in
    let low : (timeout * 2 ^ 16 + count) % 2 ^ 16 ≡ count = omega arith in
    let high : (timeout * 2 ^ 16 + count) / 2 ^ 16 ≡ timeout = omega arith in
    rw (sum, unpack_as_fields (timeout * 2 ^ 16 + count) (omega arith), low, high)

-- Packing what a register value unpacks to gives the value back, for every 32-bit value.
pub pack-unpack :
    (val : ℕ)
    → val < 2 ^ 32
    → let (count, timeout) = irq_coalesce_unpack val in irq_coalesce_pack count timeout ≡ val
pack-unpack val h =
    rw (unpack_as_fields val h)
      (pack_as_sum (val % 2 ^ 16) (val / 2 ^ 16) (omega arith) (omega arith) ∙ omega arith)

-- For every two 16-bit settings and every 32-bit value: the settings pack to the value exactly when
-- the value unpacks to the settings.
pub pack-unpack_iff :
    (count timeout val : ℕ)
    → count < 2 ^ 16
    → timeout < 2 ^ 16
    → val < 2 ^ 32
    → (irq_coalesce_pack count timeout ≡ val) ↔ (irq_coalesce_unpack val ≡ (count, timeout))
pack-unpack_iff count timeout val h g small = (
  λ e. ap irq_coalesce_unpack (sym e) ∙ unpack-pack count timeout h g,
  λ e. ap (λ p. irq_coalesce_pack p.0 p.1) (sym e) ∙ pack-unpack val small,
)
