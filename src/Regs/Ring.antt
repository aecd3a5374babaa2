-- ===== src/Regs/Ring.antt =====
-- The descriptor ring helpers of driver/phantomfpga_regs.h, on `u32` indices. The modules below
-- prove that they count, for a ring whose size is a power of two.
pub mod Counters
use phantomfpga_project.Base.{ℕ, Bool, bit_and, add32, sub32, ◌==◌}

pub desc_pending : ℕ → ℕ → ℕ → ℕ
desc_pending head tail ring_size = bit_and (sub32 head tail) (sub32 ring_size 1)

pub desc_free : ℕ → ℕ → ℕ → ℕ
desc_free head tail ring_size = sub32 (sub32 ring_size 1) (desc_pending head tail ring_size)

pub desc_ring_empty : ℕ → ℕ → Bool
desc_ring_empty head tail = head == tail

pub desc_ring_full : ℕ → ℕ → ℕ → Bool
desc_ring_full head tail ring_size =
    let next_head = bit_and (add32 head 1) (sub32 ring_size 1) in next_head == tail
