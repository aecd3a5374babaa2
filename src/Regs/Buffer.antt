-- ===== src/Regs/Buffer.antt =====
-- Where a frame's checksum and the completion record lie in a descriptor's buffer: the pointer
-- helpers of driver/phantomfpga_regs.h, an address being a number.
use phantomfpga_project.Base.{ℕ, ◌+◌, ◌-◌, ◌≤◌, ◌≡◌, arith}
use phantomfpga_project.Uapi.{frame_size}
use phantomfpga_project.Regs.{compl_size, frame_crc_offset}

pub completion_ptr : ℕ → ℕ → ℕ
completion_ptr buffer buffer_size = buffer + buffer_size - compl_size

pub frame_crc_ptr : ℕ → ℕ
frame_crc_ptr frame = frame + frame_crc_offset

-- In a buffer at least as large as a frame and a completion record, the checksum is the last
-- four bytes of the frame, the completion record begins at or past the frame's end, and the
-- record ends exactly where the buffer does.
pub buffer_regions_disjoint :
    (buffer buffer_size : ℕ)
    → frame_size + compl_size ≤ buffer_size
    → (frame_crc_ptr buffer + 4 ≡ buffer + frame_size)
      × (buffer + frame_size ≤ completion_ptr buffer buffer_size)
      × (completion_ptr buffer buffer_size + compl_size ≡ buffer + buffer_size)
unfolding completion_ptr frame_crc_ptr
buffer_regions_disjoint buffer buffer_size h = omega arith
