-- ===== src/Driver/Idle.antt =====
-- What is true of a device's data as long as nothing is implemented that configures or streams.
use phantomfpga_project.Base.{ℕ, false, ◌≡◌, none, some}
use phantomfpga_project.Regs.{
  default_desc_count, default_frame_rate, default_irq_count, default_irq_timeout,
}
use phantomfpga_project.Driver.Device.{Device, buffer_bytes}

-- Mapped registers, no stream, no ring, every index at 0, both locks free.
pub record IsIdle (d : Device) : Type 0 where
  pub mapped : (a : ℕ) × (d.regs ≡ some a)
  pub unconfigured : d.configured ≡ false
  pub stopped : d.streaming ≡ false
  pub no_ring : d.desc_ring ≡ none
  pub no_buffers : d.buffers ≡ none
  pub head : d.desc_head ≡ 0
  pub tail : d.desc_tail ≡ 0
  pub shadow : d.shadow_tail ≡ 0
  pub consumed : d.consumer ≡ 0
  pub lock_free : d.lock ≡ false
  pub ioctl_lock_free : d.ioctl_lock ≡ false

-- The configuration that `probe` sets.
pub record IsDefault (d : Device) : Type 0 where
  pub desc_count : d.desc_count ≡ default_desc_count
  pub frame_rate : d.frame_rate ≡ default_frame_rate
  pub irq_count : d.irq_coalesce_count ≡ default_irq_count
  pub irq_timeout : d.irq_coalesce_timeout ≡ default_irq_timeout
  pub buffer_size : d.buffer_size ≡ buffer_bytes

-- Counters at 0.
pub record IsUncounted (d : Device) : Type 0 where
  pub frames : d.frames_consumed ≡ 0
  pub bytes : d.bytes_consumed ≡ 0
  pub irqs : d.irq_count ≡ 0
  pub crcs : d.crc_errors ≡ 0

abbrev pub IsFresh : Device → Type 0
IsFresh d = IsIdle d × IsDefault d × IsUncounted d
