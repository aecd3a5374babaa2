-- ===== src/Driver/Device.antt =====
-- The driver's private data for one device, and the codes that its functions return.
use phantomfpga_project.Base.{ℕ, Bool, false, Option, none, ℤ, pos, ◌+◌}
use phantomfpga_project.Uapi.{frame_size}
use phantomfpga_project.Regs.{compl_size}

-- The errors that the driver names; `other` is the code of a kernel function.
pub data Errno : Type 0 where
  eperm einval enomem efault enodev enotty enotsupp : Errno
  other : ℕ → Errno

-- A C return value: 0, or an error's negative.
pub data Status : Type 0 where
  ok : Status
  fail : Errno → Status

-- `struct phantomfpga_dev`. Pointers are addresses, `none` for NULL. A lock is whether it is held.
-- The PCI device, the wait queue and the cdev are the kernel's and have no field.
pub record Device : Type 0 where
  pub regs : Option ℕ
  pub regs_start : ℕ
  pub regs_len : ℕ
  pub desc_ring : Option ℕ
  pub desc_count : ℕ
  pub buffers : Option ℕ
  pub buffer_size : ℕ
  pub frame_rate : ℕ
  pub irq_coalesce_count : ℕ
  pub irq_coalesce_timeout : ℕ
  pub configured : Bool
  pub streaming : Bool
  pub desc_head : ℕ
  pub desc_tail : ℕ
  pub shadow_tail : ℕ
  pub consumer : ℕ
  pub frames_consumed : ℕ
  pub bytes_consumed : ℕ
  pub irq_count : ℕ
  pub crc_errors : ℕ
  pub lock : Bool
  pub ioctl_lock : Bool
  pub devno : ℕ
  pub dev : Option ℕ
  pub minor : ℕ
  pub num_vectors : ℤ
  pub irq_complete : ℤ
  pub irq_error : ℤ
  pub irq_no_desc : ℤ

-- What `kzalloc` hands out, its locks initialised.
abbrev pub zeroed : Device
zeroed = record {
  regs = none;
  regs_start = 0;
  regs_len = 0;
  desc_ring = none;
  desc_count = 0;
  buffers = none;
  buffer_size = 0;
  frame_rate = 0;
  irq_coalesce_count = 0;
  irq_coalesce_timeout = 0;
  configured = false;
  streaming = false;
  desc_head = 0;
  desc_tail = 0;
  shadow_tail = 0;
  consumer = 0;
  frames_consumed = 0;
  bytes_consumed = 0;
  irq_count = 0;
  crc_errors = 0;
  lock = false;
  ioctl_lock = false;
  devno = 0;
  dev = none;
  minor = 0;
  num_vectors = pos 0;
  irq_complete = pos 0;
  irq_error = pos 0;
  irq_no_desc = pos 0;
}

abbrev pub max_devices : ℕ
max_devices = 4

-- `PHANTOMFPGA_BUFFER_SIZE`.
abbrev pub buffer_bytes : ℕ
buffer_bytes = frame_size + compl_size
