-- ===== src/Uapi.antt =====
-- driver/phantomfpga_uapi.h: the interface between user programs and the driver. Constants, the
-- structures that cross it, and their layouts.
pub mod Layout
pub mod Abi
mod Tests
use phantomfpga_project.Base.{ℕ, ◌*◌, List, [], ◌∷◌, ◌++◌}

abbrev pub frame_magic : ℕ
frame_magic = 0xF00DFACE

abbrev pub frame_size : ℕ
frame_size = 5120

abbrev pub frame_count : ℕ
frame_count = 250

abbrev pub frame_data_size : ℕ
frame_data_size = 4995

abbrev pub frame_rows : ℕ
frame_rows = 45

abbrev pub frame_cols : ℕ
frame_cols = 110

-- 'P', the type of every command, and the greatest command number.
abbrev pub ioc_magic : ℕ
ioc_magic = b'P'

abbrev pub ioc_maxnr : ℕ
ioc_maxnr = 9

-- `struct phantomfpga_config`, its reserved words left out.
pub record Config : Type 0 where
  pub desc_count : ℕ
  pub frame_rate : ℕ
  pub irq_coalesce_count : ℕ
  pub irq_coalesce_timeout : ℕ

-- `struct phantomfpga_stats`, its reserved words left out.
pub record Stats : Type 0 where
  pub frames_produced : ℕ
  pub frames_dropped : ℕ
  pub frames_consumed : ℕ
  pub bytes_produced : ℕ
  pub bytes_consumed : ℕ
  pub desc_completed : ℕ
  pub errors : ℕ
  pub crc_errors : ℕ
  pub irq_count : ℕ
  pub desc_head : ℕ
  pub desc_tail : ℕ
  pub current_frame : ℕ
  pub status : ℕ

-- `struct phantomfpga_buffer_info`, its reserved words left out.
pub record BufferInfo : Type 0 where
  pub buffer_size : ℕ
  pub buffer_count : ℕ
  pub total_size : ℕ
  pub frame_size : ℕ
