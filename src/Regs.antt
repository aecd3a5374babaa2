-- ===== src/Regs.antt =====
-- driver/phantomfpga_regs.h: register offsets and values, and the inline helpers on registers,
-- buffers and descriptor rings.
pub mod Ring
pub mod Coalesce
pub mod Buffer
pub mod Registers
use phantomfpga_project.Base.{ℕ, ◌+◌, ◌-◌}
use phantomfpga_project.Uapi.{frame_size}
use phantomfpga_project.Uapi.Layout.{packed_size, completion_fields, frame_header_fields}

abbrev pub dev_id_val : ℕ
dev_id_val = 0xF00DFACE

abbrev pub dev_ver : ℕ
dev_ver = 0x00030000

abbrev pub default_frame_rate : ℕ
default_frame_rate = 25

abbrev pub default_desc_count : ℕ
default_desc_count = 256

abbrev pub default_irq_count : ℕ
default_irq_count = 8

abbrev pub default_irq_timeout : ℕ
default_irq_timeout = 40000

abbrev pub min_frame_rate : ℕ
min_frame_rate = 1

abbrev pub max_frame_rate : ℕ
max_frame_rate = 60

abbrev pub min_desc_count : ℕ
min_desc_count = 4

abbrev pub max_desc_count : ℕ
max_desc_count = 4096

-- The registers that the driver reads.
abbrev pub reg_dev_id : ℕ
reg_dev_id = 0x000

abbrev pub reg_dev_ver : ℕ
reg_dev_ver = 0x004

abbrev pub reg_status : ℕ
reg_status = 0x00C

abbrev pub reg_current_frame : ℕ
reg_current_frame = 0x01C

abbrev pub reg_stat_frames_tx : ℕ
reg_stat_frames_tx = 0x040

abbrev pub reg_stat_frames_drop : ℕ
reg_stat_frames_drop = 0x044

abbrev pub reg_stat_desc_compl : ℕ
reg_stat_desc_compl = 0x050

abbrev pub reg_stat_errors : ℕ
reg_stat_errors = 0x054

-- `PHANTOMFPGA_COMPL_SIZE`, `PHANTOMFPGA_FRAME_HDR_SIZE`, `PHANTOMFPGA_FRAME_CRC_OFFSET`.
abbrev pub compl_size : ℕ
compl_size = packed_size completion_fields

abbrev pub frame_hdr_size : ℕ
frame_hdr_size = packed_size frame_header_fields

abbrev pub frame_crc_offset : ℕ
frame_crc_offset = frame_size - 4
