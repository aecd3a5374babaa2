-- ===== src/Driver/Ioctl.antt =====
-- `pfpga_ioctl`. The macros of <linux/ioctl.h> are parameters, and so are the registers' values
-- and whether a copy to user memory faults.
pub mod Decode
pub mod Effect
use phantomfpga_project.Base.{ℕ, Bool, true, false, ◌*◌, ◌<◌, ◌^◌, ◌≡◌, ltb, ◌==◌, if◌then◌else◌}
use phantomfpga_project.Base.{Option, none, some, u64}
use phantomfpga_project.Uapi.{Config, Stats, BufferInfo, frame_size, ioc_magic, ioc_maxnr}
use phantomfpga_project.Uapi.Layout.{
  aligned_size, config_fields, stats_fields, buffer_info_fields, fault_cfg_fields,
}
use phantomfpga_project.Regs.{
  reg_stat_frames_tx, reg_stat_frames_drop, reg_stat_desc_compl, reg_stat_errors, reg_current_frame,
  reg_status,
}
use phantomfpga_project.Driver.Device.{Device, Status, ok, fail, einval, efault, enotty, enotsupp}
use phantomfpga_project.Driver.Hardware.{start_streaming, stop_streaming}

-- The macros, and what they document: a command's type and number can be read back from it.
pub record IoctlMacros : Type 0 where
  pub io : ℕ → ℕ → ℕ
  pub ior : ℕ → ℕ → ℕ → ℕ
  pub iow : ℕ → ℕ → ℕ → ℕ
  pub ioc_type : ℕ → ℕ
  pub ioc_nr : ℕ → ℕ

pub record AreMacros (m : IoctlMacros) : Type 0 where
  pub io-fields :
      (t n : ℕ) → t < 2 ^ 8 → n < 2 ^ 8 → (m.ioc_type (m.io t n) ≡ t) × (m.ioc_nr (m.io t n) ≡ n)
  pub ior-fields :
      (t n size : ℕ)
      → t < 2 ^ 8
      → n < 2 ^ 8
      → size < 2 ^ 13
      → (m.ioc_type (m.ior t n size) ≡ t) × (m.ioc_nr (m.ior t n size) ≡ n)
  pub iow-fields :
      (t n size : ℕ)
      → t < 2 ^ 8
      → n < 2 ^ 8
      → size < 2 ^ 13
      → (m.ioc_type (m.iow t n size) ≡ t) × (m.ioc_nr (m.iow t n size) ≡ n)

pub data Command : Type 0 where
  set_cfg get_cfg start stop get_stats reset_stats get_buffer_info consume_frame : Command
  set_fault : Command

-- `PHANTOMFPGA_IOCTL_*`.
unfoldable pub code : IoctlMacros → Command → ℕ
code m set_cfg = m.iow ioc_magic 1 (aligned_size config_fields)
code m get_cfg = m.ior ioc_magic 2 (aligned_size config_fields)
code m start = m.io ioc_magic 3
code m stop = m.io ioc_magic 4
code m get_stats = m.ior ioc_magic 5 (aligned_size stats_fields)
code m reset_stats = m.io ioc_magic 6
code m get_buffer_info = m.ior ioc_magic 7 (aligned_size buffer_info_fields)
code m consume_frame = m.io ioc_magic 8
code m set_fault = m.iow ioc_magic 9 (aligned_size fault_cfg_fields)

-- What is written to user memory.
pub data Reply : Type 0 where
  config : Config → Reply
  stats : Stats → Reply
  buffer_info : BufferInfo → Reply

pub record Call : Type 0 where
  pub status : Status
  pub device : Device
  pub reply : Option Reply

abbrev pub returns : Status → Device → Call
returns s d = record { status = s; device = d; reply = none }

-- `if (copy_to_user(...)) ret = -EFAULT;`. A copy that faults counts as no reply.
abbrev copy_to_user : Bool → Reply → Device → Call
copy_to_user true r d = returns (fail efault) d
copy_to_user false r d = record { status = ok; device = d; reply = some r }

abbrev pub config_of : Device → Config
config_of d = record {
  desc_count = d.desc_count;
  frame_rate = d.frame_rate;
  irq_coalesce_count = d.irq_coalesce_count;
  irq_coalesce_timeout = d.irq_coalesce_timeout;
}

-- The driver's counters beside the device's; the fields that are not set stay at `memset`'s 0.
abbrev pub stats_of : (ℕ → ℕ) → Device → Stats
stats_of read32 d = record {
  frames_produced = read32 reg_stat_frames_tx;
  frames_dropped = read32 reg_stat_frames_drop;
  frames_consumed = d.frames_consumed;
  bytes_produced = 0;
  bytes_consumed = d.bytes_consumed;
  desc_completed = read32 reg_stat_desc_compl;
  errors = read32 reg_stat_errors;
  crc_errors = d.crc_errors;
  irq_count = d.irq_count;
  desc_head = 0;
  desc_tail = 0;
  current_frame = read32 reg_current_frame;
  status = read32 reg_status;
}

abbrev buffer_info_of : Device → BufferInfo
buffer_info_of d = record {
  buffer_size = d.buffer_size;
  buffer_count = d.desc_count;
  total_size = u64 (d.buffer_size * d.desc_count);
  frame_size = frame_size;
}

abbrev spin_lock : Device → Device
spin_lock d = record d { lock = true }

abbrev spin_unlock : Device → Device
spin_unlock d = record d { lock = false }

abbrev pub clear_counters : Device → Device
clear_counters d = record d {
  frames_consumed = 0;
  bytes_consumed = 0;
  irq_count = 0;
  crc_errors = 0;
}

module _ (read32 : ℕ → ℕ) (fault : Bool) where
  -- The cases of the switch.
  pub handle : Command → Device → Call
  unfolding start_streaming stop_streaming
  handle set_cfg d = returns (fail enotsupp) d
  handle get_cfg d = copy_to_user fault (config (config_of d)) d
  handle start d = let (s, d') = start_streaming d in returns s d'
  handle stop d = let (s, d') = stop_streaming d in returns s d'
  handle get_stats d =
      copy_to_user fault (stats (stats_of read32 (spin_lock d))) (spin_unlock (spin_lock d))
  handle reset_stats d = returns ok (spin_unlock (clear_counters (spin_lock d)))
  handle get_buffer_info d =
      if d.configured
      then copy_to_user fault (buffer_info (buffer_info_of d)) d
      else returns (fail einval) d
  handle consume_frame d = returns (fail enotsupp) d
  handle set_fault d = returns (fail enotsupp) d

  module _ (m : IoctlMacros) where
    dispatch : ℕ → Device → Call
    dispatch cmd d =
        if cmd == code m set_cfg
        then handle set_cfg d
        else if cmd == code m get_cfg
        then handle get_cfg d
        else if cmd == code m start
        then handle start d
        else if cmd == code m stop
        then handle stop d
        else if cmd == code m get_stats
        then handle get_stats d
        else if cmd == code m reset_stats
        then handle reset_stats d
        else if cmd == code m get_buffer_info
        then handle get_buffer_info d
        else if cmd == code m consume_frame
        then handle consume_frame d
        else if cmd == code m set_fault
        then handle set_fault d
        else returns (fail enotty) d

    abbrev pub mutex_unlock : Call → Call
    mutex_unlock c = record c { device = record c.device { ioctl_lock = false } }

    pub ioctl : ℕ → Device → Call
    ioctl cmd d =
        if m.ioc_type cmd == ioc_magic
        then (if ltb ioc_maxnr (m.ioc_nr cmd)
            then returns (fail enotty) d
            else mutex_unlock (dispatch cmd (record d { ioctl_lock = true })))
        else returns (fail enotty) d
