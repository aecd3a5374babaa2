-- ===== src/Driver/Ioctl/Effect.antt =====
-- What an ioctl call does to the device's data, and what it tells the caller.
use phantomfpga_project.Base.{
  ℕ, Bool, false, ◌==◌, ==_iff, ◌≡◌, ◌⊎◌, inl, inr, Bool-cases, if◌then◌else◌, arith, some,
}
use phantomfpga_project.Regs.{
  reg_stat_frames_tx, reg_stat_frames_drop, reg_stat_desc_compl, reg_stat_errors, reg_current_frame,
  reg_status, default_desc_count, default_frame_rate, default_irq_count, default_irq_timeout,
}
use phantomfpga_project.Uapi.{Config, Stats}
use phantomfpga_project.Driver.Device.{Device, ok, fail, einval, enotsupp}
use phantomfpga_project.Driver.Hardware.{start_streaming}
use phantomfpga_project.Driver.Idle.{IsDefault}
use phantomfpga_project.Driver.Ioctl.{
  IoctlMacros, AreMacros, get_cfg, start, get_stats, get_buffer_info, reset_stats, code, config,
  stats, clear_counters, handle, dispatch, ioctl,
}
use phantomfpga_project.Driver.Ioctl.Decode.{ioctl_handles}

-- For any macros.
pub ioctl_changes :
    (m : IoctlMacros) (read32 : ℕ → ℕ) (fault : Bool) (d : Device) (cmd : ℕ)
    → d.lock ≡ false
    → d.ioctl_lock ≡ false
    → ((ioctl read32 fault m cmd d).device ≡ d)
      ⊎ ((ioctl read32 fault m cmd d).device ≡ clear_counters d)
unfolding ioctl dispatch handle
ioctl_changes m read32 fault d cmd free ioctl_free = ground arith

module _ (m : IoctlMacros) (laws : AreMacros m) (read32 : ℕ → ℕ) (fault : Bool) (d : Device)
    (cmd : ℕ) (free : d.lock ≡ false) (ioctl_free : d.ioctl_lock ≡ false) where
  only_reset : (cmd == code m reset_stats) ≡ false → (ioctl read32 fault m cmd d).device ≡ d
  unfolding ioctl dispatch handle
  only_reset other = ground arith

  -- With macros that do what is documented and both locks free: `RESET_STATS` sets frames_consumed,
  -- bytes_consumed, irq_count and crc_errors to 0 and changes nothing else in the device's data, and
  -- a call with any other command number changes nothing; both locks are free again afterwards.
  pub ioctl_effect : (ioctl read32 fault m cmd d).device ≡ (
      if cmd == code m reset_stats
      then record d { frames_consumed = 0; bytes_consumed = 0; irq_count = 0; crc_errors = 0 }
      else d)
  unfolding handle
  ioctl_effect = elim (Bool-cases (cmd == code m reset_stats)) [
    | inl reset ↦
        rw (reset, (==_iff cmd (code m reset_stats)).0 reset)
          (rw (ioctl_handles m laws read32 fault d reset_stats) (ground arith))
    | inr other ↦ rw other (only_reset other)
  ]

-- The device's counters as its registers read, and nothing counted by the driver. The produced
-- bytes, the head and the tail are 0 whatever the registers hold.
abbrev pub uncounted_stats : (ℕ → ℕ) → Stats
uncounted_stats read32 = record {
  frames_produced = read32 reg_stat_frames_tx;
  frames_dropped = read32 reg_stat_frames_drop;
  frames_consumed = 0;
  bytes_produced = 0;
  bytes_consumed = 0;
  desc_completed = read32 reg_stat_desc_compl;
  errors = read32 reg_stat_errors;
  crc_errors = 0;
  irq_count = 0;
  desc_head = 0;
  desc_tail = 0;
  current_frame = read32 reg_current_frame;
  status = read32 reg_status;
}

abbrev pub default_settings : Config
default_settings = record {
  desc_count = default_desc_count;
  frame_rate = default_frame_rate;
  irq_coalesce_count = default_irq_count;
  irq_coalesce_timeout = default_irq_timeout;
}

module _ (m : IoctlMacros) (laws : AreMacros m) (read32 : ℕ → ℕ) (d : Device) where
  -- `GET_STATS` after `RESET_STATS` succeeds, if the copy to user memory does, and reports the six
  -- device registers as they read and 0 in every other field.
  pub get_stats-reset_stats :
      (fault : Bool)
      → let reset = ioctl read32 fault m (code m reset_stats) d in
        let got = ioctl read32 false m (code m get_stats) reset.device in
        (reset.status ≡ ok)
        × (got.status ≡ ok)
        × (got.reply ≡ some (stats (uncounted_stats read32)))
  unfolding handle
  get_stats-reset_stats fault =
      rw (ioctl_handles m laws read32 fault d reset_stats)
        (rw (ioctl_handles m laws read32 false _ get_stats) (ground arith))

  -- `GET_CFG` on a device with the default configuration reports it.
  pub get_cfg_default :
      IsDefault d
      → let got = ioctl read32 false m (code m get_cfg) d in
        (got.status ≡ ok) × (got.reply ≡ some (config default_settings))
  unfolding handle
  get_cfg_default h = rw (ioctl_handles m laws read32 false d get_cfg) (ground arith)

  pub start_refused : (ioctl read32 false m (code m start) d).status ≡ fail enotsupp
  unfolding handle start_streaming
  start_refused = rw (ioctl_handles m laws read32 false d start)

  pub get_buffer_info_refused :
      d.configured ≡ false → (ioctl read32 false m (code m get_buffer_info) d).status ≡ fail einval
  unfolding handle
  get_buffer_info_refused h =
      rw (ioctl_handles m laws read32 false d get_buffer_info) (ground arith)
