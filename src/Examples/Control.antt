-- ===== src/Examples/Control.antt =====
-- ioctl calls, with the command encoding of <asm-generic/ioctl.h> for the macros.
use phantomfpga_project.Base.{ℕ, true, false, ◌+◌, ◌*◌, ◌/◌, ◌%◌, ◌^◌, ◌≡◌, ◌≢◌, ◌↔◌, refl, arith}
use phantomfpga_project.Base.{some, List, [], ◌∷◌, ◌++◌}
use phantomfpga_project.Driver.Device.{Device, ok, fail, einval, enotty, enotsupp}
use phantomfpga_project.Driver.Resources.{replay}
use phantomfpga_project.Driver.Probe.{probe, remove}
use phantomfpga_project.Driver.Ioctl.{
  IoctlMacros, AreMacros, Command, set_cfg, get_cfg, start, get_stats, reset_stats, get_buffer_info,
  code, returns, config, stats, handle, mutex_unlock, ioctl,
}
use phantomfpga_project.Driver.Ioctl.Decode.{ioctl-code, ioctl_reject}
use phantomfpga_project.Driver.Ioctl.Effect.{
  ioctl_effect, get_stats-reset_stats, uncounted_stats, default_settings,
}
use phantomfpga_project.Driver.Life.{
  run, opened, reads, controls, irq_complete, remove-run, never_configured, Action,
}
use phantomfpga_project.Examples.Device.{generous, probed, probe-generous}

abbrev generic_macros : IoctlMacros
generic_macros = record {
  io = λ t n. t * 2 ^ 8 + n;
  ior = λ t n size. 2 * 2 ^ 30 + size * 2 ^ 16 + t * 2 ^ 8 + n;
  iow = λ t n size. 2 ^ 30 + size * 2 ^ 16 + t * 2 ^ 8 + n;
  ioc_type = λ cmd. cmd / 2 ^ 8 % 2 ^ 8;
  ioc_nr = λ cmd. cmd % 2 ^ 8;
}

are_macros : AreMacros generic_macros
are_macros = record {
  io-fields = λ t n ht hn. omega arith;
  ior-fields = λ t n size ht hn hs. omega arith;
  iow-fields = λ t n size ht hn hs. omega arith;
}

-- Every register reads its own offset.
abbrev offsets : ℕ → ℕ
offsets offset = offset

abbrev counted : Device
counted = record probed { frames_consumed = 7; bytes_consumed = 35840; irq_count = 3 }

abbrev session : List Action
session =
    opened
    ∷ controls offsets false 0x5003
    ∷ reads 5120
    ∷ irq_complete
    ∷ controls offsets true 0x5006
    ∷ []

ioctl-code_example :
    ((code generic_macros get_cfg ≡ code generic_macros set_cfg) ↔ (get_cfg ≡ set_cfg))
    × (ioctl offsets false generic_macros (code generic_macros get_cfg) probed
        ≡ mutex_unlock offsets false generic_macros
            (handle offsets false get_cfg (record probed { ioctl_lock = true })))
ioctl-code_example = ioctl-code generic_macros are_macros offsets false probed get_cfg set_cfg

-- The type and number of `SET_CFG`, but no direction and size.
abbrev bare_number : ℕ
bare_number = 0x5001

bare_number_ne_code : (c : Command) → bare_number ≢ code generic_macros c
unfolding code
bare_number_ne_code set_cfg = omega arith
bare_number_ne_code _ = omega arith

ioctl_reject_example :
    ioctl offsets false generic_macros bare_number probed ≡ returns (fail enotty) probed
ioctl_reject_example =
    ioctl_reject generic_macros offsets false probed bare_number refl bare_number_ne_code

ioctl_effect_example :
    (ioctl offsets false generic_macros 0x5006 counted).device
    ≡ record counted { frames_consumed = 0; bytes_consumed = 0; irq_count = 0; crc_errors = 0 }
unfolding code
ioctl_effect_example = ioctl_effect generic_macros are_macros offsets false counted 0x5006 refl refl

get_stats-reset_stats_example :
    let reset = ioctl offsets true generic_macros (code generic_macros reset_stats) counted in
    let got = ioctl offsets false generic_macros (code generic_macros get_stats) reset.device in
    (reset.status ≡ ok) × (got.status ≡ ok) × (got.reply ≡ some (stats (uncounted_stats offsets)))
get_stats-reset_stats_example = get_stats-reset_stats generic_macros are_macros offsets counted true

remove-run_example :
    replay ((probe generous).events ++ remove (run generic_macros session probed)) [] ≡ some []
remove-run_example = remove-run generic_macros generous probed probe-generous session

never_configured_example :
    let now = run generic_macros session probed in
    (now.configured ≡ false)
    × (now.streaming ≡ false)
    × ((ioctl offsets false generic_macros (code generic_macros start) now).status ≡ fail enotsupp)
    × ((ioctl offsets false generic_macros (code generic_macros get_buffer_info) now).status
        ≡ fail einval)
    × ((ioctl offsets false generic_macros (code generic_macros get_cfg) now).reply
        ≡ some (config default_settings))
never_configured_example =
    never_configured generic_macros generous probed probe-generous session are_macros offsets
