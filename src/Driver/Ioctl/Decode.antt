-- ===== src/Driver/Ioctl/Decode.antt =====
-- Which case of the switch a command reaches.
use phantomfpga_project.Base.{ℕ, Bool, true, false, ◌≤◌, ◌≡◌, ◌≢◌, ◌↔◌, refl, sym, ap, ◌∙◌, arith}
use phantomfpga_project.Base.{◌==◌, if◌then◌else◌}
use phantomfpga_project.Uapi.{ioc_magic, ioc_maxnr}
use phantomfpga_project.Driver.Device.{Device, fail, enotty}
use phantomfpga_project.Driver.Ioctl.{
  IoctlMacros, AreMacros, Command, set_cfg, get_cfg, start, stop, get_stats, reset_stats,
  get_buffer_info, consume_frame, set_fault, code, returns, handle, dispatch, mutex_unlock, ioctl,
}

abbrev number : Command → ℕ
number set_cfg = 1
number get_cfg = 2
number start = 3
number stop = 4
number get_stats = 5
number reset_stats = 6
number get_buffer_info = 7
number consume_frame = 8
number set_fault = 9

-- The command of a number.
abbrev numbered : ℕ → Command
numbered n =
    if n == 1
    then set_cfg
    else if n == 2
    then get_cfg
    else if n == 3
    then start
    else if n == 4
    then stop
    else if n == 5
    then get_stats
    else if n == 6
    then reset_stats
    else if n == 7
    then get_buffer_info
    else if n == 8
    then consume_frame
    else set_fault

numbered-number : (c : Command) → numbered (number c) ≡ c
numbered-number set_cfg = refl
numbered-number _ = refl

number-injective : (c c' : Command) → number c ≡ number c' → c ≡ c'
number-injective c c' e = sym (numbered-number c) ∙ ap numbered e ∙ numbered-number c'

module _ (m : IoctlMacros) (laws : AreMacros m) where
  open laws use {io-fields, ior-fields, iow-fields}

  code-fields :
      (c : Command) → (m.ioc_type (code m c) ≡ ioc_magic) × (m.ioc_nr (code m c) ≡ number c)
  unfolding code
  code-fields set_cfg = iow-fields _ _ _ (omega arith) (omega arith) (omega arith)
  code-fields get_cfg = ior-fields _ _ _ (omega arith) (omega arith) (omega arith)
  code-fields start = io-fields _ _ (omega arith) (omega arith)
  code-fields stop = io-fields _ _ (omega arith) (omega arith)
  code-fields get_stats = ior-fields _ _ _ (omega arith) (omega arith) (omega arith)
  code-fields reset_stats = io-fields _ _ (omega arith) (omega arith)
  code-fields get_buffer_info = ior-fields _ _ _ (omega arith) (omega arith) (omega arith)
  code-fields consume_frame = io-fields _ _ (omega arith) (omega arith)
  code-fields set_fault = iow-fields _ _ _ (omega arith) (omega arith) (omega arith)

  code-injective : (c c' : Command) → code m c ≡ code m c' → c ≡ c'
  code-injective c c' e =
      number-injective c c' (sym (code-fields c).1 ∙ ap m.ioc_nr e ∙ (code-fields c').1)

  number_bounds : (c : Command) → number c ≤ ioc_maxnr
  number_bounds set_cfg = omega arith
  number_bounds _ = omega arith

  module _ (read32 : ℕ → ℕ) (fault : Bool) where
    dispatch-code :
        (d : Device) (c : Command) → dispatch read32 fault m (code m c) d ≡ handle read32 fault c d
    unfolding dispatch
    dispatch-code d set_cfg = ground (arith, code-fields set_cfg)
    dispatch-code d _ = ground (
      arith,
      code-fields set_cfg,
      code-fields get_cfg,
      code-fields start,
      code-fields stop,
      code-fields get_stats,
      code-fields reset_stats,
      code-fields get_buffer_info,
      code-fields consume_frame,
      code-fields set_fault,
    )

    pub ioctl_handles :
        (d : Device) (c : Command)
        → ioctl read32 fault m (code m c) d
          ≡ mutex_unlock read32 fault m (handle read32 fault c (record d { ioctl_lock = true }))
    unfolding ioctl
    ioctl_handles d c =
        ground
          (arith, code-fields c, number_bounds c, dispatch-code (record d { ioctl_lock = true }) c)

    -- With macros that do what is documented: two commands have the same code exactly when they are
    -- the same command, and the handler runs exactly the case of the command whose code it is
    -- given, with the lock held, and releases the lock.
    pub ioctl-code :
        (d : Device) (c c' : Command)
        → ((code m c ≡ code m c') ↔ (c ≡ c'))
          × (ioctl read32 fault m (code m c) d
              ≡ mutex_unlock read32 fault m
                  (handle read32 fault c (record d { ioctl_lock = true })))
    ioctl-code d c c' = ((code-injective c c', ap (code m)), ioctl_handles d c)

module _ (m : IoctlMacros) (read32 : ℕ → ℕ) (fault : Bool) where
  -- A number that is no command's code returns ENOTTY, writes no reply and leaves a device whose
  -- lock is free as it was.
  pub ioctl_reject :
      (d : Device) (cmd : ℕ)
      → d.ioctl_lock ≡ false
      → ((c : Command) → cmd ≢ code m c)
      → ioctl read32 fault m cmd d ≡ returns (fail enotty) d
  unfolding ioctl dispatch
  ioctl_reject d cmd free other = ground (
    arith,
    other set_cfg,
    other get_cfg,
    other start,
    other stop,
    other get_stats,
    other reset_stats,
    other get_buffer_info,
    other consume_frame,
    other set_fault,
  )
