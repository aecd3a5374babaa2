-- ===== src/Driver/Life.antt =====
-- The life of a device between `probe` and `remove`: any sequence of file operations, ioctl calls
-- and interrupts, one after the other (the ioctl lock and the spinlock serialise them).
use phantomfpga_project.Base.{ℕ, Bool, false, ◌≡◌, refl, ap, ◌∙◌, arith, some}
use phantomfpga_project.Base.{List, [], ◌∷◌, ◌++◌}
use phantomfpga_project.Driver.Device.{Device, fail, einval, enotsupp}
use phantomfpga_project.Driver.Idle.{IsFresh}
use phantomfpga_project.Driver.Hardware.{handle_irq_complete, handle_irq_error, handle_irq_no_desc}
use phantomfpga_project.Driver.FileOps.{
  open_file, release_file, read_frames, write_frames, poll, mmap,
}
use phantomfpga_project.Driver.Resources.{Kernel, replay}
use phantomfpga_project.Driver.Probe.{probe, remove}
use phantomfpga_project.Driver.Probe.Fresh.{probe-IsFresh}
use phantomfpga_project.Driver.Probe.Remove.{remove-probe}
use phantomfpga_project.Driver.Ioctl.{
  IoctlMacros, AreMacros, code, get_cfg, start, get_buffer_info, config, ioctl,
}
use phantomfpga_project.Driver.Ioctl.Effect.{
  ioctl_changes, get_cfg_default, start_refused, get_buffer_info_refused, default_settings,
}

pub data Action : Type 0 where
  opened closed polled : Action
  reads : ℕ → Action
  writes : ℕ → Action
  maps : ℕ → ℕ → Action
  -- With the registers as they are at the call, and whether the copy to user memory faults.
  controls : (read32 : ℕ → ℕ) (fault : Bool) (cmd : ℕ) → Action
  irq_complete irq_error irq_no_desc : Action

perform : IoctlMacros → Action → Device → Device
unfolding open_file release_file read_frames write_frames poll mmap handle_irq_complete
    handle_irq_error handle_irq_no_desc
perform m opened d = (open_file d).1
perform m closed d = (release_file d).1
perform m polled d = (poll d).1
perform m (reads count) d = (read_frames d count).1
perform m (writes count) d = (write_frames d count).1
perform m (maps size offset) d = (mmap d size offset).1
perform m (controls read32 fault cmd) d = (ioctl read32 fault m cmd d).device
perform m irq_complete d = (handle_irq_complete d).1
perform m irq_error d = (handle_irq_error d).1
perform m irq_no_desc d = (handle_irq_no_desc d).1

pub run : IoctlMacros → List Action → Device → Device
unfolding perform
run m [] d = d
run m (a ∷ acts) d = run m acts (perform m a d)

perform_fresh : (m : IoctlMacros) (a : Action) (d : Device) → IsFresh d → perform m a d ≡ d
unfolding perform
perform_fresh m (controls read32 fault cmd) d (idle, default, uncounted) =
    ground (arith, ioctl_changes m read32 fault d cmd idle.lock_free idle.ioctl_lock_free)
perform_fresh m _ d h = refl

pub run_fresh : (m : IoctlMacros) (acts : List Action) (d : Device) → IsFresh d → run m acts d ≡ d
unfolding run
run_fresh m [] d h = refl
run_fresh m (a ∷ acts) d h = ap (run m acts) (perform_fresh m a d h) ∙ run_fresh m acts d h

module _ (m : IoctlMacros) (k : Kernel) (d : Device) (kept : (probe k).device ≡ some d)
    (acts : List Action) where
  run-probe : run m acts d ≡ d
  run-probe = run_fresh m acts d (probe-IsFresh k d kept)

  -- Whatever is done with a device between, removing it gives back all that `probe` took for it,
  -- the last taken first, and nothing else.
  pub remove-run : replay ((probe k).events ++ remove (run m acts d)) [] ≡ some []
  remove-run = rw run-probe (remove-probe k d kept)

  -- After `probe`, and after any sequence of file operations, ioctl calls and interrupts, with
  -- macros that do what is documented: the device is not configured and does not stream, `START` is
  -- refused with ENOTSUPP, `GET_BUFFER_INFO` with EINVAL, and `GET_CFG` still reports the header's
  -- default configuration.
  pub never_configured :
      AreMacros m
      → (read32 : ℕ → ℕ)
      → let now = run m acts d in
        (now.configured ≡ false)
        × (now.streaming ≡ false)
        × ((ioctl read32 false m (code m start) now).status ≡ fail enotsupp)
        × ((ioctl read32 false m (code m get_buffer_info) now).status ≡ fail einval)
        × ((ioctl read32 false m (code m get_cfg) now).reply ≡ some (config default_settings))
  never_configured laws read32 =
      let (idle, default, uncounted) = probe-IsFresh k d kept in
      rw run-probe (
        idle.unconfigured,
        idle.stopped,
        start_refused m laws read32 d,
        get_buffer_info_refused m laws read32 d idle.unconfigured,
        (get_cfg_default m laws read32 d default).1,
      )
