-- ===== src/Driver/Probe/Remove.antt =====
-- `phantomfpga_remove` after `phantomfpga_probe`.
use phantomfpga_project.Base.{◌≡◌, ◌∙◌, ap, arith, some, List, [], ◌∷◌, ◌++◌}
use phantomfpga_project.Driver.Device.{Device}
use phantomfpga_project.Driver.Idle.{IsIdle}
use phantomfpga_project.Driver.Resources.{
  Kernel, Event, release, dev_memory, pci_device, bar0_region, replay, replay-append, bind_held,
}
use phantomfpga_project.Driver.Cdev.{destroy_cdev, destroy_cdev-balanced}
use phantomfpga_project.Driver.Probe.{probe, remove, quiesce, unmap}
use phantomfpga_project.Driver.Probe.Balance.{mapped, probe_held, probe-balanced}
use phantomfpga_project.Driver.Probe.Fresh.{probe-IsFresh}

pub quiesce_lem : (d : Device) → quiesce d ≡ d
unfolding quiesce
quiesce_lem d = ground arith

abbrev unmap_and_free : Device → List Event
unmap_and_free d =
    unmap d.regs ++ (release bar0_region ∷ release pci_device ∷ release dev_memory ∷ [])

unmap_and_free-balanced : (d : Device) → IsIdle d → replay (unmap_and_free d) mapped ≡ some []
unmap_and_free-balanced d idle = rw idle.mapped.1

remove-balanced : (d : Device) → IsIdle d → replay (remove d) (probe_held (some d)) ≡ some []
unfolding remove
remove-balanced d idle = rw (quiesce_lem d) (
    replay-append (destroy_cdev d) (unmap_and_free d) (probe_held (some d))
    ∙ ap (λ h. bind_held h (replay (unmap_and_free d))) (destroy_cdev-balanced d mapped)
    ∙ unmap_and_free-balanced d idle)

-- Removing a device that `probe` kept gives back everything that was taken for it, the last
-- taken first, and nothing else: after both nothing is held.
pub remove-probe :
    (k : Kernel) (d : Device)
    → (probe k).device ≡ some d
    → replay ((probe k).events ++ remove d) [] ≡ some []
remove-probe k d kept =
    replay-append (probe k).events (remove d) []
    ∙ ap (λ h. bind_held h (replay (remove d)))
        (probe-balanced k ∙ ap (λ o. some (probe_held o)) kept)
    ∙ remove-balanced d (probe-IsFresh k d kept).0
