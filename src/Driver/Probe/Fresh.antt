-- ===== src/Driver/Probe/Fresh.antt =====
-- The data of a device that `phantomfpga_probe` keeps.
use mathlib.Core.Path.{subst}
use phantomfpga_project.Base.{◌==◌, ◌≡◌, arith, Option, none, some}
use phantomfpga_project.Regs.{reg_dev_id, dev_id_val}
use phantomfpga_project.Driver.Device.{Device, zeroed}
use phantomfpga_project.Driver.Idle.{IsIdle, IsUncounted, IsFresh}
use phantomfpga_project.Driver.Hardware.{setup_msix}
use phantomfpga_project.Driver.Resources.{Kernel}
use phantomfpga_project.Driver.Cdev.{create_cdev}
use phantomfpga_project.Driver.Cdev.Fields.{create_cdev-IsIdle, create_cdev-IsUncounted}
use phantomfpga_project.Driver.Probe.{
  Outcome, err_desc, kept, mapped_at, dma_mask, probe_register, probe_setup, probe_identify,
  probe_map, probe,
}
use phantomfpga_project.Driver.Probe.Paths.{check-holds, check_pointer-holds, if-holds}

abbrev IfKept : (Device → Type 0) → Option Device → Type 0
IfKept P none = Unit
IfKept P (some d) = P d

abbrev KeepsFresh : Outcome → Type 0
KeepsFresh o = IfKept IsFresh o.device

module _ (k : Kernel) (d : Device) (idle : IsIdle d) (uncounted : IsUncounted d) where
  probe_register-fresh : KeepsFresh (probe_register k d)
  unfolding probe_register err_desc
  probe_register-fresh =
      check-holds KeepsFresh (create_cdev k d).status _ (kept (create_cdev k d).device) (λ e. tt)
        (ground (arith, create_cdev-IsIdle k d idle, create_cdev-IsUncounted k d uncounted))

probe_setup-fresh :
    (k : Kernel) (d : Device) → IsIdle d → IsUncounted d → KeepsFresh (probe_setup k d)
unfolding probe_setup
probe_setup-fresh k d idle uncounted =
    probe_register-fresh k (setup_msix d).1 (ground arith) (ground arith)

probe_identify-fresh :
    (k : Kernel) (d : Device) → IsIdle d → IsUncounted d → KeepsFresh (probe_identify k d)
unfolding probe_identify
probe_identify-fresh k d idle uncounted =
    if-holds KeepsFresh (k.ioread32 reg_dev_id == dev_id_val) _ _
      (check-holds KeepsFresh (dma_mask k) _ _ (λ e. tt) (probe_setup-fresh k d idle uncounted)) tt

kept_fresh : (k : Kernel) → KeepsFresh (probe k)
unfolding probe probe_map
kept_fresh k =
    if-holds KeepsFresh k.kzalloc _ _
      (check-holds KeepsFresh k.pci_enable_device _ _ (λ e. tt)
        (check-holds KeepsFresh k.pci_request_region _ _ (λ e. tt)
          (check_pointer-holds KeepsFresh k.pci_iomap _ _ tt
            (λ a. probe_identify-fresh k (mapped_at k zeroed a) (ground arith) (ground arith)))))
      tt

-- A device that `probe` keeps has its registers mapped, the header's default configuration,
-- counters and indices at 0 and both locks free, and is neither configured nor streaming.
pub probe-IsFresh : (k : Kernel) (d : Device) → (probe k).device ≡ some d → IsFresh d
probe-IsFresh k d e = subst (IfKept IsFresh) e (kept_fresh k)
