-- ===== src/Driver/Probe/Numbers.antt =====
-- The minor numbers that `phantomfpga_probe` takes and `phantomfpga_remove` gives back.
use phantomfpga_project.Base.{ℕ, ◌-◌, ◌≡◌, refl, ◌∙◌, arith, erase, erase-head}
use phantomfpga_project.Base.{List, [], ◌∷◌, Option, none, some, ◌==◌}
use phantomfpga_project.Regs.{reg_dev_id, dev_id_val}
use phantomfpga_project.Driver.Device.{Device, zeroed, Status, ok, fail, max_devices}
use phantomfpga_project.Driver.Idle.{IsIdle}
use phantomfpga_project.Driver.Resources.{Kernel, got, Event}
use phantomfpga_project.Driver.Cdev.{create_cdev, destroy_cdev}
use phantomfpga_project.Driver.Probe.{
  Outcome, err_desc, kept, mapped_at, dma_mask, probe_register, probe_setup, probe_identify,
  probe_map, probe, remove, check, after,
}
use phantomfpga_project.Driver.Probe.Paths.{check-holds, check_pointer-holds, if-holds}
use phantomfpga_project.Driver.Probe.Remove.{quiesce_lem}
use phantomfpga_project.Driver.Minors.{track, track-append}

abbrev with_minor : Status → Device → List ℕ → List ℕ
with_minor ok d ids = d.minor ∷ ids
with_minor (fail e) d ids = ids

module _ (k : Kernel) (ids : List ℕ) where
  create_cdev-track :
      (d : Device)
      → let made = create_cdev k d in track made.events ids ≡ with_minor made.status made.device ids
  unfolding create_cdev
  create_cdev-track d = grind (arith, erase-head)

  create_cdev-minor :
      (d : Device)
      → (create_cdev k d).status ≡ ok
      → k.ida_alloc_max (max_devices - 1) ≡ got (create_cdev k d).device.minor
  unfolding create_cdev
  create_cdev-minor d e = ground arith

  -- A device that is kept holds the number that the allocator answered, and no other is taken.
  abbrev pub Numbered : List Event → Option Device → Type 0
  Numbered es none = track es ids ≡ ids
  Numbered es (some d) =
      (track es ids ≡ d.minor ∷ ids) × (k.ida_alloc_max (max_devices - 1) ≡ got d.minor)

  abbrev Numbers : Outcome → Type 0
  Numbers o = Numbered o.events o.device

  registered :
      (es : List Event) (s : Status) (d : Device)
      → track es ids ≡ with_minor s d ids
      → (s ≡ ok → k.ida_alloc_max (max_devices - 1) ≡ got d.minor)
      → Numbers (after es (check s (err_desc d) (kept d)))
  unfolding err_desc
  registered es ok d tracked asked = (track-append es [] ids ∙ tracked, asked refl)
  registered es (fail e) d tracked asked = track-append es _ ids ∙ tracked

  probe_register-Numbers : (d : Device) → Numbers (probe_register k d)
  unfolding probe_register
  probe_register-Numbers d =
      let made = create_cdev k d in
      registered made.events made.status made.device (create_cdev-track d) (create_cdev-minor d)

  probe_setup-Numbers : (d : Device) → Numbers (probe_setup k d)
  unfolding probe_setup
  probe_setup-Numbers d = probe_register-Numbers _

  probe_identify-Numbers : (d : Device) → Numbers (probe_identify k d)
  unfolding probe_identify
  probe_identify-Numbers d =
      if-holds Numbers (k.ioread32 reg_dev_id == dev_id_val) _ _
        (check-holds Numbers (dma_mask k) _ _ (λ e. refl) (probe_setup-Numbers d)) refl

  pub probe-Numbered : Numbered (probe k).events (probe k).device
  unfolding probe probe_map
  probe-Numbered =
      if-holds Numbers k.kzalloc _ _
        (check-holds Numbers k.pci_enable_device _ _ (λ e. refl)
          (check-holds Numbers k.pci_request_region _ _ (λ e. refl)
            (check_pointer-holds Numbers k.pci_iomap _ _ refl
              (λ a. probe_identify-Numbers (mapped_at k zeroed a)))))
        refl

pub remove-track : (d : Device) (ids : List ℕ) → IsIdle d → track (remove d) ids ≡ erase d.minor ids
unfolding remove destroy_cdev
remove-track d ids idle = rw (quiesce_lem d, idle.mapped.1) refl
