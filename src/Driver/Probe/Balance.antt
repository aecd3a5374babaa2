-- ===== src/Driver/Probe/Balance.antt =====
-- `phantomfpga_probe` gives everything back when it fails, and `phantomfpga_remove` when it
-- succeeded, each in the opposite order of taking.
use phantomfpga_project.Base.{◌≡◌, refl, ◌∙◌, ap, arith, none, some, Option, List, [], ◌∷◌, ◌++◌}
use phantomfpga_project.Driver.Device.{Device, zeroed, Status, ok, fail}
use phantomfpga_project.Driver.Resources.{
  Kernel, Resource, dev_memory, pci_device, bar0_region, bar0_mapping, Event, replay, replay-append,
  bind_held,
}
use phantomfpga_project.Driver.Cdev.{cdev_held, create_cdev, create_cdev-balanced}
use phantomfpga_project.Driver.Probe.{
  Outcome, err_desc, mapped_at, probe_register, probe_setup, probe_identify, probe_map, probe,
  check, after, kept,
}
use phantomfpga_project.Driver.Probe.Paths.{check-holds, check_pointer-holds, if-holds}

abbrev pub mapped : List Resource
mapped = bar0_mapping ∷ bar0_region ∷ pci_device ∷ dev_memory ∷ []

-- What is held on behalf of a device that `probe` kept, the last taken first.
abbrev pub probe_held : Option Device → List Resource
probe_held none = []
probe_held (some d) = cdev_held ok d ++ mapped

-- An outcome reached with these resources held leaves what its device stands for.
abbrev Leaves : List Resource → Outcome → Type 0
Leaves held o = replay o.events held ≡ some (probe_held o.device)

module _ (held : List Resource) where
  after-Leaves :
      (es : List Event) (mid : List Resource) (o : Outcome)
      → replay es held ≡ some mid
      → Leaves mid o
      → Leaves held (after es o)
  after-Leaves es mid o first rest =
      replay-append es o.events held ∙ ap (λ h. bind_held h (replay o.events)) first ∙ rest

registered :
    (es : List Event) (s : Status) (d : Device)
    → replay es mapped ≡ some (cdev_held s d ++ mapped)
    → Leaves mapped (after es (check s (err_desc d) (kept d)))
unfolding err_desc
registered es ok d h = after-Leaves mapped es (cdev_held ok d ++ mapped) (kept d) h refl
registered es (fail e) d h = after-Leaves mapped es mapped (err_desc d e) h refl

probe_register-Leaves : (k : Kernel) (d : Device) → Leaves mapped (probe_register k d)
unfolding probe_register
probe_register-Leaves k d =
    let made = create_cdev k d in
    registered made.events made.status made.device (create_cdev-balanced k d mapped)

probe_setup-Leaves : (k : Kernel) (d : Device) → Leaves mapped (probe_setup k d)
unfolding probe_setup
probe_setup-Leaves k d = probe_register-Leaves k _

probe_identify-Leaves : (k : Kernel) (d : Device) → Leaves mapped (probe_identify k d)
unfolding probe_identify
probe_identify-Leaves k d = ground (arith, probe_setup-Leaves k d)

probe_map-Leaves :
    (k : Kernel) (d : Device) → Leaves (bar0_region ∷ pci_device ∷ dev_memory ∷ []) (probe_map k d)
unfolding probe_map
probe_map-Leaves k d =
    check_pointer-holds (Leaves (bar0_region ∷ pci_device ∷ dev_memory ∷ [])) k.pci_iomap _ _ refl
      (λ a. probe_identify-Leaves k (mapped_at k d a))

-- Whatever the kernel answers, `probe` reads the registers only while they are mapped and gives
-- back only what it took last; when it keeps no device nothing is held at its return, and when it
-- keeps one exactly that device's resources are.
pub probe-balanced : (k : Kernel) → replay (probe k).events [] ≡ some (probe_held (probe k).device)
unfolding probe
probe-balanced k =
    if-holds (Leaves []) k.kzalloc _ _
      (check-holds (Leaves (dev_memory ∷ [])) k.pci_enable_device _ _ (λ e. refl)
        (check-holds (Leaves (pci_device ∷ dev_memory ∷ [])) k.pci_request_region _ _ (λ e. refl)
          (probe_map-Leaves k zeroed)))
      refl
