-- ===== src/Driver/Probe/Answers.antt =====
-- What `phantomfpga_probe` returns, as one function of the kernel's answers.
use phantomfpga_project.Base.{ℕ, Bool, true, false, ◌-◌, ◌==◌, if◌then◌else◌, ◌≡◌, refl, arith}
use phantomfpga_project.Base.{Option, none, some, List, [], ◌∷◌}
use phantomfpga_project.Regs.{reg_dev_id, dev_id_val}
use phantomfpga_project.Driver.Device.{
  Device, zeroed, Status, ok, fail, Errno, enomem, enodev, max_devices,
}
use phantomfpga_project.Driver.Hardware.{setup_msix}
use phantomfpga_project.Driver.Resources.{Kernel, first_failure, answered, expect}
use phantomfpga_project.Driver.Cdev.{create_cdev}
use phantomfpga_project.Driver.Cdev.Fields.{create_cdev-status}
use phantomfpga_project.Driver.Probe.{
  Outcome, check, check_pointer, probe, probe_map, probe_identify, probe_setup, probe_register,
  dma_mask, mapped_at, err_desc, kept,
}

abbrev is_some : Option Device → Bool
is_some none = false
is_some (some d) = true

abbrev present : Option ℕ → Bool
present none = false
present (some a) = true

abbrev is_ok : Status → Bool
is_ok ok = true
is_ok (fail e) = false

-- Either mask will do; the error is that of the narrower one.
abbrev either_mask : Status → Status → Status
either_mask ok narrow = ok
either_mask (fail e) narrow = narrow

abbrev cdev_answers : Kernel → List Status
cdev_answers k =
    answered (k.ida_alloc_max (max_devices - 1)) ∷ k.cdev_add ∷ answered k.device_create ∷ []

abbrev identified_answers : Kernel → List Status
identified_answers k =
    expect (k.ioread32 reg_dev_id == dev_id_val) enodev
    ∷ either_mask (k.dma_set_mask_and_coherent 64) (k.dma_set_mask_and_coherent 32)
    ∷ cdev_answers k

-- The answers that `probe` depends on, in the order in which it asks.
abbrev pub answers : Kernel → List Status
answers k =
    expect k.kzalloc enomem
    ∷ k.pci_enable_device
    ∷ k.pci_request_region
    ∷ expect (present k.pci_iomap) enomem
    ∷ identified_answers k

-- The outcome has the status of the list, and a device exactly if that is 0.
abbrev pub Returns : List Status → Outcome → Type 0
Returns ss o = (o.status ≡ first_failure ss) × (is_some o.device ≡ is_ok (first_failure ss))

check-Returns :
    (s : Status) (ss : List Status) (label : Errno → Outcome) (next : Outcome)
    → ((e : Errno) → Returns (fail e ∷ []) (label e))
    → Returns ss next
    → Returns (s ∷ ss) (check s label next)
check-Returns ok ss label next on_label on_next = on_next
check-Returns (fail e) ss label next on_label on_next = on_label e

check_pointer-Returns :
    (m : Option ℕ) (e : Errno) (ss : List Status) (label : Outcome) (next : ℕ → Outcome)
    → Returns (fail e ∷ []) label
    → ((a : ℕ) → Returns ss (next a))
    → Returns (expect (present m) e ∷ ss) (check_pointer m label next)
check_pointer-Returns none e ss label next on_label on_next = on_label
check_pointer-Returns (some a) e ss label next on_label on_next = on_next a

if-Returns :
    (b : Bool) (e : Errno) (ss : List Status) (yea nay : Outcome)
    → Returns ss yea
    → Returns (fail e ∷ []) nay
    → Returns (expect b e ∷ ss) (if b then yea else nay)
if-Returns true e ss yea nay on_yea on_nay = on_yea
if-Returns false e ss yea nay on_yea on_nay = on_nay

first_failure_one : (s : Status) → first_failure (s ∷ []) ≡ s
first_failure_one ok = refl
first_failure_one (fail e) = refl

probe_register-Returns : (k : Kernel) (d : Device) → Returns (cdev_answers k) (probe_register k d)
unfolding probe_register err_desc
probe_register-Returns k d =
    let made = create_cdev k d in
    let result =
      check-Returns made.status [] (err_desc made.device) (kept made.device) (λ e. (refl, refl))
        (refl, refl) in
    rw (← create_cdev-status k d) (rw first_failure_one at result)

mask_lem :
    (k : Kernel)
    → dma_mask k ≡ either_mask (k.dma_set_mask_and_coherent 64) (k.dma_set_mask_and_coherent 32)
unfolding dma_mask
mask_lem k = ground arith

probe_identify-Returns :
    (k : Kernel) (d : Device) → Returns (identified_answers k) (probe_identify k d)
unfolding probe_identify probe_setup
probe_identify-Returns k d =
    if-Returns (k.ioread32 reg_dev_id == dev_id_val) enodev _ _ _
      (rw (← mask_lem k) (
        check-Returns (dma_mask k) (cdev_answers k) _ _ (λ e. (refl, refl))
          (probe_register-Returns k (setup_msix d).1)))
      (refl, refl)

-- `probe` returns the error of the first of its nine steps that fails, and 0 if none does; and it
-- keeps a device exactly when it returns 0.
pub probe_result : (k : Kernel) → Returns (answers k) (probe k)
unfolding probe probe_map
probe_result k =
    if-Returns k.kzalloc enomem _ _ _
      (check-Returns k.pci_enable_device _ _ _ (λ e. (refl, refl))
        (check-Returns k.pci_request_region _ _ _ (λ e. (refl, refl))
          (check_pointer-Returns k.pci_iomap enomem _ _ _ (refl, refl)
            (λ a. probe_identify-Returns k (mapped_at k zeroed a)))))
      (refl, refl)
