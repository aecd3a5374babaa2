-- ===== src/Driver/Probe.antt =====
-- `phantomfpga_probe` and `phantomfpga_remove`. A label of the error path is a function that the
-- label above falls through to.
pub mod Paths
pub mod Balance
pub mod Fresh
pub mod Remove
pub mod Answers
pub mod Numbers
use phantomfpga_project.Base.{ℕ, true, false, ◌==◌, if◌then◌else◌}
use phantomfpga_project.Base.{Option, none, some, List, [], ◌∷◌, ◌++◌}
use phantomfpga_project.Regs.{
  reg_dev_id, reg_dev_ver, dev_id_val, default_desc_count, default_frame_rate, default_irq_count,
  default_irq_timeout,
}
use phantomfpga_project.Driver.Device.{
  Device, zeroed, Status, ok, fail, Errno, enomem, enodev, buffer_bytes,
}
use phantomfpga_project.Driver.Resources.{
  Kernel, Event, acquire, release, read32, bus_master, dev_memory, pci_device, bar0_region,
  bar0_mapping,
}
use phantomfpga_project.Driver.Hardware.{
  setup_msix, teardown_msix, alloc_descriptors, free_descriptors, soft_reset, stop_streaming,
}
use phantomfpga_project.Driver.Cdev.{create_cdev, destroy_cdev}

-- The events in order, the return value, and the device's data if it was kept.
pub record Outcome : Type 0 where
  pub events : List Event
  pub status : Status
  pub device : Option Device

abbrev emit : Event → Outcome → Outcome
emit e o = record o { events = e ∷ o.events }

abbrev after : List Event → Outcome → Outcome
after es o = record o { events = es ++ o.events }

-- `if (ret) goto label;`
abbrev check : Status → (Errno → Outcome) → Outcome → Outcome
check ok label next = next
check (fail e) label next = label e

-- `if (!pointer) goto label;`
abbrev check_pointer : Option ℕ → Outcome → (ℕ → Outcome) → Outcome
check_pointer none label next = label
check_pointer (some a) label next = next a

err_free : Errno → Outcome
err_free e = record { events = release dev_memory ∷ []; status = fail e; device = none }

err_disable : Errno → Outcome
unfolding err_free
err_disable e = emit (release pci_device) (err_free e)

err_release : Errno → Outcome
unfolding err_disable
err_release e = emit (release bar0_region) (err_disable e)

err_unmap : Errno → Outcome
unfolding err_release
err_unmap e = emit (release bar0_mapping) (err_release e)

err_msix : Device → Errno → Outcome
unfolding err_unmap teardown_msix
err_msix d e = after (teardown_msix d) (err_unmap e)

err_desc : Device → Errno → Outcome
unfolding err_msix free_descriptors
err_desc d e = after (free_descriptors d) (err_msix d e)

abbrev default_config : Device → Device
default_config d = record d {
  desc_count = default_desc_count;
  frame_rate = default_frame_rate;
  irq_coalesce_count = default_irq_count;
  irq_coalesce_timeout = default_irq_timeout;
  buffer_size = buffer_bytes;
  configured = false;
  streaming = false;
}

abbrev kept : Device → Outcome
kept d = record { events = []; status = ok; device = some (default_config d) }

probe_register : Kernel → Device → Outcome
unfolding err_desc
probe_register k d =
    let made = create_cdev k d in
    after made.events (check made.status (err_desc made.device) (kept made.device))

probe_setup : Kernel → Device → Outcome
unfolding setup_msix err_unmap alloc_descriptors err_msix soft_reset probe_register
probe_setup k d =
    let (irqs, d1) = setup_msix d in
    check irqs err_unmap (
      let (memory, d2) = alloc_descriptors d1 default_desc_count buffer_bytes in
      check memory (err_msix d2) (probe_register k (soft_reset d2)))

dma_mask : Kernel → Status
dma_mask k = elim (k.dma_set_mask_and_coherent 64) [
  | ok ↦ ok
  | fail _ ↦ k.dma_set_mask_and_coherent 32
]

-- From the device's identity on; an old version is only warned of.
probe_identify : Kernel → Device → Outcome
unfolding dma_mask err_unmap probe_setup
probe_identify k d = emit (read32 reg_dev_id) (
    if k.ioread32 reg_dev_id == dev_id_val
    then emit (read32 reg_dev_ver)
        (emit bus_master (check (dma_mask k) err_unmap (probe_setup k d)))
    else err_unmap enodev)

abbrev mapped_at : Kernel → Device → ℕ → Device
mapped_at k d a = record d {
  regs_start = k.pci_resource_start;
  regs_len = k.pci_resource_len;
  regs = some a;
}

probe_map : Kernel → Device → Outcome
unfolding err_release probe_identify
probe_map k d =
    check_pointer k.pci_iomap (err_release enomem)
      (λ a. emit (acquire bar0_mapping) (probe_identify k (mapped_at k d a)))

unfoldable pub probe : Kernel → Outcome
unfolding err_free err_disable probe_map
probe k =
    if k.kzalloc
    then emit (acquire dev_memory) (
        check k.pci_enable_device err_free (
          emit (acquire pci_device) (
            check k.pci_request_region err_disable
              (emit (acquire bar0_region) (probe_map k zeroed)))))
    else record { events = []; status = fail enomem; device = none }

abbrev unmap : Option ℕ → List Event
unmap none = []
unmap (some a) = release bar0_mapping ∷ []

-- Stop streaming if active.
pub quiesce : Device → Device
unfolding stop_streaming
quiesce d = if d.streaming then (stop_streaming d).1 else d

pub remove : Device → List Event
unfolding free_descriptors teardown_msix
remove d =
    let stopped = quiesce d in
    destroy_cdev stopped
    ++ (free_descriptors stopped
        ++ (teardown_msix stopped
            ++ (unmap stopped.regs
                ++ (release bar0_region ∷ release pci_device ∷ release dev_memory ∷ []))))
