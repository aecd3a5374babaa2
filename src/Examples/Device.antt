-- ===== src/Examples/Device.antt =====
-- A kernel that grants everything, one that fails late, and the life of the device.
use phantomfpga_project.Base.{true, ◌==◌, ◌≡◌, refl, some, if◌then◌else◌}
use phantomfpga_project.Base.{[], ◌∷◌, negsuc}
use phantomfpga_project.Driver.Device.{Device, zeroed, ok, fail, other, buffer_bytes}
use phantomfpga_project.Driver.Resources.{
  Kernel, ModuleKernel, got, failed, acquire, release, read32, bus_master, dev_memory, pci_device,
  bar0_region, bar0_mapping, char_device, minor_number, replay,
}
use phantomfpga_project.Driver.Cdev.{create_cdev}
use phantomfpga_project.Driver.Probe.{probe}
use phantomfpga_project.Driver.Probe.Balance.{probe_held, probe-balanced}
use phantomfpga_project.Driver.Probe.Answers.{Returns, answers, probe_result}
use phantomfpga_project.Driver.Module.{init, exit, module_held, init-exit}

abbrev pub generous : Kernel
generous = record {
  kzalloc = true;
  pci_enable_device = ok;
  pci_request_region = ok;
  pci_resource_start = 0xFE000000;
  pci_resource_len = 4096;
  pci_iomap = some 0xC0000000;
  ioread32 = λ offset. if offset == 0 then 0xF00DFACE else 0x00030000;
  dma_set_mask_and_coherent = λ bits. ok;
  ida_alloc_max = λ most. got 2;
  mkdev = λ minor. minor;
  cdev_add = ok;
  device_create = got 0xD0000000;
}

-- 32-bit DMA only, and no node.
abbrev stingy : Kernel
stingy = record generous {
  dma_set_mask_and_coherent = λ bits. if bits == 64 then fail (other 5) else ok;
  device_create = failed (other 17);
}

abbrev pub probed : Device
probed = record zeroed {
  regs = some 0xC0000000;
  regs_start = 0xFE000000;
  regs_len = 4096;
  desc_count = 256;
  buffer_size = buffer_bytes;
  frame_rate = 25;
  irq_coalesce_count = 8;
  irq_coalesce_timeout = 40000;
  devno = 2;
  dev = some 0xD0000000;
  minor = 2;
  irq_complete = negsuc 0;
  irq_error = negsuc 0;
  irq_no_desc = negsuc 0;
}

pub probe-generous : (probe generous).device ≡ some probed
unfolding probe create_cdev
probe-generous = refl

-- The node fails: the cdev and the number go first, then the mapping and the rest.
probe-stingy :
    (probe stingy).events
    ≡ acquire dev_memory
      ∷ acquire pci_device
      ∷ acquire bar0_region
      ∷ acquire bar0_mapping
      ∷ read32 0
      ∷ read32 4
      ∷ bus_master
      ∷ acquire (minor_number 2)
      ∷ acquire char_device
      ∷ release char_device
      ∷ release (minor_number 2)
      ∷ release bar0_mapping
      ∷ release bar0_region
      ∷ release pci_device
      ∷ release dev_memory
      ∷ []
unfolding probe create_cdev
probe-stingy = refl

probe-balanced_example : replay (probe stingy).events [] ≡ some (probe_held (probe stingy).device)
probe-balanced_example = probe-balanced stingy

probe_result_example : Returns (answers stingy) (probe stingy)
probe_result_example = probe_result stingy

abbrev no_class : ModuleKernel
no_class = record {
  alloc_chrdev_region = ok;
  class_create = failed (other 12);
  pci_register_driver = ok;
}

init-exit_example :
    ((init no_class).status ≡ fail (other 12))
    × (replay (init no_class).events [] ≡ some (module_held (init no_class).status))
    × (replay exit (module_held ok) ≡ some [])
init-exit_example = init-exit no_class
