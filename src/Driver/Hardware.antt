-- ===== src/Driver/Hardware.antt =====
-- The driver's hardware routines as they stand: the skeleton leaves the register writes and the
-- descriptor handling out, so most of them leave the device's data alone.
use phantomfpga_project.Base.{ℕ, pos, negsuc}
use phantomfpga_project.Driver.Device.{Device, Status, ok, fail, enotsupp}
use phantomfpga_project.Driver.Resources.{Event}
use phantomfpga_project.Base.{List, []}

-- What an interrupt handler returns.
pub data IrqReturn : Type 0 where
  irq_none irq_handled : IrqReturn

pub configure_desc_ring : Device → Device
configure_desc_ring d = d

pub apply_config : Device → Device
apply_config d = d

pub submit_descriptors : Device → ℕ → Device
submit_descriptors d count = d

pub init_descriptors : Device → Device
init_descriptors d = d

unfoldable pub start_streaming : Device → Status × Device
start_streaming d = (fail enotsupp, d)

unfoldable pub stop_streaming : Device → Status × Device
stop_streaming d = (ok, d)

unfoldable pub soft_reset : Device → Device
soft_reset d = d

unfoldable pub handle_irq_complete : Device → IrqReturn × Device
handle_irq_complete d = (irq_none, d)

unfoldable pub handle_irq_error : Device → IrqReturn × Device
handle_irq_error d = (irq_none, d)

unfoldable pub handle_irq_no_desc : Device → IrqReturn × Device
handle_irq_no_desc d = (irq_none, d)

-- No vector is taken; the numbers are set to -1.
unfoldable pub setup_msix : Device → Status × Device
setup_msix d = (
  ok,
  record d {
    num_vectors = pos 0;
    irq_complete = negsuc 0;
    irq_error = negsuc 0;
    irq_no_desc = negsuc 0;
  },
)

unfoldable pub teardown_msix : Device → List Event
teardown_msix d = []

-- Nothing is allocated, and the counts are not stored.
unfoldable pub alloc_descriptors : Device → ℕ → ℕ → Status × Device
alloc_descriptors d desc_count buffer_size = (ok, d)

unfoldable pub free_descriptors : Device → List Event
free_descriptors d = []
