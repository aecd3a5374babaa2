-- ===== src/Driver/Cdev.antt =====
-- The character device: `pfpga_create_cdev` and `pfpga_destroy_cdev`.
pub mod Fields
use phantomfpga_project.Base.{ℕ, ◌-◌, some, List, [], ◌∷◌, ◌++◌, ◌≡◌, refl, arith}
use phantomfpga_project.Driver.Device.{Device, Status, ok, fail, Errno, max_devices}
use phantomfpga_project.Driver.Resources.{Answer, got, failed, Kernel, Event, acquire, release}
use phantomfpga_project.Driver.Resources.{
  Resource, minor_number, char_device, device_node, replay, same_minor,
}

pub record Created : Type 0 where
  pub events : List Event
  pub status : Status
  pub device : Device

-- The labels `err_ida` and `err_cdev`.
err_ida : ℕ → List Event
err_ida minor = release (minor_number minor) ∷ []

err_cdev : ℕ → List Event
unfolding err_ida
err_cdev minor = release char_device ∷ err_ida minor

create_node : Kernel → ℕ → Device → Created
unfolding err_cdev
create_node k minor d = elim k.device_create [
  | failed e ↦ record { events = err_cdev minor; status = fail e; device = d }
  | got a ↦ record {
    events = acquire device_node ∷ [];
    status = ok;
    device = record d { dev = some a };
  }
]

add_cdev : Kernel → ℕ → Device → Created
unfolding create_node
add_cdev k minor d = elim k.cdev_add [
  | fail e ↦ record { events = err_ida minor; status = fail e; device = d }
  | ok ↦
      let made = create_node k minor d in record made { events = acquire char_device ∷ made.events }
]

unfoldable pub create_cdev : Kernel → Device → Created
unfolding add_cdev
create_cdev k d = elim (k.ida_alloc_max (max_devices - 1)) [
  | failed e ↦ record { events = []; status = fail e; device = d }
  | got minor ↦
      let added = add_cdev k minor (record d { minor = minor; devno = k.mkdev minor }) in
      record added { events = acquire (minor_number minor) ∷ added.events }
]

unfoldable pub destroy_cdev : Device → List Event
destroy_cdev d = release device_node ∷ release char_device ∷ release (minor_number d.minor) ∷ []

-- What the character device holds once it is there, the last taken first.
abbrev pub cdev_held : Status → Device → List Resource
cdev_held ok d = device_node ∷ char_device ∷ minor_number d.minor ∷ []
cdev_held (fail e) d = []

-- Whatever the kernel answers, `create_cdev` leaves exactly the node, the cdev and the number
-- behind when it succeeds, and nothing when it fails.
pub create_cdev-balanced :
    (k : Kernel) (d : Device) (held : List Resource)
    → let made = create_cdev k d in
      replay made.events held ≡ some (cdev_held made.status made.device ++ held)
unfolding create_cdev
create_cdev-balanced k d held = ground arith

pub destroy_cdev-balanced :
    (d : Device) (held : List Resource)
    → replay (destroy_cdev d) (cdev_held ok d ++ held) ≡ some held
unfolding destroy_cdev
destroy_cdev-balanced d held = ground (arith, same_minor d.minor)
