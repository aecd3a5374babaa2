-- ===== src/Driver/Module.antt =====
-- `phantomfpga_init` and `phantomfpga_exit`, the module's entry and exit.
use phantomfpga_project.Base.{some, List, [], ◌∷◌, ◌≡◌, refl, arith}
use phantomfpga_project.Driver.Device.{Status, ok, fail}
use phantomfpga_project.Driver.Resources.{
  ModuleKernel, got, failed, Event, acquire, release, Resource, chrdev_region, device_class,
  pci_driver, replay, first_failure, answered,
}

pub record Loaded : Type 0 where
  pub events : List Event
  pub status : Status

abbrev emit : Event → Loaded → Loaded
emit e o = record o { events = e ∷ o.events }

-- The labels `err_chrdev` and `err_class`.
err_chrdev : Status → Loaded
err_chrdev s = record { events = release chrdev_region ∷ []; status = s }

err_class : Status → Loaded
unfolding err_chrdev
err_class s = emit (release device_class) (err_chrdev s)

register_driver : ModuleKernel → Loaded
unfolding err_class
register_driver k = elim k.pci_register_driver [
  | fail e ↦ err_class (fail e)
  | ok ↦ record { events = acquire pci_driver ∷ []; status = ok }
]

create_class : ModuleKernel → Loaded
unfolding err_chrdev register_driver
create_class k = elim k.class_create [
  | failed e ↦ err_chrdev (fail e)
  | got a ↦ emit (acquire device_class) (register_driver k)
]

pub init : ModuleKernel → Loaded
unfolding create_class
init k = elim k.alloc_chrdev_region [
  | fail e ↦ record { events = []; status = fail e }
  | ok ↦ emit (acquire chrdev_region) (create_class k)
]

pub exit : List Event
exit = release pci_driver ∷ release device_class ∷ release chrdev_region ∷ []

abbrev pub module_held : Status → List Resource
module_held ok = pci_driver ∷ device_class ∷ chrdev_region ∷ []
module_held (fail e) = []

init-balanced : (k : ModuleKernel) → replay (init k).events [] ≡ some (module_held (init k).status)
unfolding init
init-balanced k = ground arith

init-status :
    (k : ModuleKernel)
    → (init k).status
      ≡ first_failure (k.alloc_chrdev_region ∷ answered k.class_create ∷ k.pci_register_driver ∷ [])
unfolding init
init-status k = ground arith

-- `init` returns the error of its first step that fails, and then holds nothing; if none fails it
-- returns 0 and holds its region, class and registration, and `exit` gives back exactly these,
-- the last taken first.
pub init-exit :
    (k : ModuleKernel)
    → ((init k).status
        ≡ first_failure
            (k.alloc_chrdev_region ∷ answered k.class_create ∷ k.pci_register_driver ∷ []))
      × (replay (init k).events [] ≡ some (module_held (init k).status))
      × (replay exit (module_held ok) ≡ some [])
unfolding exit
init-exit k = (init-status k, init-balanced k, refl)
