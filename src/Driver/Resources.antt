-- ===== src/Driver/Resources.antt =====
-- What the driver takes from the kernel and gives back, as a sequence of events, and the kernel's
-- answers, which are parameters of the driver's functions.
use phantomfpga_project.Base.{ℕ, Bool, true, false, ◌==◌, ◌||◌, if◌then◌else◌}
use phantomfpga_project.Base.{Option, none, some, List, [], ◌∷◌, ◌++◌, ◌≡◌, refl, arith}
use phantomfpga_project.Driver.Device.{Errno, Status, ok, fail}

pub data Resource : Type 0 where
  dev_memory pci_device bar0_region bar0_mapping char_device device_node : Resource
  minor_number : ℕ → Resource
  chrdev_region device_class pci_driver : Resource

pub data Event : Type 0 where
  acquire : Resource → Event
  release : Resource → Event
  read32 : ℕ → Event
  bus_master : Event

-- A kernel function that returns an object or an error: `got` the object's number or address.
pub data Answer : Type 0 where
  got : ℕ → Answer
  failed : Errno → Answer

-- What each kernel function answers when it is called in `probe`.
pub record Kernel : Type 0 where
  pub kzalloc : Bool
  pub pci_enable_device : Status
  pub pci_request_region : Status
  pub pci_resource_start : ℕ
  pub pci_resource_len : ℕ
  pub pci_iomap : Option ℕ
  pub ioread32 : ℕ → ℕ
  pub dma_set_mask_and_coherent : ℕ → Status
  pub ida_alloc_max : ℕ → Answer
  pub mkdev : ℕ → ℕ
  pub cdev_add : Status
  pub device_create : Answer

-- ... and in the module's entry point.
pub record ModuleKernel : Type 0 where
  pub alloc_chrdev_region : Status
  pub class_create : Answer
  pub pci_register_driver : Status

abbrev same_resource : Resource → Resource → Bool
same_resource dev_memory dev_memory = true
same_resource pci_device pci_device = true
same_resource bar0_region bar0_region = true
same_resource bar0_mapping bar0_mapping = true
same_resource char_device char_device = true
same_resource device_node device_node = true
same_resource (minor_number m) (minor_number n) = m == n
same_resource chrdev_region chrdev_region = true
same_resource device_class device_class = true
same_resource pci_driver pci_driver = true
same_resource _ _ = false

abbrev holds : List Resource → Resource → Bool
holds [] r = false
holds (q ∷ qs) r = same_resource q r || holds qs r

abbrev give_back : Resource → List Resource → Option (List Resource)
give_back r [] = none
give_back r (q ∷ qs) = if same_resource q r then some qs else none

abbrev pub bind_held :
    Option (List Resource) → (List Resource → Option (List Resource)) → Option (List Resource)
bind_held none f = none
bind_held (some held) f = f held

-- One event with these resources held, the last taken first. `none` is a fault: something given
-- back that is not the last one taken, or a register read while the registers are not mapped.
abbrev apply : Event → List Resource → Option (List Resource)
apply (acquire r) held = some (r ∷ held)
apply (release r) held = give_back r held
apply (read32 offset) held = if holds held bar0_mapping then some held else none
apply bus_master held = some held

-- What is held after the events.
abbrev pub replay : List Event → List Resource → Option (List Resource)
replay [] held = some held
replay (e ∷ es) held = bind_held (apply e held) (replay es)

pub replay-append :
    (es fs : List Event) (held : List Resource)
    → replay (es ++ fs) held ≡ bind_held (replay es held) (replay fs)
replay-append [] fs held = refl
replay-append (e ∷ es) fs held = resume (apply e held) (replay-append es fs)
  where
    resume :
        (now : Option (List Resource))
        → ((h : List Resource) → replay (es ++ fs) h ≡ bind_held (replay es h) (replay fs))
        → bind_held now (replay (es ++ fs)) ≡ bind_held (bind_held now (replay es)) (replay fs)
    resume none rest = refl
    resume (some h) rest = rest h

-- A number given back is the number taken, at any number.
pub same_minor : (m : ℕ) → (m == m) ≡ true
same_minor m = ground arith

-- The first failure of a list of steps.
abbrev pub first_failure : List Status → Status
first_failure [] = ok
first_failure (ok ∷ ss) = first_failure ss
first_failure (fail e ∷ ss) = fail e

abbrev pub answered : Answer → Status
answered (got n) = ok
answered (failed e) = fail e

abbrev pub expect : Bool → Errno → Status
expect b e = if b then ok else fail e
