-- ===== src/Driver/Bus.antt =====
-- Several devices on one bus: `phantomfpga_probe` for each that is plugged in, file operations and
-- ioctl calls on those present, `phantomfpga_remove` for each unplugged, in any order. They share
-- the allocator of minor numbers, `phantomfpga_ida`.
pub mod Limit
use phantomfpga_project.Base.{ℕ, ◌≤◌, ◌≡◌, Lacks}
use phantomfpga_project.Base.{List, [], ◌∷◌, ◌++◌, Option, none, some}
use phantomfpga_project.Driver.Device.{Device}
use phantomfpga_project.Driver.Resources.{Kernel, got}
use phantomfpga_project.Driver.Minors.{track}
use phantomfpga_project.Driver.Ioctl.{IoctlMacros}
use phantomfpga_project.Driver.Life.{Action, run}
use phantomfpga_project.Driver.Probe.{probe, remove}

-- What <linux/idr.h> documents of `ida_alloc_max`: a number up to the one given that is not in use.
abbrev pub IsIda : List ℕ → Kernel → Type 0
IsIda ids k = (most m : ℕ) → k.ida_alloc_max most ≡ got m → (m ≤ most) × Lacks m ids

-- The devices that `probe` kept, the last first, and the numbers that are handed out.
pub record Bus : Type 0 where
  pub devices : List Device
  pub ids : List ℕ

abbrev pub and_then : Option Device → List Device → List Device
and_then none ds = ds
and_then (some d) ds = d ∷ ds

abbrev pub empty : Bus
empty = record { devices = []; ids = [] }

abbrev pub plugged : Kernel → Bus → Bus
plugged k b = record {
  devices = and_then (probe k).device b.devices;
  ids = track (probe k).events b.ids;
}

pub data Step : Bus → Bus → Type 0 where
  plug : (k : Kernel) (b : Bus) → IsIda b.ids k → Step b (plugged k b)
  unplug :
      (before after : List Device) (d : Device) (ids : List ℕ)
      → Step
          (record { devices = before ++ d ∷ after; ids = ids })
          (record { devices = before ++ after; ids = track (remove d) ids })
  use_device :
      (m : IoctlMacros) (acts : List Action) (before after : List Device) (d : Device)
      (ids : List ℕ)
      → Step
          (record { devices = before ++ d ∷ after; ids = ids })
          (record { devices = before ++ run m acts d ∷ after; ids = ids })

pub data Reachable : Bus → Type 0 where
  unused : Reachable empty
  next : {b c : Bus} → Reachable b → Step b c → Reachable c
