-- ===== src/Driver/Bus/Limit.antt =====
-- How many devices the driver can keep at a time: `PHANTOMFPGA_MAX_DEVICES`.
use mathlib.Core.Path.{subst}
use phantomfpga_project.Base.{ℕ, suc, ◌-◌, ◌≤◌, ◌≡◌, refl, sym, ap, ◌∙◌, arith}
use phantomfpga_project.Base.{List, [], ◌∷◌, ◌++◌, length, Option, none, some}
use phantomfpga_project.Base.{
  Distinct, Below, Lacks, erase, erase-middle, length-Below, Distinct-erase, Below-erase,
}
use phantomfpga_project.Driver.Device.{Device, max_devices}
use phantomfpga_project.Driver.Idle.{IsFresh}
use phantomfpga_project.Driver.Resources.{Kernel, Event, replay}
use phantomfpga_project.Driver.Minors.{track}
use phantomfpga_project.Driver.Life.{run_fresh}
use phantomfpga_project.Driver.Probe.{probe, remove}
use phantomfpga_project.Driver.Probe.Balance.{probe_held, probe-balanced}
use phantomfpga_project.Driver.Probe.Fresh.{probe-IsFresh}
use phantomfpga_project.Driver.Probe.Numbers.{Numbered, probe-Numbered, remove-track}
use phantomfpga_project.Driver.Bus.{
  IsIda, Bus, and_then, plugged, Step, plug, unplug, use_device, Reachable, unused, next,
}

abbrev minors : List Device → List ℕ
minors [] = []
minors (d ∷ ds) = d.minor ∷ minors ds

abbrev AllFresh : List Device → Type 0
AllFresh [] = Unit
AllFresh (d ∷ ds) = IsFresh d × AllFresh ds

-- The numbers handed out are those of the devices, all different and below the limit.
abbrev pub IsNumbered : List Device → List ℕ → Type 0
IsNumbered devices ids = (ids ≡ minors devices) × Distinct ids × Below max_devices ids

abbrev Holds : Bus → Type 0
Holds b = AllFresh b.devices × IsNumbered b.devices b.ids

minors-append : (xs ys : List Device) → minors (xs ++ ys) ≡ minors xs ++ minors ys
minors-append [] ys = refl
minors-append (x ∷ xs) ys = ap (λ l. x.minor ∷ l) (minors-append xs ys)

AllFresh-middle : (xs ys : List Device) (d : Device) → AllFresh (xs ++ d ∷ ys) → IsFresh d
AllFresh-middle [] ys d h = h.0
AllFresh-middle (x ∷ xs) ys d h = AllFresh-middle xs ys d h.1

AllFresh-without :
    (xs ys : List Device) (d : Device) → AllFresh (xs ++ d ∷ ys) → AllFresh (xs ++ ys)
AllFresh-without [] ys d h = h.1
AllFresh-without (x ∷ xs) ys d h = (h.0, AllFresh-without xs ys d h.1)

IsNumbered-cons :
    (ds : List Device) (ids : List ℕ) (d : Device)
    → d.minor ≤ max_devices - 1
    → Lacks d.minor ids
    → IsNumbered ds ids
    → IsNumbered (d ∷ ds) (d.minor ∷ ids)
IsNumbered-cons ds ids d small new (same, distinct, below) =
    (ap (λ l. d.minor ∷ l) same, (new, distinct), (omega arith, below))

IsNumbered-erase :
    (before after : List Device) (d : Device) (ids : List ℕ)
    → IsNumbered (before ++ d ∷ after) ids
    → IsNumbered (before ++ after) (erase d.minor ids)
IsNumbered-erase before after d ids (same, distinct, below) =
    let split = same ∙ minors-append before (d ∷ after) in
    (
      ap (erase d.minor) split
          ∙ erase-middle (minors before) (minors after) d.minor (subst Distinct split distinct)
          ∙ sym (minors-append before after),
      Distinct-erase d.minor ids distinct,
      Below-erase d.minor max_devices ids below,
    )

module _ (k : Kernel) (b : Bus) (ida : IsIda b.ids k) (holds : Holds b) where
  plugged-by :
      (events : List Event) (kept : Option Device)
      → ((d : Device) → kept ≡ some d → IsFresh d)
      → Numbered k b.ids events kept
      → Holds (record { devices = and_then kept b.devices; ids = track events b.ids })
  plugged-by events none fresh same = (holds.0, subst (IsNumbered b.devices) (sym same) holds.1)
  plugged-by events (some d) fresh (taken, asked) =
      let (small, new) = ida (max_devices - 1) d.minor asked in
      (
        (fresh d refl, holds.0),
        subst (IsNumbered (d ∷ b.devices)) (sym taken)
            (IsNumbered-cons b.devices b.ids d small new holds.1),
      )

plug-Holds : (k : Kernel) (b : Bus) → IsIda b.ids k → Holds b → Holds (plugged k b)
plug-Holds k b ida holds =
    plugged-by k b ida holds (probe k).events (probe k).device (probe-IsFresh k)
      (probe-Numbered k b.ids)

unplug-Holds :
    (before after : List Device) (d : Device) (ids : List ℕ)
    → Holds (record { devices = before ++ d ∷ after; ids = ids })
    → Holds (record { devices = before ++ after; ids = track (remove d) ids })
unplug-Holds before after d ids (fresh, numbered) = (
  AllFresh-without before after d fresh,
  subst (IsNumbered (before ++ after))
      (sym (remove-track d ids (AllFresh-middle before after d fresh).0))
      (IsNumbered-erase before after d ids numbered),
)

Step-Holds : {b c : Bus} → Step b c → Holds b → Holds c
Step-Holds (plug k b ida) holds = plug-Holds k b ida holds
Step-Holds (unplug before after d ids) holds = unplug-Holds before after d ids holds
Step-Holds (use_device m acts before after d ids) holds =
    rw (run_fresh m acts d (AllFresh-middle before after d holds.0)) holds

Reachable-Holds : {b : Bus} → Reachable b → Holds b
Reachable-Holds unused = (tt, (refl, tt, tt))
Reachable-Holds (next reached step) = Step-Holds step (Reachable-Holds reached)

length-minors : (ds : List Device) → length (minors ds) ≡ length ds
length-minors [] = refl
length-minors (d ∷ ds) = ap suc (length-minors ds)

-- In every state that plugging, using and unplugging devices can lead to, with an allocator that
-- hands out numbers not in use up to the one it is given: the numbers handed out are exactly the
-- minor numbers of the devices present, no two are equal, each is below 4, and at most 4 devices
-- are present.
pub Reachable-IsNumbered :
    {b : Bus} → Reachable b → IsNumbered b.devices b.ids × (length b.devices ≤ max_devices)
Reachable-IsNumbered {b = b} reached =
    let numbered = (Reachable-Holds reached).1 in
    (
      numbered,
      omega (
        arith,
        length-Below max_devices b.ids numbered.1 numbered.2,
        ap length numbered.0,
        length-minors b.devices,
      ),
    )

not_kept :
    (ds : List Device) (kept : Option Device)
    → length ds ≡ max_devices
    → length (and_then kept ds) ≤ max_devices
    → kept ≡ none
not_kept ds none full fits = refl
not_kept ds (some d) full fits = absurd (omega arith)

-- With four devices present, every further `probe` keeps none and gives back all that it took,
-- whatever the kernel's other answers.
pub probe-full :
    {b : Bus} (k : Kernel)
    → Reachable b
    → IsIda b.ids k
    → length b.devices ≡ max_devices
    → ((probe k).device ≡ none) × (replay (probe k).events [] ≡ some [])
probe-full {b = b} k reached ida full =
    let none_kept =
      not_kept b.devices (probe k).device full
        (Reachable-IsNumbered (next reached (plug k b ida))).1 in
    (none_kept, probe-balanced k ∙ ap (λ o. some (probe_held o)) none_kept)
