-- ===== src/Examples/Buses.antt =====
-- Four devices plugged in, one of them taken out again, and a fifth.
use mathlib.Core.Path.{subst}
use phantomfpga_project.Base.{ℕ, ◌≤◌, ◌≡◌, refl, arith, ==_iff, ◌==◌, if◌then◌else◌}
use phantomfpga_project.Base.{List, [], ◌∷◌, length, Lacks, none, some, Bool-cases, inl, inr}
use phantomfpga_project.Driver.Device.{Device, other, max_devices}
use phantomfpga_project.Driver.Resources.{Kernel, Answer, got, failed, replay}
use phantomfpga_project.Driver.Minors.{track}
use phantomfpga_project.Driver.Cdev.{create_cdev}
use phantomfpga_project.Driver.Probe.{probe, remove}
use phantomfpga_project.Driver.Bus.{
  Bus, IsIda, empty, plugged, plug, unplug, Reachable, unused, next,
}
use phantomfpga_project.Driver.Bus.Limit.{IsNumbered, Reachable-IsNumbered, probe-full}
use phantomfpga_project.Examples.Device.{generous, probed}

-- A kernel that has this number left among the first four.
abbrev with_number : ℕ → Kernel
with_number n = record generous {
  ida_alloc_max = λ most. if most == 3 then got n else failed (other 28);
}

abbrev device_at : ℕ → Device
device_at n = record probed { minor = n; devno = n }

abbrev one_more : ℕ → Bus → Bus
one_more n b = record { devices = device_at n ∷ b.devices; ids = n ∷ b.ids }

plugged_lem : (n : ℕ) (b : Bus) → plugged (with_number n) b ≡ one_more n b
unfolding probe create_cdev
plugged_lem n b = refl

abbrev number_of : Answer → ℕ
number_of (got n) = n
number_of (failed e) = 0

with_number-IsIda : (n : ℕ) (ids : List ℕ) → n ≤ 3 → Lacks n ids → IsIda ids (with_number n)
with_number-IsIda n ids small new most m answer = elim (Bool-cases (most == 3)) [
  | inl three ↦
      let same : n ≡ m = ground arith in
      (omega (arith, same, (==_iff _ _).0 three), subst (λ k. Lacks k ids) same new)
  | inr smaller ↦ absurd (ground arith)
]

one_more-Reachable :
    (n : ℕ) (b : Bus) → n ≤ 3 → Lacks n b.ids → Reachable b → Reachable (one_more n b)
one_more-Reachable n b small new reached =
    subst Reachable (plugged_lem n b)
      (next reached (plug (with_number n) b (with_number-IsIda n b.ids small new)))

abbrev four : Bus
four = one_more 3 (one_more 2 (one_more 1 (one_more 0 empty)))

four-Reachable : Reachable four
four-Reachable =
    one_more-Reachable 3 _ (omega arith) (omega arith, (omega arith, (omega arith, tt)))
      (one_more-Reachable 2 _ (omega arith) (omega arith, (omega arith, tt))
        (one_more-Reachable 1 _ (omega arith) (omega arith, tt)
          (one_more-Reachable 0 _ (omega arith) tt unused)))

-- Device 2 is taken out.
abbrev three_left : List Device
three_left = device_at 3 ∷ device_at 1 ∷ device_at 0 ∷ []

abbrev ids_left : List ℕ
ids_left = track (remove (device_at 2)) (3 ∷ 2 ∷ 1 ∷ 0 ∷ [])

Reachable-IsNumbered_example : IsNumbered three_left ids_left × (length three_left ≤ max_devices)
Reachable-IsNumbered_example = Reachable-IsNumbered (
    next four-Reachable (
      unplug (device_at 3 ∷ []) (device_at 1 ∷ device_at 0 ∷ []) (device_at 2)
        (3 ∷ 2 ∷ 1 ∷ 0 ∷ [])))

-- No number is left.
abbrev used_up : Kernel
used_up = record generous { ida_alloc_max = λ most. failed (other 28) }

used_up-IsIda : (ids : List ℕ) → IsIda ids used_up
used_up-IsIda ids most m answer = absurd (ground arith)

probe-full_example : ((probe used_up).device ≡ none) × (replay (probe used_up).events [] ≡ some [])
probe-full_example = probe-full used_up four-Reachable (used_up-IsIda four.ids) refl
