-- ===== src/Driver/Minors.antt =====
-- The minor numbers that a sequence of events takes from `phantomfpga_ida` and gives back to it.
use phantomfpga_project.Base.{ℕ, ◌≡◌, refl, erase, List, [], ◌∷◌, ◌++◌}
use phantomfpga_project.Driver.Resources.{
  Event, acquire, release, read32, bus_master, Resource, minor_number,
}

abbrev taken : Resource → List ℕ → List ℕ
taken (minor_number m) ids = m ∷ ids
taken r ids = ids

abbrev returned : Resource → List ℕ → List ℕ
returned (minor_number m) ids = erase m ids
returned r ids = ids

abbrev tracked : Event → List ℕ → List ℕ
tracked (acquire r) ids = taken r ids
tracked (release r) ids = returned r ids
tracked (read32 offset) ids = ids
tracked bus_master ids = ids

-- The numbers that the allocator has handed out, after the events.
abbrev pub track : List Event → List ℕ → List ℕ
track [] ids = ids
track (e ∷ es) ids = track es (tracked e ids)

pub track-append :
    (es fs : List Event) (ids : List ℕ) → track (es ++ fs) ids ≡ track fs (track es ids)
track-append [] fs ids = refl
track-append (e ∷ es) fs ids = track-append es fs _
