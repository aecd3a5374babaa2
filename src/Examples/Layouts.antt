-- ===== src/Examples/Layouts.antt =====
-- The structures in a 32-bit program on a 64-bit driver: i386 aligns 8 bytes to 4.
use phantomfpga_project.Base.{
  ℕ, ◌<◌, ◌≡◌, refl, arith, ◌==◌, ==_iff, if◌then◌else◌, true, false, Bool,
}
use phantomfpga_project.Uapi.Layout.{aligned_size}
use phantomfpga_project.Uapi.Abi.{
  Divides, IsRule, buffer_info, fields, offsets, packed_offsets, size, same_layout,
}

abbrev i386 : ℕ → ℕ
i386 w = if w == 8 then 4 else w

i386-IsRule : IsRule i386
i386-IsRule w pos = at_width (w == 8) refl
  where
    at_width :
        (b : Bool) → (w == 8) ≡ b → (0 < (if b then 4 else w)) × Divides (if b then 4 else w) w
    at_width true eight = (omega arith, (2, (==_iff _ _).0 eight))
    at_width false other = (pos, (1, omega arith))

same_layout_example :
    (offsets i386 0 (fields buffer_info) ≡ packed_offsets 0 (fields buffer_info))
    × (size i386 (fields buffer_info) ≡ aligned_size (fields buffer_info))
same_layout_example = same_layout i386 i386-IsRule buffer_info
