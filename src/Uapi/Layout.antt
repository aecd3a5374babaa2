-- ===== src/Uapi/Layout.antt =====
-- Sizes of the structures of driver/phantomfpga_uapi.h and driver/phantomfpga_regs.h, from the
-- widths of their fields in bytes, in order. An array counts each element.
use phantomfpga_project.Base.{ℕ, ◌+◌, ◌-◌, ◌*◌, ◌/◌, List, [], ◌∷◌, ltb, if◌then◌else◌}

-- The least multiple of `a` that is at least `n`.
abbrev pub align_up : ℕ → ℕ → ℕ
align_up n a = (n + (a - 1)) / a * a

-- `__attribute__((packed))`: no padding.
abbrev pub packed_size : List ℕ → ℕ
packed_size [] = 0
packed_size (w ∷ ws) = w + packed_size ws

abbrev end_of_fields : ℕ → List ℕ → ℕ
end_of_fields at_byte [] = at_byte
end_of_fields at_byte (w ∷ ws) = end_of_fields (align_up at_byte w + w) ws

abbrev widest : ℕ → List ℕ → ℕ
widest w [] = w
widest w (v ∷ vs) = widest (if ltb w v then v else w) vs

-- Natural alignment, the size rounded up to the widest field.
abbrev pub aligned_size : List ℕ → ℕ
aligned_size ws = align_up (end_of_fields 0 ws) (widest 1 ws)

abbrev pub config_fields : List ℕ
config_fields = 4 ∷ 4 ∷ 2 ∷ 2 ∷ 4 ∷ 4 ∷ 4 ∷ 4 ∷ []

abbrev pub stats_fields : List ℕ
stats_fields = 8 ∷ 8 ∷ 8 ∷ 8 ∷ 8 ∷ 4 ∷ 4 ∷ 4 ∷ 4 ∷ 4 ∷ 4 ∷ 4 ∷ 4 ∷ 4 ∷ 4 ∷ 4 ∷ 4 ∷ []

abbrev pub buffer_info_fields : List ℕ
buffer_info_fields = 8 ∷ 8 ∷ 8 ∷ 4 ∷ 4 ∷ 4 ∷ 4 ∷ 4 ∷ 4 ∷ []

abbrev pub fault_cfg_fields : List ℕ
fault_cfg_fields = 4 ∷ 4 ∷ 4 ∷ 4 ∷ 4 ∷ 4 ∷ []

abbrev pub frame_header_fields : List ℕ
frame_header_fields = 4 ∷ 4 ∷ 8 ∷ []

abbrev pub completion_fields : List ℕ
completion_fields = 4 ∷ 4 ∷ 8 ∷ []

abbrev pub sg_desc_fields : List ℕ
sg_desc_fields = 4 ∷ 4 ∷ 8 ∷ 8 ∷ 8 ∷ []
