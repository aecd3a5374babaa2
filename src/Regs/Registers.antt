-- ===== src/Regs/Registers.antt =====
-- The register map of driver/phantomfpga_regs.h: every register, where it is and how it is used.
use phantomfpga_project.Base.{
  ℕ, zero, suc, ◌+◌, ◌*◌, ◌<◌, ◌%◌, ◌≤◌, ◌≡◌, refl, ap, sym, ◌∙◌, arith, ◌⊎◌, inl, inr,
}
use phantomfpga_project.Base.{List, [], ◌∷◌}
use native.Mathlib.Decide.{dec_lt, ℕ_discrete}
use phantomfpga_project.Regs.{
  reg_dev_id, reg_dev_ver, reg_status, reg_current_frame, reg_stat_frames_tx, reg_stat_frames_drop,
  reg_stat_desc_compl, reg_stat_errors,
}

pub data Register : Type 0 where
  dev_id dev_ver ctrl status : Register
  frame_size frame_count frame_rate current_frame : Register
  desc_ring_lo desc_ring_hi desc_ring_size desc_head desc_tail : Register
  irq_status irq_mask irq_coalesce : Register
  stat_frames_tx stat_frames_drop stat_bytes_lo stat_bytes_hi stat_desc_compl stat_errors : Register
  fault_inject fault_rate : Register

-- `PHANTOMFPGA_REG_*`.
abbrev pub offset : Register → ℕ
offset dev_id = reg_dev_id
offset dev_ver = reg_dev_ver
offset ctrl = 0x008
offset status = reg_status
offset frame_size = 0x010
offset frame_count = 0x014
offset frame_rate = 0x018
offset current_frame = reg_current_frame
offset desc_ring_lo = 0x020
offset desc_ring_hi = 0x024
offset desc_ring_size = 0x028
offset desc_head = 0x02C
offset desc_tail = 0x030
offset irq_status = 0x034
offset irq_mask = 0x038
offset irq_coalesce = 0x03C
offset stat_frames_tx = reg_stat_frames_tx
offset stat_frames_drop = reg_stat_frames_drop
offset stat_bytes_lo = 0x048
offset stat_bytes_hi = 0x04C
offset stat_desc_compl = reg_stat_desc_compl
offset stat_errors = reg_stat_errors
offset fault_inject = 0x058
offset fault_rate = 0x05C

-- `PHANTOMFPGA_REG_MAX` and `PHANTOMFPGA_BAR0_SIZE`.
abbrev pub reg_max : ℕ
reg_max = 0x060

abbrev pub bar0_size : ℕ
bar0_size = 4096

-- The place of a register in the map: they follow one another without a gap.
abbrev index : Register → ℕ
index dev_id = 0
index dev_ver = 1
index ctrl = 2
index status = 3
index frame_size = 4
index frame_count = 5
index frame_rate = 6
index current_frame = 7
index desc_ring_lo = 8
index desc_ring_hi = 9
index desc_ring_size = 10
index desc_head = 11
index desc_tail = 12
index irq_status = 13
index irq_mask = 14
index irq_coalesce = 15
index stat_frames_tx = 16
index stat_frames_drop = 17
index stat_bytes_lo = 18
index stat_bytes_hi = 19
index stat_desc_compl = 20
index stat_errors = 21
index fault_inject = 22
index fault_rate = 23

offset-index : (r : Register) → offset r ≡ 4 * index r
offset-index dev_id = refl
offset-index dev_ver = refl
offset-index ctrl = refl
offset-index status = refl
offset-index frame_size = refl
offset-index frame_count = refl
offset-index frame_rate = refl
offset-index current_frame = refl
offset-index desc_ring_lo = refl
offset-index desc_ring_hi = refl
offset-index desc_ring_size = refl
offset-index desc_head = refl
offset-index desc_tail = refl
offset-index irq_status = refl
offset-index irq_mask = refl
offset-index irq_coalesce = refl
offset-index stat_frames_tx = refl
offset-index stat_frames_drop = refl
offset-index stat_bytes_lo = refl
offset-index stat_bytes_hi = refl
offset-index stat_desc_compl = refl
offset-index stat_errors = refl
offset-index fault_inject = refl
offset-index fault_rate = refl

abbrev registers : List Register
registers =
    dev_id ∷ dev_ver ∷ ctrl ∷ status ∷ frame_size ∷ frame_count ∷ frame_rate ∷ current_frame
    ∷ desc_ring_lo ∷ desc_ring_hi ∷ desc_ring_size ∷ desc_head ∷ desc_tail ∷ irq_status ∷ irq_mask
    ∷ irq_coalesce ∷ stat_frames_tx ∷ stat_frames_drop ∷ stat_bytes_lo ∷ stat_bytes_hi
    ∷ stat_desc_compl ∷ stat_errors ∷ fault_inject ∷ fault_rate ∷ []

-- The entry at a place, the last one beyond the end.
abbrev entry : List Register → ℕ → Register
entry [] n = fault_rate
entry (r ∷ rest) zero = r
entry (r ∷ rest) (suc n) = entry rest n

abbrev at_index : ℕ → Register
at_index n = entry registers n

at_index-index : (r : Register) → at_index (index r) ≡ r
at_index-index dev_id = refl
at_index-index dev_ver = refl
at_index-index ctrl = refl
at_index-index status = refl
at_index-index frame_size = refl
at_index-index frame_count = refl
at_index-index frame_rate = refl
at_index-index current_frame = refl
at_index-index desc_ring_lo = refl
at_index-index desc_ring_hi = refl
at_index-index desc_ring_size = refl
at_index-index desc_head = refl
at_index-index desc_tail = refl
at_index-index irq_status = refl
at_index-index irq_mask = refl
at_index-index irq_coalesce = refl
at_index-index stat_frames_tx = refl
at_index-index stat_frames_drop = refl
at_index-index stat_bytes_lo = refl
at_index-index stat_bytes_hi = refl
at_index-index stat_desc_compl = refl
at_index-index stat_errors = refl
at_index-index fault_inject = refl
at_index-index fault_rate = refl

index-lt : (r : Register) → index r < 24
index-lt dev_id = omega arith
index-lt dev_ver = omega arith
index-lt ctrl = omega arith
index-lt status = omega arith
index-lt frame_size = omega arith
index-lt frame_count = omega arith
index-lt frame_rate = omega arith
index-lt current_frame = omega arith
index-lt desc_ring_lo = omega arith
index-lt desc_ring_hi = omega arith
index-lt desc_ring_size = omega arith
index-lt desc_head = omega arith
index-lt desc_tail = omega arith
index-lt irq_status = omega arith
index-lt irq_mask = omega arith
index-lt irq_coalesce = omega arith
index-lt stat_frames_tx = omega arith
index-lt stat_frames_drop = omega arith
index-lt stat_bytes_lo = omega arith
index-lt stat_bytes_hi = omega arith
index-lt stat_desc_compl = omega arith
index-lt stat_errors = omega arith
index-lt fault_inject = omega arith
index-lt fault_rate = omega arith

-- The bytes of two registers do not meet.
abbrev pub Apart : Register → Register → Type 0
Apart a b = (offset a + 4 ≤ offset b) ⊎ (offset b + 4 ≤ offset a)

index-injective : (a b : Register) → index a ≡ index b → a ≡ b
index-injective a b e = sym (at_index-index a) ∙ ap at_index e ∙ at_index-index b

-- Every register is a 32-bit word at a multiple of 4, below `reg_max` and inside BAR 0, and no two
-- registers share a byte.
pub registers-Apart :
    (a b : Register)
    → (offset a % 4 ≡ 0) × (offset a + 4 ≤ reg_max) × (reg_max ≤ bar0_size) × ((a ≡ b) ⊎ Apart a b)
registers-Apart a b = (
  omega (arith, offset-index a),
  omega (arith, offset-index a, index-lt a),
  omega arith,
  elim (ℕ_discrete (index a) (index b)) [
    | yes same ↦ inl (index-injective a b same)
    | no differ ↦ inr (apart (dec_lt (index a) (index b)) differ)
  ],
)
  where
    apart : Dec (index a < index b) → ¬ (index a ≡ index b) → Apart a b
    apart (yes below) differ = inl (omega (arith, offset-index a, offset-index b))
    apart (no above) differ = inr (omega (arith, offset-index a, offset-index b))
