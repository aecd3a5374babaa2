-- ===== src/Examples/Registers.antt =====
-- A ring of eight slots that has gone round once, a coalescing setting, and a buffer.
use phantomfpga_project.Base.{◌+◌, ◌^◌, ◌≤◌, ◌≡◌, ◌⊎◌, ◌↔◌, ◌%◌, arith}
use phantomfpga_project.Regs.{compl_size}
use phantomfpga_project.Regs.Registers.{
  desc_tail, irq_status, offset, reg_max, bar0_size, Apart, registers-Apart,
}
use phantomfpga_project.Regs.Ring.Counters.{Counts, ring-Counts}
use phantomfpga_project.Regs.Coalesce.{irq_coalesce_pack, irq_coalesce_unpack, pack-unpack_iff}
use phantomfpga_project.Regs.Buffer.{completion_ptr, frame_crc_ptr, buffer_regions_disjoint}

-- Thirteen submitted, eight completed: head 5, tail 0.
ring-Counts_example : Counts (2 ^ 3) 13 8
ring-Counts_example = ring-Counts 3 (omega arith) 13 8 (omega arith) (omega arith)

pack-unpack_iff_example :
    (irq_coalesce_pack 8 40000 ≡ 0x9C400008) ↔ (irq_coalesce_unpack 0x9C400008 ≡ (8, 40000))
pack-unpack_iff_example =
    pack-unpack_iff 8 40000 0x9C400008 (omega arith) (omega arith) (omega arith)

buffer_regions_disjoint_example :
    (frame_crc_ptr 4096 + 4 ≡ 4096 + 5120)
    × (4096 + 5120 ≤ completion_ptr 4096 5136)
    × (completion_ptr 4096 5136 + compl_size ≡ 4096 + 5136)
buffer_regions_disjoint_example = buffer_regions_disjoint 4096 5136 (omega arith)

registers-Apart_example :
    (offset desc_tail % 4 ≡ 0)
    × (offset desc_tail + 4 ≤ reg_max)
    × (reg_max ≤ bar0_size)
    × ((desc_tail ≡ irq_status) ⊎ Apart desc_tail irq_status)
registers-Apart_example = registers-Apart desc_tail irq_status
