-- ===== src/Uapi/Tests.antt =====
-- The sizes that the comments of the headers state, and that padding is never inserted.
use phantomfpga_project.Base.{◌+◌, ◌*◌, ◌≡◌, refl}
use phantomfpga_project.Uapi.{frame_size, frame_data_size, frame_rows, frame_cols}
use phantomfpga_project.Uapi.Layout.{
  packed_size, aligned_size, config_fields, stats_fields, buffer_info_fields, fault_cfg_fields,
  frame_header_fields, completion_fields, sg_desc_fields,
}

packed_sizes :
    (packed_size frame_header_fields ≡ 16)
    × (packed_size completion_fields ≡ 16)
    × (packed_size sg_desc_fields ≡ 32)
packed_sizes = (refl, refl, refl)

ioctl_sizes_without_padding :
    (aligned_size config_fields ≡ packed_size config_fields)
    × (aligned_size stats_fields ≡ packed_size stats_fields)
    × (aligned_size buffer_info_fields ≡ packed_size buffer_info_fields)
    × (aligned_size fault_cfg_fields ≡ packed_size fault_cfg_fields)
ioctl_sizes_without_padding = (refl, refl, refl, refl)

-- Each row of the picture ends in a newline.
data_is_rows : frame_rows * (frame_cols + 1) ≡ frame_data_size
data_is_rows = refl

frame_parts : packed_size frame_header_fields + frame_data_size + 105 + 4 ≡ frame_size
frame_parts = refl
