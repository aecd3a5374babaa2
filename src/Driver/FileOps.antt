-- ===== src/Driver/FileOps.antt =====
-- The file operations other than ioctl, as the skeleton has them.
use phantomfpga_project.Base.{ℕ}
use phantomfpga_project.Driver.Device.{Device, Status, ok, fail, eperm, enotsupp}

unfoldable pub open_file : Device → Status × Device
open_file d = (ok, d)

unfoldable pub release_file : Device → Status × Device
release_file d = (ok, d)

unfoldable pub read_frames : Device → ℕ → Status × Device
read_frames d count = (fail enotsupp, d)

unfoldable pub write_frames : Device → ℕ → Status × Device
write_frames d count = (fail eperm, d)

-- The mask of ready events.
unfoldable pub poll : Device → ℕ × Device
poll d = (0, d)

unfoldable pub mmap : Device → ℕ → ℕ → Status × Device
mmap d size offset = (fail enotsupp, d)
