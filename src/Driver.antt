-- ===== src/Driver.antt =====
-- driver/phantomfpga_drv.c, the kernel driver: its private data, the hardware routines, the file
-- operations, the ioctl handler, and how a device and the module come and go.
pub mod Device
pub mod Idle
pub mod Checksum
pub mod Hardware
pub mod Resources
pub mod Minors
pub mod Cdev
pub mod Probe
pub mod Module
pub mod FileOps
pub mod Ioctl
pub mod Life
pub mod Bus
