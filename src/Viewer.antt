-- ===== src/Viewer.antt =====
-- viewer/phantomfpga_view.h and .cpp, the terminal viewer.
pub mod ReadExact
pub mod Connect
pub mod Terminal
pub mod Run
pub mod Options
pub mod Entry
