-- ===== src/App.antt =====
-- app/phantomfpga_app.h, .cpp and phantomfpga_app_impl.cpp, the application.
pub mod Handles
pub mod Options
pub mod Run
pub mod Signals
pub mod Server
