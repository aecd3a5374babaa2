-- ===== src/App/Handles.antt =====
-- The move-only wrappers of app/phantomfpga_app.h, `FileDescriptor` and `MappedMemory`, and what
-- their user relies on.
pub mod FileDescriptor
pub mod MappedMemory
pub mod Wrapper
pub mod Store
