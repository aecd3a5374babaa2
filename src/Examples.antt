-- ===== src/Examples.antt =====
-- The theorems at concrete inputs, and tests of the definitions.
mod Registers
mod Device
mod Control
mod Buses
mod Interrupts
mod Checksums
mod Streams
mod Options
mod Application
mod Screens
mod Viewing
mod Layouts
