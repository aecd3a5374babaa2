-- ===== src/Lib.antt =====
-- PhantomFPGA: a training platform with a Linux driver for a virtual PCIe device that streams
-- frames, an application that reads the frames and sends them over TCP, and a viewer. The driver
-- and the two programs' frame handling are skeletons: where a routine holds only instructions
-- for the reader, the model does what its statements do, which is mostly nothing.
--
-- Parts, and the files that model them:
-- * driver/phantomfpga_uapi.h, the interface between the driver and its users: Uapi (constants,
--   the structures that cross it without their reserved words), Uapi/Layout (their sizes) and
--   Uapi/Abi (their layout for 32-bit and 64-bit programs).
-- * driver/phantomfpga_regs.h, registers and inline helpers: Regs (values), Regs/Registers (the
--   register map), Regs/Ring (`phantomfpga_desc_pending`, `_free`, `_ring_empty`, `_ring_full`),
--   Regs/Coalesce (`phantomfpga_irq_coalesce_pack`, `_unpack`), Regs/Buffer
--   (`phantomfpga_completion_ptr`, `phantomfpga_frame_crc_ptr`).
-- * driver/phantomfpga_drv.c, the driver: Driver/Device (`struct phantomfpga_dev`, return
--   codes), Driver/Hardware (the streaming, interrupt and allocation routines), Driver/Cdev
--   (`pfpga_create_cdev`, `pfpga_destroy_cdev`), Driver/Probe (`phantomfpga_probe`, with its
--   error labels, and `phantomfpga_remove`), Driver/Module (`phantomfpga_init`,
--   `phantomfpga_exit`), Driver/FileOps (open to mmap), Driver/Ioctl (`pfpga_ioctl`),
--   Driver/Checksum (`pfpga_compute_crc32`, `pfpga_validate_frame_crc`). Driver/Life puts these
--   together: a device is probed, used by any sequence of calls and interrupts, and removed.
--   Driver/Bus has several devices that come and go in any order and share the allocator of
--   minor numbers (`phantomfpga_ida`; Driver/Minors and Driver/Probe/Numbers say what each takes
--   from it).
-- * app/phantomfpga_app.cpp and viewer/phantomfpga_view.cpp share one CRC32: Crc.
-- * app/phantomfpga_app.h, the wrappers: App/Handles (`FileDescriptor`, `MappedMemory`, what
--   both promise, and programs over several of them).
-- * app/phantomfpga_app.cpp, the application: App/Options (`PhantomFpgaApp::parse_arguments`;
--   what getopt_long and strtoul answer is a list of options with the numbers of their
--   arguments), App/Server (`TcpServer`), App/Run (`PhantomFpgaApp::run` and `cleanup`, over any
--   derived class) and App/Run/Impl (the methods of phantomfpga_app_impl.cpp that `run` calls;
--   Impl/Loop has `main_loop` round by round with signals), App/Run/Main (`main`), and
--   App/Signals (`signal_handler` and the lines that install it).
-- * viewer/phantomfpga_view.cpp, the viewer: Viewer/Connect and Viewer/ReadExact (`TcpClient`;
--   the answers of read(2) and the running flag are a script, one turn for each round of the
--   loop), Viewer/Terminal (`Terminal`), Viewer/Run (`PhantomFpgaViewer::run_viewer`, over the
--   virtual methods of a derived class, with signals; Run/Stubs has the methods of
--   phantomfpga_view_impl.cpp), Viewer/Options (`PhantomFpgaViewer::parse_arguments`) and
--   Viewer/Entry (`PhantomFpgaViewer::run` and `main`).
-- App/Server/Wire puts the two programs together: what the server sends, the viewer reads.
-- App/Options/Ring puts the application and the driver's helpers together: rings of the size
-- that the command line lets through.
--
-- How the state corresponds: a C function that changes `struct phantomfpga_dev` takes the record
-- `Device` and returns the new one; 0 is `ok` and a negative code is `fail` of an `Errno`. What
-- the driver takes from the kernel and gives back is a list of events, in order
-- (Driver/Resources), and `replay` says what is held after them. The two programs do the same
-- with descriptors, mappings and bytes sent (Posix); `Leads` counts how often one resource is
-- open, and refuses a double close and a send on what is not open. The answers of kernel
-- functions (`Kernel`, `ModuleKernel`), the macros of <linux/ioctl.h> (`IoctlMacros`) and
-- `crc32_le` are parameters; `AreMacros` and `IsCrc32Le` state what is documented of the last
-- two, and `IsIda` what is documented of `ida_alloc_max`. A spinlock or mutex is whether it is
-- held; calls are taken one after the other, as the locks make them. Unsigned words are natural
-- numbers with their wrap-around written out (Base/Word); the bit operations and their laws at
-- every width are in Bits. Loops recur on the rounds left or on the list that they walk, so no
-- fuel is needed but for `main_loop` and the loop of `run_viewer`, whose rounds no list bounds: a
-- signal in round k of the first, or at call k of the methods in the second, makes k + 2 enough;
-- the loop of `read_exact` recurs on its script, and a script that runs out is a call that waits
-- in read(2).
-- What a program asks of the system and is not its own (socket, bind, accept, send, read,
-- getaddrinfo, atoi) is an argument, any answer allowed unless a theorem says otherwise.
--
-- Not modelled: console output, the PCI identification table (a declaration), `container_of` in
-- `pfpga_open`, `poll_wait`, the order of memory accesses, the sources of the virtual device
-- (they are not in this repository), `setsockopt` and `fcntl`, whose results the application
-- ignores, the counters of `AppStats`, which only derived classes keep, `process_frame` and
-- `validate_frame` of phantomfpga_app_impl.cpp, which fail and which nothing calls, and the bits
-- of the registers, which no code uses yet.
pub mod Base
pub mod Bits
pub mod Uapi
pub mod Regs
pub mod Driver
pub mod Crc
pub mod Posix
pub mod App
pub mod Viewer
mod Examples
