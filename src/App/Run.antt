-- ===== src/App/Run.antt =====
-- `class PhantomFpgaApp` and its `run`, over the methods that a derived class fills in.
pub mod Released
pub mod Lifecycle
pub mod Impl
pub mod Main
use phantomfpga_project.Base.{ℕ, zero, suc, ℤ, pos, negsuc, Bool, true, false, ltb, if◌then◌else◌}
use phantomfpga_project.Base.{Option, none, some, List, [], ◌∷◌, ◌++◌}
use phantomfpga_project.Posix.{Event}
use phantomfpga_project.App.Handles.FileDescriptor
use phantomfpga_project.App.Handles.FileDescriptor.{FileDescriptor, no_file}
use phantomfpga_project.App.Handles.MappedMemory
use phantomfpga_project.App.Handles.MappedMemory.{MappedMemory, no_memory}
use phantomfpga_project.App.Options.{AppConfig, Argument, initial_config, parse_arguments}
use phantomfpga_project.App.Server
use phantomfpga_project.App.Server.{TcpServer, Listening}

-- The members that own something or that `run` reads.
pub record App : Type 0 where
  pub dev_fd : FileDescriptor
  pub buffer_pool : MappedMemory
  pub config : AppConfig
  pub tcp_server : Option TcpServer
  pub running : Bool

abbrev pub fresh : App
fresh = record {
  dev_fd = no_file;
  buffer_pool = no_memory;
  config = initial_config;
  tcp_server = none;
  running = true;
}

-- The virtual methods that `run` calls.
pub data Method : Type 0 where
  open_device configure_device setup_mmap start_streaming stop_streaming : Method
  main_loop print_statistics : Method

-- What a method returns (0 where it returns nothing), the object after it, and what it did.
pub record Answer : Type 0 where
  pub ret : ℤ
  pub app : App
  pub events : List Event

abbrev pub Methods : Type 0
Methods = Method → App → Answer

-- How `run` ends, with the methods that it called and what they returned.
pub record Exit : Type 0 where
  pub status : ℕ
  pub app : App
  pub events : List Event
  pub calls : List (Method × ℤ)

-- `tcp_server_.reset()`.
abbrev pub reset_server : Option TcpServer → List Event
reset_server none = []
reset_server (some s) = Server.destroy s

abbrev pub cleanup : App → App × List Event
cleanup a =
    let (pool, memory, unmapped) = MappedMemory.assign false a.buffer_pool no_memory in
    let (dev, file, closed) = FileDescriptor.assign false a.dev_fd no_file in
    (
      record a { tcp_server = none; buffer_pool = pool; dev_fd = dev },
      reset_server a.tcp_server ++ (unmapped ++ closed),
    )

abbrev pub finish : ℕ → App → Exit
finish status a =
    let (a', events) = cleanup a in
    record { status = status; app = a'; events = events; calls = [] }

abbrev pub after : Method → Answer → Exit → Exit
after m o e = record e { events = o.events ++ e.events; calls = (m, o.ret) ∷ e.calls }

abbrev pub unless_negative : ℤ → Exit → Exit → Exit
unless_negative (pos n) failed next = next
unless_negative (negsuc n) failed next = failed

abbrev pub server_if : Bool → Listening → App → App × List Event
server_if true k a =
    let (s, events) = Server.create k a.config.tcp_port in
    (record a { tcp_server = some s }, events)
server_if false k a = (a, [])

-- "Start TCP server if requested".
abbrev pub start_server : Listening → App → App × List Event
start_server k a = server_if (ltb 0 a.config.tcp_port) k a

abbrev pub before : List Event → Exit → Exit
before events e = record e { events = events ++ e.events }

module _ (M : Methods) where
  -- A call whose result is not looked at, and one whose failure ends the run.
  abbrev pub call : Method → App → (App → Exit) → Exit
  call m a next = let o = M m a in after m o (next o.app)

  abbrev pub checked : Method → App → (App → Exit) → Exit
  checked m a next =
      let o = M m a in after m o (unless_negative o.ret (finish 1 o.app) (next o.app))

  -- From main_loop to the end.
  pub report : App → Exit
  report a = call print_statistics a (finish 0)

  pub stop : App → Exit
  stop a = call stop_streaming a report

  pub stream : App → Exit
  stream a = call main_loop a stop

  -- From configure_device to start_streaming.
  pub start : App → Exit
  start a = checked start_streaming a stream

  pub map_buffers : App → Exit
  map_buffers a = checked setup_mmap a start

  pub set_up : App → Exit
  set_up a = checked configure_device a map_buffers

  -- The flag is `stats_only`.
  pub opened_with : Bool → App → Exit
  opened_with true a = report a
  opened_with false a = set_up a

  pub opened : App → Exit
  opened a = opened_with a.config.stats_only a

  pub run_parsed : ℤ → Listening → App → Exit
  run_parsed (pos zero) k a =
      let (a', events) = start_server k a in before events (checked open_device a' opened)
  run_parsed (pos (suc n)) k a = record { status = 0; app = a; events = []; calls = [] }
  run_parsed (negsuc n) k a = record { status = 1; app = a; events = []; calls = [] }

  -- With the options on the command line, and the answers that the server's constructor meets.
  unfoldable pub run : List Argument → Listening → Exit
  unfolding run_parsed opened opened_with set_up map_buffers start stream stop report
      parse_arguments
  run arguments k =
      let (ret, config) = parse_arguments arguments initial_config in
      run_parsed ret k (record fresh { config = config })
