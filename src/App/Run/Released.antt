-- ===== src/App/Run/Released.antt =====
-- What the application holds: nothing is left when `run` returns, on whichever path.
use phantomfpga_project.Base.{
  ℕ, zero, suc, ◌+◌, ℤ, pos, negsuc, Bool, true, false, ◌≡◌, refl, arith, ltb,
}
use phantomfpga_project.Base.{Option, none, some, List, ◌++◌}
use phantomfpga_project.Posix.{Resource, Leads, Leads-append, Leads-more, Leads-between}
use phantomfpga_project.App.Handles.FileDescriptor
use phantomfpga_project.App.Handles.FileDescriptor.{no_file, owned_fd, close_fd, close_fd-Leads_to}
use phantomfpga_project.App.Handles.MappedMemory
use phantomfpga_project.App.Handles.MappedMemory.{no_memory, unmap, unmap-Leads, owned_at}
use phantomfpga_project.App.Options.{AppConfig, Argument, initial_config, parse_arguments}
use phantomfpga_project.App.Server
use phantomfpga_project.App.Server.{TcpServer, Listening}
use phantomfpga_project.App.Server.Released as Served
use phantomfpga_project.App.Run.{
  App, fresh, Method, open_device, configure_device, setup_mmap, start_streaming, stop_streaming,
  main_loop, print_statistics, Answer, Methods, Exit, reset_server, finish, after, unless_negative,
  server_if, start_server, call, checked, report, stop, stream, start, map_buffers, set_up,
  opened_with, opened, run_parsed, run,
}

abbrev owned_server : Resource → Option TcpServer → ℕ
owned_server r none = 0
owned_server r (some s) = Served.owned r s

-- How often the object's members own `r`.
abbrev pub owned : Resource → App → ℕ
owned r a =
    owned_server r a.tcp_server
    + (MappedMemory.owned r a.buffer_pool + FileDescriptor.owned r a.dev_fd)

-- A derived class keeps what it takes in the members, and gives back what it drops from them.
abbrev pub Tidy : Methods → Type 0
Tidy M =
    (r : Resource) (m : Method) (a : App) → Leads r (M m a).events (owned r a) (owned r (M m a).app)

-- Nothing is left in the members.
abbrev pub IsEmptied : App → Type 0
IsEmptied a = (a.tcp_server ≡ none) × (a.buffer_pool ≡ no_memory) × (a.dev_fd ≡ no_file)

abbrev Ends : Resource → ℕ → Exit → Type 0
Ends r n e = Leads r e.events n 0 × IsEmptied e.app

reset_server-Leads :
    (r : Resource) (server : Option TcpServer) (d : ℕ)
    → Leads r (reset_server server) (owned_server r server + d) d
reset_server-Leads r none d = ground arith
reset_server-Leads r (some s) d =
    Leads-between r (Server.destroy s) (Served.owned r s + d) (0 + d) (Served.owned r s + d) d refl
      (omega arith)
      (Leads-more r (Server.destroy s) (Served.owned r s) 0 d (Served.destroy-Leads r s))

finish-Ends : (r : Resource) (status : ℕ) (a : App) → Ends r (owned r a) (finish status a)
finish-Ends r status a =
    let pool = MappedMemory.owned r a.buffer_pool in
    let dev = FileDescriptor.owned r a.dev_fd in
    (
      Leads-append r (reset_server a.tcp_server)
          (unmap a.buffer_pool.addr a.buffer_pool.size ++ close_fd a.dev_fd.fd) (owned r a)
          (pool + dev) 0 (reset_server-Leads r a.tcp_server (pool + dev))
          (Leads-append r (unmap a.buffer_pool.addr a.buffer_pool.size) (close_fd a.dev_fd.fd)
            (pool + dev) dev 0 (unmap-Leads r a.buffer_pool.addr a.buffer_pool.size dev)
            (close_fd-Leads_to r a.dev_fd.fd dev 0 (omega arith))),
      (refl, refl, refl),
    )

after-Ends :
    (r : Resource) (m : Method) (o : Answer) (n : ℕ) (e : Exit)
    → Leads r o.events n (owned r o.app)
    → Ends r (owned r o.app) e
    → Ends r n (after m o e)
after-Ends r m o n e first rest =
    (Leads-append r o.events e.events n (owned r o.app) 0 first rest.0, rest.1)

unless_negative-Ends :
    (r : Resource) (n : ℕ) (ret : ℤ) (failed next : Exit)
    → Ends r n failed
    → Ends r n next
    → Ends r n (unless_negative ret failed next)
unless_negative-Ends r n (pos k) failed next one two = two
unless_negative-Ends r n (negsuc k) failed next one two = one

-- Before the server is there, nothing is.
server_if-Leads :
    (r : Resource) (wanted : Bool) (k : Listening) (c : AppConfig)
    → let (a, events) = server_if wanted k (record fresh { config = c }) in
      Leads r events 0 (owned r a)
server_if-Leads r true k c =
    let (s, events) = Server.create k c.tcp_port in
    Leads-between r events 0 (Served.owned r s) 0 (Served.owned r s + (0 + 0)) refl (omega arith)
      (Served.create-Leads r k c.tcp_port)
server_if-Leads r false k c = refl

module _ (M : Methods) (tidy : Tidy M) (r : Resource) where
  call-Ends :
      (m : Method) (a : App) (next : App → Exit)
      → ((b : App) → Ends r (owned r b) (next b))
      → Ends r (owned r a) (call M m a next)
  call-Ends m a next later =
      after-Ends r m (M m a) (owned r a) (next (M m a).app) (tidy r m a) (later (M m a).app)

  checked-Ends :
      (m : Method) (a : App) (next : App → Exit)
      → ((b : App) → Ends r (owned r b) (next b))
      → Ends r (owned r a) (checked M m a next)
  checked-Ends m a next later =
      let o = M m a in
      after-Ends r m o (owned r a) (unless_negative o.ret (finish 1 o.app) (next o.app))
        (tidy r m a)
        (unless_negative-Ends r (owned r o.app) o.ret (finish 1 o.app) (next o.app)
          (finish-Ends r 1 o.app) (later o.app))

  report-Ends : (a : App) → Ends r (owned r a) (report M a)
  unfolding report
  report-Ends a = call-Ends print_statistics a (finish 0) (finish-Ends r 0)

  stop-Ends : (a : App) → Ends r (owned r a) (stop M a)
  unfolding stop
  stop-Ends a = call-Ends stop_streaming a (report M) report-Ends

  stream-Ends : (a : App) → Ends r (owned r a) (stream M a)
  unfolding stream
  stream-Ends a = call-Ends main_loop a (stop M) stop-Ends

  start-Ends : (a : App) → Ends r (owned r a) (start M a)
  unfolding start
  start-Ends a = checked-Ends start_streaming a (stream M) stream-Ends

  map_buffers-Ends : (a : App) → Ends r (owned r a) (map_buffers M a)
  unfolding map_buffers
  map_buffers-Ends a = checked-Ends setup_mmap a (start M) start-Ends

  set_up-Ends : (a : App) → Ends r (owned r a) (set_up M a)
  unfolding set_up
  set_up-Ends a = checked-Ends configure_device a (map_buffers M) map_buffers-Ends

  opened_with-Ends : (only : Bool) (a : App) → Ends r (owned r a) (opened_with M only a)
  unfolding opened_with
  opened_with-Ends true a = report-Ends a
  opened_with-Ends false a = set_up-Ends a

  opened-Ends : (a : App) → Ends r (owned r a) (opened M a)
  unfolding opened
  opened-Ends a = opened_with-Ends a.config.stats_only a

  run_parsed-Ends :
      (ret : ℤ) (k : Listening) (c : AppConfig)
      → Ends r 0 (run_parsed M ret k (record fresh { config = c }))
  unfolding run_parsed
  run_parsed-Ends (pos zero) k c =
      let (a, events) = start_server k (record fresh { config = c }) in
      let rest = checked-Ends open_device a (opened M) opened-Ends in
      (
        Leads-append r events (checked M open_device a (opened M)).events 0 (owned r a) 0
            (server_if-Leads r (ltb 0 c.tcp_port) k c) rest.0,
        rest.1,
      )
  run_parsed-Ends (pos (suc n)) k c = (refl, (refl, refl, refl))
  run_parsed-Ends (negsuc n) k c = (refl, (refl, refl, refl))

-- For every command line, every answer to the calls that set up the socket, and every derived class
-- whose methods keep what they take in the members: when `run` returns, on whichever path, every
-- socket, descriptor and mapping was given back exactly once and none was used while not open, and
-- the server, the buffer pool and the device handle are empty.
pub run-Released :
    (r : Resource) (M : Methods) (arguments : List Argument) (k : Listening)
    → Tidy M
    → Leads r (run M arguments k).events 0 0 × IsEmptied (run M arguments k).app
unfolding run
run-Released r M arguments k tidy =
    let (ret, config) = parse_arguments arguments initial_config in
    run_parsed-Ends M tidy r ret k config
