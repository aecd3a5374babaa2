-- ===== src/App/Run/Impl.antt =====
-- `PhantomFpgaAppImpl` as it stands: methods that print a reminder and fail.
pub mod Loop
use phantomfpga_project.Base.{ℤ, pos, negsuc, Bool, true, false, ◌≡◌, refl}
use phantomfpga_project.Base.{Option, none, some, List, [], ◌∷◌, ◌++◌, if◌then◌else◌}
use phantomfpga_project.Posix.{Resource, Event, Leads, Leads-append, Leads-more}
use phantomfpga_project.App.Options.{Argument, initial_config, parse_arguments}
use phantomfpga_project.App.Server
use phantomfpga_project.App.Server.{TcpServer, Listening}
use phantomfpga_project.App.Server.Released as Served
use phantomfpga_project.App.Run.{
  App, fresh, open_device, configure_device, setup_mmap, start_streaming, stop_streaming, main_loop,
  print_statistics, Answer, Methods, run_parsed, run,
}
use phantomfpga_project.App.Run.Released.{owned, Tidy}

abbrev fails : ℤ → App → Answer
fails ret a = record { ret = ret; app = a; events = [] }

abbrev accept_if : Option TcpServer → ℤ → Option TcpServer × List Event
accept_if none fd = (none, [])
accept_if (some s) fd = let (s', events) = Server.try_accept fd s in (some s', events)

-- A round of the loop: the answer that accept(2) has ready.
abbrev accept_round : ℤ → App → App × List Event
accept_round fd a =
    let (server, events) = accept_if a.tcp_server fd in (record a { tcp_server = server }, events)

abbrev then_loop : List Event → Answer → Answer
then_loop events o = record o { events = events ++ o.events }

-- The rounds until the signal handler clears the flag.
unfoldable pub accept_loop : List ℤ → App → Answer
accept_loop [] a = record { ret = pos 0; app = record a { running = false }; events = [] }
accept_loop (fd ∷ rounds) a =
    let (a', events) = accept_round fd a in then_loop events (accept_loop rounds a')

abbrev pub enodev : ℤ
enodev = negsuc 18

-- `rounds` are what accept(2) has ready in each second until the signal.
unfoldable pub impl : List ℤ → Methods
unfolding accept_loop
impl rounds open_device a = fails enodev a
impl rounds configure_device a = fails (negsuc 0) a
impl rounds setup_mmap a = fails (negsuc 0) a
impl rounds start_streaming a = fails (negsuc 0) a
impl rounds stop_streaming a = fails (negsuc 0) a
impl rounds main_loop a = if a.running then accept_loop rounds a else fails (pos 0) a
impl rounds print_statistics a = fails (pos 0) a

accept_round-Leads :
    (r : Resource) (fd : ℤ) (server : Option TcpServer) (a : App)
    → a.tcp_server ≡ server
    → Leads r (accept_round fd a).1 (owned r a) (owned r (accept_round fd a).0)
accept_round-Leads r fd none a e = rw e
accept_round-Leads r fd (some s) a e =
    let (t, events) = Server.try_accept fd s in
    rw e
      (Leads-more r events (Served.owned r s) (Served.owned r t) _ (Served.try_accept-Keeps r fd s))

accept_loop-Leads :
    (r : Resource) (rounds : List ℤ) (a : App)
    → Leads r (accept_loop rounds a).events (owned r a) (owned r (accept_loop rounds a).app)
unfolding accept_loop
accept_loop-Leads r [] a = refl
accept_loop-Leads r (fd ∷ rounds) a =
    let (b, events) = accept_round fd a in
    Leads-append r events (accept_loop rounds b).events (owned r a) (owned r b)
      (owned r (accept_loop rounds b).app) (accept_round-Leads r fd a.tcp_server a refl)
      (accept_loop-Leads r rounds b)

loop_if-Leads :
    (r : Resource) (running : Bool) (rounds : List ℤ) (a : App)
    → let o = if running then accept_loop rounds a else fails (pos 0) a in
      Leads r o.events (owned r a) (owned r o.app)
loop_if-Leads r true rounds a = accept_loop-Leads r rounds a
loop_if-Leads r false rounds a = refl

pub impl-Tidy : (rounds : List ℤ) → Tidy (impl rounds)
unfolding impl
impl-Tidy rounds r open_device a = refl
impl-Tidy rounds r configure_device a = refl
impl-Tidy rounds r setup_mmap a = refl
impl-Tidy rounds r start_streaming a = refl
impl-Tidy rounds r stop_streaming a = refl
impl-Tidy rounds r main_loop a = loop_if-Leads r a.running rounds a
impl-Tidy rounds r print_statistics a = refl

pub run_parsed-impl :
    (rounds : List ℤ) (ret : ℤ) (k : Listening) (a : App)
    → ret ≡ pos 0
    → ((run_parsed (impl rounds) ret k a).status ≡ 1)
      × ((run_parsed (impl rounds) ret k a).calls ≡ (open_device, enodev) ∷ [])
unfolding impl run_parsed
run_parsed-impl rounds ret k a e = rw e (refl, refl)

-- With the methods as they stand, every accepted command line, `--stats` included, ends with exit
-- status 1 after one call, of `open_device`, which returns -ENODEV.
pub run-impl :
    (rounds : List ℤ) (arguments : List Argument) (k : Listening)
    → (parse_arguments arguments initial_config).0 ≡ pos 0
    → ((run (impl rounds) arguments k).status ≡ 1)
      × ((run (impl rounds) arguments k).calls ≡ (open_device, enodev) ∷ [])
unfolding run
run-impl rounds arguments k =
    let (ret, config) = parse_arguments arguments initial_config in
    run_parsed-impl rounds ret k (record fresh { config = config })
