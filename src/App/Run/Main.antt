-- ===== src/App/Run/Main.antt =====
-- `main` of phantomfpga_app_impl.cpp: `run`, and then the destructor of the application, which
-- destroys the members that own something in the reverse of their order.
use phantomfpga_project.Base.{ℕ, suc, zero, ℤ, pos, negsuc, ◌≡◌, refl, ap, ◌∙◌, List, [], ◌∷◌, ◌++◌}
use phantomfpga_project.Posix.{Resource, Event, Leads, Leads-append, tally}
use phantomfpga_project.App.Handles.FileDescriptor
use phantomfpga_project.App.Handles.FileDescriptor.{no_file}
use phantomfpga_project.App.Handles.MappedMemory
use phantomfpga_project.App.Handles.MappedMemory.{no_memory}
use phantomfpga_project.App.Options.{Argument, initial_config, parse_arguments}
use phantomfpga_project.App.Server.{Listening}
use phantomfpga_project.App.Run.{
  App, fresh, Method, Methods, open_device, reset_server, run, run_parsed,
}
use phantomfpga_project.App.Run.Released.{Tidy, IsEmptied, run-Released}
use phantomfpga_project.App.Run.Impl.{impl, impl-Tidy, enodev, run_parsed-impl}

abbrev destroy : App → List Event
destroy a =
    reset_server a.tcp_server
    ++ (MappedMemory.destroy a.buffer_pool ++ FileDescriptor.destroy a.dev_fd)

-- The exit status, what was done, and the methods that were called.
pub record Process : Type 0 where
  pub status : ℕ
  pub events : List Event
  pub calls : List (Method × ℤ)

unfoldable pub main : Methods → List Argument → Listening → Process
unfolding run
main M arguments k =
    let e = run M arguments k in
    record { status = e.status; events = e.events ++ destroy e.app; calls = e.calls }

destroy-emptied : (a : App) → IsEmptied a → destroy a ≡ []
destroy-emptied a (server, pool, file) =
    ap
      (λ s.
        reset_server s ++ (MappedMemory.destroy a.buffer_pool ++ FileDescriptor.destroy a.dev_fd))
      server
    ∙ ap (λ p. MappedMemory.destroy p ++ FileDescriptor.destroy a.dev_fd) pool
    ∙ ap FileDescriptor.destroy file

pub main-Released :
    (r : Resource) (M : Methods) (arguments : List Argument) (k : Listening)
    → Tidy M
    → Leads r (main M arguments k).events 0 0
unfolding main
main-Released r M arguments k tidy =
    let e = run M arguments k in
    let released = run-Released r M arguments k tidy in
    Leads-append r e.events (destroy e.app) 0 0 0 released.0
      (ap (λ es. tally r es 0) (destroy-emptied e.app released.1))

-- What the code that `parse_arguments` returns makes of a process whose device cannot be opened.
abbrev pub status_of : ℤ → ℕ
status_of (pos zero) = 1
status_of (pos (suc n)) = 0
status_of (negsuc n) = 1

abbrev pub calls_of : ℤ → List (Method × ℤ)
calls_of (pos zero) = (open_device, enodev) ∷ []
calls_of (pos (suc n)) = []
calls_of (negsuc n) = []

run_parsed-stubs :
    (rounds : List ℤ) (ret : ℤ) (k : Listening) (a : App)
    → let e = run_parsed (impl rounds) ret k a in
      (e.status ≡ status_of ret) × (e.calls ≡ calls_of ret)
unfolding run_parsed
run_parsed-stubs rounds (pos zero) k a = run_parsed-impl rounds (pos 0) k a refl
run_parsed-stubs rounds (pos (suc n)) k a = (refl, refl)
run_parsed-stubs rounds (negsuc n) k a = (refl, refl)

-- With the methods as they stand, for every command line and every answer to the calls that set up
-- the socket: `main` calls `open_device` alone, which returns -ENODEV, and exits with 1, if
-- `parse_arguments` returns 0; calls nothing and exits with 0 if it returns a positive code, and
-- with 1 if a negative one; and in each case every socket was given back exactly once.
pub main-stubs :
    (r : Resource) (rounds : List ℤ) (arguments : List Argument) (k : Listening)
    → let ret = (parse_arguments arguments initial_config).0 in
      let p = main (impl rounds) arguments k in
      (p.status ≡ status_of ret) × (p.calls ≡ calls_of ret) × Leads r p.events 0 0
unfolding main run
main-stubs r rounds arguments k =
    let (ret, config) = parse_arguments arguments initial_config in
    let (status, calls) = run_parsed-stubs rounds ret k (record fresh { config = config }) in
    (status, calls, main-Released r (impl rounds) arguments k (impl-Tidy rounds))
