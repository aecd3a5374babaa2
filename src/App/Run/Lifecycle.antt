-- ===== src/App/Run/Lifecycle.antt =====
-- The order in which `run` calls the methods, as steps through the phases of the application.
use phantomfpga_project.Base.{ℕ, ℤ, pos, negsuc, Bool, true, false, ◌≡◌}
use phantomfpga_project.Base.{List, [], ◌∷◌}
use phantomfpga_project.App.Options.{Argument, initial_config, parse_arguments}
use phantomfpga_project.App.Server.{Listening}
use phantomfpga_project.App.Run.{
  App, fresh, Method, open_device, configure_device, setup_mmap, start_streaming, stop_streaming,
  main_loop, print_statistics, Answer, Methods, Exit, finish, after, unless_negative, start_server,
  checked, report, stop, stream, start, map_buffers, set_up, opened_with, run_parsed, run,
}
use phantomfpga_project.App.Run as Run

pub data Phase : Type 0 where
  begun opened configured mapped streaming : Phase

-- The method that leads from a phase to the next.
pub data Attempt : Phase → Method → Phase → Type 0 where
  opening : Attempt begun open_device opened
  configuring : Attempt opened configure_device configured
  mapping : Attempt configured setup_mmap mapped
  starting : Attempt mapped start_streaming streaming

-- The calls from a phase to the end, with what they returned, and the exit status.
pub data Lifecycle : Phase → List (Method × ℤ) → ℕ → Type 0 where
  failed : {p q : Phase} {m : Method} → Attempt p m q → (n : ℕ) → Lifecycle p ((m, negsuc n) ∷ []) 1
  passed :
      {p q : Phase} {m : Method} {calls : List (Method × ℤ)} {status : ℕ}
      → Attempt p m q
      → (n : ℕ) → Lifecycle q calls status
      → Lifecycle p ((m, pos n) ∷ calls) status
  statistics : (x : ℤ) → Lifecycle opened ((print_statistics, x) ∷ []) 0
  streamed :
      (x y z : ℤ)
      → Lifecycle streaming ((main_loop, x) ∷ (stop_streaming, y) ∷ (print_statistics, z) ∷ []) 0

-- The calls of a way to end.
abbrev Follows : Phase → Exit → Type 0
Follows p e = Lifecycle p e.calls e.status

unless_negative-Follows :
    {p q : Phase} {m : Method} (step : Attempt p m q) (a : App) (ret : ℤ) (next : Exit)
    → Follows q next
    → Lifecycle p
        ((m, ret) ∷ (unless_negative ret (finish 1 a) next).calls)
        (unless_negative ret (finish 1 a) next).status
unless_negative-Follows step a (pos n) next rest = passed step n rest
unless_negative-Follows step a (negsuc n) next rest = failed step n

module _ (M : Methods) where
  checked-Follows :
      {p q : Phase} {m : Method} (step : Attempt p m q) (a : App) (next : App → Exit)
      → ((b : App) → Follows q (next b))
      → Follows p (checked M m a next)
  checked-Follows {m} step a next rest =
      let o = M m a in unless_negative-Follows step o.app o.ret (next o.app) (rest o.app)

  stream-Follows : (a : App) → Follows streaming (stream M a)
  unfolding stream stop report
  stream-Follows a = streamed _ _ _

  start-Follows : (a : App) → Follows mapped (start M a)
  unfolding start
  start-Follows a = checked-Follows starting a (stream M) stream-Follows

  map_buffers-Follows : (a : App) → Follows configured (map_buffers M a)
  unfolding map_buffers
  map_buffers-Follows a = checked-Follows mapping a (start M) start-Follows

  opened_with-Follows : (only : Bool) (a : App) → Follows opened (opened_with M only a)
  unfolding opened_with set_up report
  opened_with-Follows true a = statistics _
  opened_with-Follows false a = checked-Follows configuring a (map_buffers M) map_buffers-Follows

  opened-Follows : (a : App) → Follows opened (Run.opened M a)
  unfolding Run.opened
  opened-Follows a = opened_with-Follows a.config.stats_only a

  run_parsed-Follows :
      (ret : ℤ) (k : Listening) (a : App) → ret ≡ pos 0 → Follows begun (run_parsed M ret k a)
  unfolding run_parsed
  run_parsed-Follows ret k a e =
      rw e (checked-Follows opening (start_server k a).0 (Run.opened M) opened-Follows)

-- For every derived class and every command line that `parse_arguments` accepts: `run` opens,
-- configures, maps and starts in this order, returning 1 at the first of these that returns a
-- negative code, with no call after it; once started it runs the main loop, stops the stream and
-- prints, and returns 0; instead of configuring it may print the statistics and return 0.
pub run-Lifecycle :
    (M : Methods) (arguments : List Argument) (k : Listening)
    → (parse_arguments arguments initial_config).0 ≡ pos 0
    → Lifecycle begun (run M arguments k).calls (run M arguments k).status
unfolding run
run-Lifecycle M arguments k =
    let (ret, config) = parse_arguments arguments initial_config in
    run_parsed-Follows M ret k (record fresh { config = config })
