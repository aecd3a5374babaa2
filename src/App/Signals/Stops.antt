-- ===== src/App/Signals/Stops.antt =====
-- What is left of the process once a signal has arrived.
use phantomfpga_project.Base.{ℕ, zero, suc, true, false, ◌≡◌, refl, ◌⊎◌, inl, inr, arith}
use phantomfpga_project.Base.{get_or}
use phantomfpga_project.App.Signals.{
  Signal, sigint, sigterm, Disposition, by_default, handled, Process, act, deliver, Line,
  set_instance, install, other, execute, lines, State, initial, runs, arrives, Steps, done, more,
}

-- Dead, or on its way out: the loop ends when it next looks at the flag.
abbrev pub IsStopped : Process → Type 0
IsStopped p = (p.alive ≡ false) ⊎ (p.running ≡ false)

-- No handler is installed before `instance_` is set.
abbrev Ready : ℕ → Process → Type 0
Ready zero p = (p.on_sigint ≡ by_default) × (p.on_sigterm ≡ by_default)
Ready (suc n) p = p.instance_ ≡ true

deliver-Ready : (g : Signal) (n : ℕ) (p : Process) → Ready n p → Ready n (deliver g p)
deliver-Ready sigint zero p ready = ground arith
deliver-Ready sigterm zero p ready = ground arith
deliver-Ready sigint (suc n) p ready = ground arith
deliver-Ready sigterm (suc n) p ready = ground arith

execute-Ready : (n : ℕ) (p : Process) → Ready n p → Ready (suc n) (execute (get_or lines n other) p)
unfolding lines
execute-Ready zero p ready = refl
execute-Ready (suc zero) p ready = ready
execute-Ready (suc (suc zero)) p ready = ready
execute-Ready (suc (suc (suc n))) p ready = ready

act-IsStopped : (d : Disposition) (p : Process) → p.instance_ ≡ true → IsStopped (act d p)
act-IsStopped by_default p set = inl refl
act-IsStopped handled p set = inr (ground arith)

deliver-IsStopped : (g : Signal) (n : ℕ) (p : Process) → Ready n p → IsStopped (deliver g p)
deliver-IsStopped sigint zero p ready = rw ready.0 (inl refl)
deliver-IsStopped sigterm zero p ready = rw ready.1 (inl refl)
deliver-IsStopped sigint (suc n) p ready = act-IsStopped p.on_sigint p ready
deliver-IsStopped sigterm (suc n) p ready = act-IsStopped p.on_sigterm p ready

Steps-Ready : {s : State} → Steps initial s → Ready s.line s.process
Steps-Ready done = (refl, refl)
Steps-Ready (more before (runs n p)) = execute-Ready n p (Steps-Ready before)
Steps-Ready (more before (arrives g n p)) = deliver-Ready g n p (Steps-Ready before)

execute-IsStopped : (l : Line) (p : Process) → IsStopped p → IsStopped (execute l p)
execute-IsStopped set_instance p stopped = stopped
execute-IsStopped (install sigint) p stopped = stopped
execute-IsStopped (install sigterm) p stopped = stopped
execute-IsStopped other p stopped = stopped

act-Keeps : (d : Disposition) (p : Process) → IsStopped p → IsStopped (act d p)
act-Keeps by_default p stopped = inl refl
act-Keeps handled p (inl dead) = inl (ground arith)
act-Keeps handled p (inr down) = inr (ground arith)

deliver-Keeps : (g : Signal) (p : Process) → IsStopped p → IsStopped (deliver g p)
deliver-Keeps sigint p stopped = act-Keeps p.on_sigint p stopped
deliver-Keeps sigterm p stopped = act-Keeps p.on_sigterm p stopped

Steps-IsStopped : {s t : State} → IsStopped s.process → Steps s t → IsStopped t.process
Steps-IsStopped stopped done = stopped
Steps-IsStopped stopped (more before (runs n p)) =
    execute-IsStopped (get_or lines n other) p (Steps-IsStopped stopped before)
Steps-IsStopped stopped (more before (arrives g n p)) =
    deliver-Keeps g p (Steps-IsStopped stopped before)

-- Whenever a SIGINT or SIGTERM arrives from the end of `parse_arguments` on, after any lines of
-- `run` and any other signals, the process is dead or its flag is down, and so it remains
-- whatever lines run and signals arrive later.
pub deliver-stops :
    {s t : State} (g : Signal)
    → Steps initial s
    → Steps (record { line = s.line; process = deliver g s.process }) t
    → IsStopped t.process
deliver-stops {s = s} g before later =
    Steps-IsStopped (deliver-IsStopped g s.line s.process (Steps-Ready before)) later
