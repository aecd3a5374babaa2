-- ===== src/App/Signals.antt =====
-- Ctrl+C: `signal_handler` and the lines of `PhantomFpgaApp::run` that install it, with signals
-- arriving between any two of them. The viewer's handler and its lines are the same text.
pub mod Stops
use phantomfpga_project.Base.{ℕ, suc, Bool, true, false, if◌then◌else◌}
use phantomfpga_project.Base.{List, [], ◌∷◌, get_or}

pub data Signal : Type 0 where
  sigint sigterm : Signal

-- What a signal meets: the default action, which ends the process, or `signal_handler`.
pub data Disposition : Type 0 where
  by_default handled : Disposition

-- Whether `instance_` points to the object, its flag `running_`, and whether the process lives.
pub record Process : Type 0 where
  pub instance_ : Bool
  pub running : Bool
  pub on_sigint : Disposition
  pub on_sigterm : Disposition
  pub alive : Bool

abbrev pub started : Process
started = record {
  instance_ = false;
  running = true;
  on_sigint = by_default;
  on_sigterm = by_default;
  alive = true;
}

abbrev pub signal_handler : Process → Process
signal_handler p = if p.instance_ then record p { running = false } else p

abbrev act : Disposition → Process → Process
act by_default p = record p { alive = false }
act handled p = signal_handler p

abbrev pub deliver : Signal → Process → Process
deliver sigint p = act p.on_sigint p
deliver sigterm p = act p.on_sigterm p

-- The lines of `run` that matter here; `other` is any other, before or after.
pub data Line : Type 0 where
  set_instance : Line
  install : Signal → Line
  other : Line

abbrev pub execute : Line → Process → Process
execute set_instance p = record p { instance_ = true }
execute (install sigint) p = record p { on_sigint = handled }
execute (install sigterm) p = record p { on_sigterm = handled }
execute other p = p

-- `run` from the end of `parse_arguments` on.
unfoldable pub lines : List Line
lines = set_instance ∷ install sigint ∷ install sigterm ∷ []

pub record State : Type 0 where
  pub line : ℕ
  pub process : Process

abbrev pub initial : State
initial = record { line = 0; process = started }

-- The next line runs, or a signal arrives.
pub data Step : State → State → Type 0 where
  runs :
      (n : ℕ) (p : Process)
      → Step
          (record { line = n; process = p })
          (record { line = suc n; process = execute (get_or lines n other) p })
  arrives :
      (g : Signal) (n : ℕ) (p : Process)
      → Step (record { line = n; process = p }) (record { line = n; process = deliver g p })

pub data Steps (s : State) : State → Type 0 where
  done : Steps s s
  more : {t u : State} → Steps s t → Step t u → Steps s u
