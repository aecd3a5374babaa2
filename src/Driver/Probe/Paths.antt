-- ===== src/Driver/Probe/Paths.antt =====
-- What holds at the end of every path through a check of `probe` holds of the check.
use phantomfpga_project.Base.{ℕ, Bool, true, false, if◌then◌else◌, Option, none, some}
use phantomfpga_project.Driver.Device.{Status, ok, fail, Errno}
use phantomfpga_project.Driver.Probe.{Outcome, check, check_pointer}

module _ (Q : Outcome → Type 0) where
  pub check-holds :
      (s : Status) (label : Errno → Outcome) (next : Outcome)
      → ((e : Errno) → Q (label e))
      → Q next
      → Q (check s label next)
  check-holds ok label next on_label on_next = on_next
  check-holds (fail e) label next on_label on_next = on_label e

  pub check_pointer-holds :
      (m : Option ℕ) (label : Outcome) (next : ℕ → Outcome)
      → Q label
      → ((a : ℕ) → Q (next a))
      → Q (check_pointer m label next)
  check_pointer-holds none label next on_label on_next = on_label
  check_pointer-holds (some a) label next on_label on_next = on_next a

  pub if-holds : (b : Bool) (yea nay : Outcome) → Q yea → Q nay → Q (if b then yea else nay)
  if-holds true yea nay on_yea on_nay = on_yea
  if-holds false yea nay on_yea on_nay = on_nay
