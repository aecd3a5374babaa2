-- ===== src/Viewer/ReadExact/Ends.antt =====
-- The loop of `read_exact` ends: how many turns it can take.
use phantomfpga_project.Base.{
  ℕ, zero, suc, ◌+◌, ◌-◌, ◌^◌, ◌≤◌, ◌<◌, Bool, true, false, ◌≡◌, ap, refl, arith, ◌∙◌,
}
use phantomfpga_project.Base.{List, [], ◌∷◌, ◌++◌, length}
use phantomfpga_project.Viewer.ReadExact.{
  bytes, end_of_file, interrupted, broken, Turn, stopped, reads, Outcome, returned, sub_size,
  read_loop, read_exact,
}
use phantomfpga_project.Viewer.ReadExact.Exact.{Honest}

-- The reads that a signal cut short.
abbrev pub interruptions : List Turn → ℕ
interruptions [] = 0
interruptions (reads interrupted ∷ script) = suc (interruptions script)
interruptions (reads (bytes bs) ∷ script) = interruptions script
interruptions (reads end_of_file ∷ script) = interruptions script
interruptions (reads broken ∷ script) = interruptions script
interruptions (stopped ∷ script) = interruptions script

-- The call returns, with these bytes in the buffer.
abbrev pub Returns : Outcome → Type 0
Returns o = (done : Bool) × (got : List ℕ) × (o ≡ returned done got)

loop-Returns :
    (script : List Turn) (remaining : ℕ) (got : List ℕ)
    → remaining < 2 ^ 64
    → Honest remaining script
    → remaining + interruptions script ≤ length script
    → Returns (read_loop script remaining got)
unfolding read_loop
loop-Returns script zero got small honest enough = (true, got, refl)
loop-Returns [] (suc r) got small honest enough = absurd (omega arith)
loop-Returns (stopped ∷ script) (suc r) got small honest enough = (false, got, refl)
loop-Returns (reads (bytes bs) ∷ script) (suc r) got small honest enough =
    let rest : sub_size (suc r) (length bs) ≡ suc r - length bs = omega arith in
    let later =
      loop-Returns script (suc r - length bs) (got ++ bs) (omega arith) honest.2 (omega arith) in
    (later.0, later.1, ap (λ k. read_loop script k (got ++ bs)) rest ∙ later.2)
loop-Returns (reads interrupted ∷ script) (suc r) got small honest enough =
    loop-Returns script (suc r) got small honest (omega arith)
loop-Returns (reads end_of_file ∷ script) (suc r) got small honest enough = (false, got, refl)
loop-Returns (reads broken ∷ script) (suc r) got small honest enough = (false, got, refl)

-- `read_exact` returns once the answers of read(2) are as many as the bytes asked for and the
-- interruptions among them together: every other answer brings a byte or ends the call.
pub read_exact-Returns :
    (script : List Turn) (len : ℕ)
    → len < 2 ^ 64
    → Honest len script
    → len + interruptions script ≤ length script
    → Returns (read_exact script len)
unfolding read_exact
read_exact-Returns script len small honest enough = loop-Returns script len [] small honest enough
