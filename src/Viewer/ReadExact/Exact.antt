-- ===== src/Viewer/ReadExact/Exact.antt =====
-- `read_exact` against the stream: how the bytes are cut into reads does not matter.
use phantomfpga_project.Base.{ℕ, zero, suc, ◌-◌, ◌^◌, ◌≤◌, ◌<◌, Bool, true, false, ltb}
use phantomfpga_project.Base.{◌≡◌, ap, ◌∙◌, arith, if◌then◌else◌}
use phantomfpga_project.Base.{List, [], ◌∷◌, ◌++◌, length, length-append, take}
use mathlib.Core.List.{append-nil, append_assoc}
use phantomfpga_project.Viewer.ReadExact.{
  bytes, end_of_file, interrupted, broken, Turn, stopped, reads, Outcome, returned, waiting,
  sub_size, read_loop, read_exact,
}

-- The bytes that arrive before the flag falls, the stream ends or breaks.
abbrev pub delivered : List Turn → List ℕ
delivered [] = []
delivered (stopped ∷ script) = []
delivered (reads (bytes bs) ∷ script) = bs ++ delivered script
delivered (reads interrupted ∷ script) = delivered script
delivered (reads end_of_file ∷ script) = []
delivered (reads broken ∷ script) = []

-- Whether one of these happens at all.
abbrev pub ended : List Turn → Bool
ended [] = false
ended (stopped ∷ script) = true
ended (reads (bytes bs) ∷ script) = ended script
ended (reads interrupted ∷ script) = ended script
ended (reads end_of_file ∷ script) = true
ended (reads broken ∷ script) = true

-- read(2) returns at least one byte and no more than asked for, as long as any is asked for.
abbrev pub Honest : ℕ → List Turn → Type 0
Honest zero script = Unit
Honest (suc r) [] = Unit
Honest (suc r) (stopped ∷ script) = Unit
Honest (suc r) (reads (bytes bs) ∷ script) =
    (1 ≤ length bs) × (length bs ≤ suc r) × Honest (suc r - length bs) script
Honest (suc r) (reads interrupted ∷ script) = Honest (suc r) script
Honest (suc r) (reads end_of_file ∷ script) = Unit
Honest (suc r) (reads broken ∷ script) = Unit

-- The result as a function of the stream alone.
abbrev pub exactly : ℕ → List ℕ → Bool → List ℕ → Outcome
exactly remaining stream over got =
    if ltb (length stream) remaining
    then (if over then returned false (got ++ stream) else waiting)
    else returned true (got ++ take remaining stream)

take-append_long {ℓ} :
    {A : Type ℓ} (n : ℕ) (xs ys : List A)
    → length xs ≤ n
    → take n (xs ++ ys) ≡ xs ++ take (n - length xs) ys
take-append_long n [] ys h = ap (λ k. take k ys) (omega arith)
take-append_long zero (x ∷ xs) ys h = absurd (omega arith)
take-append_long (suc n) (x ∷ xs) ys h =
    ap (λ zs. x ∷ zs)
      (take-append_long n xs ys (omega arith) ∙ ap (λ k. xs ++ take k ys) (omega arith))

-- A chunk moves from the stream into the buffer.
exactly-chunk :
    (r : ℕ) (bs stream : List ℕ) (over : Bool) (got : List ℕ)
    → length bs ≤ r
    → exactly (r - length bs) stream over (got ++ bs) ≡ exactly r (bs ++ stream) over got
exactly-chunk r bs stream over got h = ground (
  arith,
  length-append bs stream,
  take-append_long r bs stream h,
  append_assoc got bs stream,
  append_assoc got bs (take (r - length bs) stream),
)

loop-exactly :
    (script : List Turn) (remaining : ℕ) (got : List ℕ)
    → remaining < 2 ^ 64
    → Honest remaining script
    → read_loop script remaining got ≡ exactly remaining (delivered script) (ended script) got
unfolding read_loop
loop-exactly script zero got small honest = ground (arith, append-nil got)
loop-exactly [] (suc r) got small honest = ground (arith, append-nil got)
loop-exactly (stopped ∷ script) (suc r) got small honest = ground (arith, append-nil got)
loop-exactly (reads (bytes bs) ∷ script) (suc r) got small honest =
    let rest : sub_size (suc r) (length bs) ≡ suc r - length bs = omega arith in
    ap (λ k. read_loop script k (got ++ bs)) rest
    ∙ loop-exactly script (suc r - length bs) (got ++ bs) (omega arith) honest.2
    ∙ exactly-chunk (suc r) bs (delivered script) (ended script) got honest.1
loop-exactly (reads interrupted ∷ script) (suc r) got small honest =
    loop-exactly script (suc r) got small honest
loop-exactly (reads end_of_file ∷ script) (suc r) got small honest = ground (arith, append-nil got)
loop-exactly (reads broken ∷ script) (suc r) got small honest = ground (arith, append-nil got)

-- For every way in which a stream is cut into reads and EINTRs, and every length below 2^64:
-- `read_exact` returns true with exactly the first `len` bytes when at least that many arrive
-- before the flag falls, the stream ends or breaks; false with the bytes that arrived when fewer
-- do; and waits in read(2) when fewer have arrived and nothing ended.
pub read_exact-exactly :
    (script : List Turn) (len : ℕ)
    → len < 2 ^ 64
    → Honest len script
    → read_exact script len ≡ exactly len (delivered script) (ended script) []
unfolding read_exact
read_exact-exactly script len small honest = loop-exactly script len [] small honest
