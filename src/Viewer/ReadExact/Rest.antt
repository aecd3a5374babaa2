-- ===== src/Viewer/ReadExact/Rest.antt =====
-- One `read_exact` after another on the same connection.
use phantomfpga_project.Base.{ℕ, zero, suc, ◌-◌, ◌^◌, ◌≤◌, ◌<◌, true}
use phantomfpga_project.Base.{◌≡◌, refl, ap, sym, ◌∙◌, arith}
use phantomfpga_project.Base.{List, [], ◌∷◌, ◌++◌, length, length-append, take, drop}
use phantomfpga_project.Viewer.ReadExact.{
  bytes, end_of_file, interrupted, broken, Turn, stopped, reads, returned, read_exact,
}
use phantomfpga_project.Viewer.ReadExact.Exact.{delivered, Honest, read_exact-exactly}

-- The turns that are left when so many bytes have arrived.
abbrev pub unread : ℕ → List Turn → List Turn
unread zero script = script
unread (suc r) [] = []
unread (suc r) (stopped ∷ script) = script
unread (suc r) (reads (bytes bs) ∷ script) = unread (suc r - length bs) script
unread (suc r) (reads interrupted ∷ script) = unread (suc r) script
unread (suc r) (reads end_of_file ∷ script) = script
unread (suc r) (reads broken ∷ script) = script

drop-append_long {ℓ} :
    {A : Type ℓ} (n : ℕ) (xs ys : List A)
    → length xs ≤ n
    → drop n (xs ++ ys) ≡ drop (n - length xs) ys
drop-append_long n [] ys h = ap (λ k. drop k ys) (omega arith)
drop-append_long zero (x ∷ xs) ys h = absurd (omega arith)
drop-append_long (suc n) (x ∷ xs) ys h =
    drop-append_long n xs ys (omega arith) ∙ ap (λ k. drop k ys) (omega arith)

-- The rest of the turns delivers the rest of the stream.
pub delivered-unread :
    (n : ℕ) (script : List Turn)
    → Honest n script
    → n ≤ length (delivered script)
    → delivered (unread n script) ≡ drop n (delivered script)
delivered-unread zero script honest enough = refl
delivered-unread (suc r) [] honest enough = refl
delivered-unread (suc r) (stopped ∷ script) honest enough = absurd (omega arith)
delivered-unread (suc r) (reads (bytes bs) ∷ script) honest enough =
    delivered-unread (suc r - length bs) script honest.2
      (omega (arith, length-append bs (delivered script)))
    ∙ sym (drop-append_long (suc r) bs (delivered script) honest.1)
delivered-unread (suc r) (reads interrupted ∷ script) honest enough =
    delivered-unread (suc r) script honest enough
delivered-unread (suc r) (reads end_of_file ∷ script) honest enough = absurd (omega arith)
delivered-unread (suc r) (reads broken ∷ script) honest enough = absurd (omega arith)

-- Enough bytes: the call returns the first of them.
pub read_exact-enough :
    (n : ℕ) (script : List Turn)
    → n < 2 ^ 64
    → Honest n script
    → n ≤ length (delivered script)
    → read_exact script n ≡ returned true (take n (delivered script))
read_exact-enough n script small honest enough =
    read_exact-exactly script n small honest ∙ ground arith
