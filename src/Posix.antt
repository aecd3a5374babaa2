-- ===== src/Posix.antt =====
-- What the application and the viewer take from the operating system and give back: descriptors,
-- memory mappings and address lists, as a sequence of events.
use phantomfpga_project.Base.{ℕ, zero, suc, ◌+◌, Bool, true, false, ◌&&◌, ◌==◌}
use phantomfpga_project.Base.{Option, none, some, List, [], ◌∷◌, ◌++◌, ◌≡◌, refl, arith}
use phantomfpga_project.Base.{if◌then◌else◌}

pub data Resource : Type 0 where
  descriptor : ℕ → Resource
  mapping : ℕ → ℕ → Resource
  address_list : Resource

-- `writes` holds the bytes that send(2) accepted.
pub data Event : Type 0 where
  takes gives : Resource → Event
  writes : ℕ → List ℕ → Event

abbrev pub same_resource : Resource → Resource → Bool
same_resource (descriptor m) (descriptor n) = m == n
same_resource (mapping a s) (mapping b t) = a == b && s == t
same_resource address_list address_list = true
same_resource _ _ = false

-- How often `r` is counted by one handle on `q`.
unfoldable pub one_of : Resource → Resource → ℕ
one_of r q = if same_resource q r then 1 else 0

-- Given back with `n` copies open, of which `k` are taken off. `none` is a double close.
abbrev take_off : ℕ → ℕ → Option ℕ
take_off zero n = some n
take_off (suc k) zero = none
take_off (suc k) (suc n) = take_off k n

-- A use of a descriptor that is not open is a fault too.
abbrev in_use : ℕ → ℕ → Option ℕ
in_use zero n = some n
in_use (suc k) zero = none
in_use (suc k) (suc n) = some (suc n)

abbrev tally_one : Resource → Event → ℕ → Option ℕ
tally_one r (takes q) n = some (n + one_of r q)
tally_one r (gives q) n = take_off (one_of r q) n
tally_one r (writes fd bytes) n = in_use (one_of r (descriptor fd)) n

abbrev bind_count : Option ℕ → (ℕ → Option ℕ) → Option ℕ
bind_count none f = none
bind_count (some n) f = f n

-- How often `r` is open after the events, of `n` before them.
abbrev pub tally : Resource → List Event → ℕ → Option ℕ
tally r [] n = some n
tally r (e ∷ es) n = bind_count (tally_one r e n) (tally r es)

-- The events lead from `n` open copies of `r` to `m`, with no fault on the way.
abbrev pub Leads : Resource → List Event → ℕ → ℕ → Type 0
Leads r es n m = tally r es n ≡ some m

tally-append_step :
    (r : Resource) (now : Option ℕ) (es fs : List Event)
    → ((n : ℕ) → tally r (es ++ fs) n ≡ bind_count (tally r es n) (tally r fs))
    → bind_count now (tally r (es ++ fs)) ≡ bind_count (bind_count now (tally r es)) (tally r fs)
tally-append_step r none es fs rest = refl
tally-append_step r (some n) es fs rest = rest n

tally-append :
    (r : Resource) (es fs : List Event) (n : ℕ)
    → tally r (es ++ fs) n ≡ bind_count (tally r es n) (tally r fs)
tally-append r [] fs n = refl
tally-append r (e ∷ es) fs n =
    tally-append_step r (tally_one r e n) es fs (λ k. tally-append r es fs k)

-- One part after another.
pub Leads-append :
    (r : Resource) (es fs : List Event) (n m k : ℕ)
    → Leads r es n m
    → Leads r fs m k
    → Leads r (es ++ fs) n k
Leads-append r es fs n m k first second = rw (tally-append r es fs n, first) second

take_off-more : (k n m d : ℕ) → take_off k n ≡ some m → take_off k (n + d) ≡ some (m + d)
take_off-more zero n m d h = ground arith
take_off-more (suc k) zero m d h = cc
take_off-more (suc k) (suc n) m d h =
    let e : suc n + d ≡ suc (n + d) = omega arith in rw e (take_off-more k n m d h)

in_use-more : (k n m d : ℕ) → in_use k n ≡ some m → in_use k (n + d) ≡ some (m + d)
in_use-more zero n m d h = ground arith
in_use-more (suc k) zero m d h = cc
in_use-more (suc k) (suc n) m d h =
    let e : suc n + d ≡ suc (n + d) = omega arith in rw e (ground arith)

tally_one-more :
    (r : Resource) (e : Event) (n m d : ℕ)
    → tally_one r e n ≡ some m
    → tally_one r e (n + d) ≡ some (m + d)
tally_one-more r (takes q) n m d h = ground arith
tally_one-more r (gives q) n m d h = take_off-more (one_of r q) n m d h
tally_one-more r (writes fd bytes) n m d h = in_use-more (one_of r (descriptor fd)) n m d h

bind_count-more :
    (r : Resource) (e : Event) (es : List Event) (n m d : ℕ) (now : Option ℕ)
    → tally_one r e n ≡ now
    → ((k : ℕ) → tally r es k ≡ some m → tally r es (k + d) ≡ some (m + d))
    → bind_count now (tally r es) ≡ some m
    → bind_count (tally_one r e (n + d)) (tally r es) ≡ some (m + d)
bind_count-more r e es n m d none now rest h = cc
bind_count-more r e es n m d (some k) now rest h = rw (tally_one-more r e n k d now) (rest k h)

-- Copies that others hold do not matter.
pub Leads-more :
    (r : Resource) (es : List Event) (n m d : ℕ) → Leads r es n m → Leads r es (n + d) (m + d)
Leads-more r [] n m d h = ground arith
Leads-more r (e ∷ es) n m d h =
    bind_count-more r e es n m d (tally_one r e n) refl (λ k. Leads-more r es k m d) h

-- The same between equal counts.
pub Leads-between :
    (r : Resource) (es : List Event) (n m n' m' : ℕ)
    → n' ≡ n
    → m' ≡ m
    → Leads r es n m
    → Leads r es n' m'
Leads-between r es n m n' m' before after leads = rw (before, after) leads
