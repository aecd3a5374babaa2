-- ===== src/Viewer/Options/Settled.antt =====
-- Host and port are the first two arguments that are neither flags nor the value of `--record`,
-- said of the texts themselves.
use Prim.Native.String.{String}
use Prim.Native.Char.{code}
use text.Mathlib.Text as Text
use text.Mathlib.TextEquality.{eq_iff}
use mathlib.Core.Path.{subst}
use phantomfpga_project.Base.{
  ℕ, ◌==◌, ◌≤◌, ◌<◌, ◌≡◌, refl, sym, ap, ◌∙◌, ◌⊎◌, inl, inr, ℤ, pos, negsuc, Bool, true, false, ltb,
  Bool-cases, if◌then◌else◌, arith,
}
use phantomfpga_project.Base.{List, [], ◌∷◌}
use phantomfpga_project.Viewer.Options.{
  Kind, help, record_flag, dashed, plain, kind, recorded, first_pass, target, Parsed, leave,
  proceed, connect_to, helped, missing_name, if_last, port_of, with_port, parse_arguments,
}
use phantomfpga_project.Viewer.Options.Positional.{positionals, settle, parse_arguments-settle}

-- An argument that begins with a dash, which is character 45.
abbrev pub is_flag : String → Bool
is_flag String.[] = false
is_flag (String.◌∷◌ c s) = code c == 45

abbrev pub is_record : String → Bool
is_record a = Text.◌==◌ a "--record"

-- The arguments that are neither flags nor the text after a `--record`.
abbrev pub unflagged : List String → List String
unflagged [] = []
unflagged (a ∷ []) = if is_flag a then [] else a ∷ []
unflagged (a ∷ b ∷ rest) = elim (is_record a) [
  | true ↦ unflagged rest
  | false ↦ elim (is_flag a) [ true ↦ unflagged (b ∷ rest) | false ↦ a ∷ unflagged (b ∷ rest) ]
]

-- What the texts of each kind are.
abbrev Describes : Kind → String → Type 0
Describes help a = (is_record a ≡ false) × (is_flag a ≡ true)
Describes record_flag a = (is_record a ≡ true) × (is_flag a ≡ true)
Describes dashed a = (is_record a ≡ false) × (is_flag a ≡ true)
Describes plain a = (is_record a ≡ false) × (is_flag a ≡ false)

kind-Describes : (a : String) → Describes (kind a) a
unfolding kind
kind-Describes a = elim (Bool-cases (Text.◌==◌ a "-h")) [
  | inl short ↦ subst (λ b. Describes (kind b) b) (sym ((eq_iff a "-h").0 short)) (refl, refl)
  | inr short ↦ elim (Bool-cases (Text.◌==◌ a "--help")) [
    | inl long ↦ subst (λ b. Describes (kind b) b) (sym ((eq_iff a "--help").0 long)) (refl, refl)
    | inr long ↦ elim (Bool-cases (is_record a)) [
      | inl record_name ↦
          subst (λ b. Describes (kind b) b) (sym ((eq_iff a "--record").0 record_name)) (refl, refl)
      | inr other ↦ elim (Bool-cases (is_flag a)) [
        | inl dash ↦ rw (short, long, other, dash) (other, dash)
        | inr none_such ↦ rw (short, long, other, none_such) (other, none_such)
      ]
    ]
  ]
]

positionals-unflagged : (args : List String) → positionals args ≡ unflagged args
positionals-unflagged [] = refl
positionals-unflagged (a ∷ []) = last (kind a) refl (kind-Describes a)
  where
    last :
        (k : Kind) → kind a ≡ k → Describes (kind a) a → positionals (a ∷ []) ≡ unflagged (a ∷ [])
    last help e h = rw (e, positionals) (rw (subst (λ k. Describes k a) e h).1)
    last record_flag e h = rw (e, positionals) (rw (subst (λ k. Describes k a) e h).1)
    last dashed e h = rw (e, positionals) (rw (subst (λ k. Describes k a) e h).1)
    last plain e h = rw (e, positionals) (rw (subst (λ k. Describes k a) e h).1)
positionals-unflagged (a ∷ b ∷ rest) =
    more (kind a) (positionals-unflagged (b ∷ rest)) (positionals-unflagged rest) refl
      (kind-Describes a)
  where
    more :
        (k : Kind)
        → positionals (b ∷ rest) ≡ unflagged (b ∷ rest)
        → positionals rest ≡ unflagged rest
        → kind a ≡ k
        → Describes (kind a) a
        → positionals (a ∷ b ∷ rest) ≡ unflagged (a ∷ b ∷ rest)
    more help here skipped e h =
        let (named, flag) = subst (λ k. Describes k a) e h in
        rw (e, positionals, named, flag, unflagged) here
    more record_flag here skipped e h =
        let (named, flag) = subst (λ k. Describes k a) e h in
        rw (e, positionals, named, unflagged) skipped
    more dashed here skipped e h =
        let (named, flag) = subst (λ k. Describes k a) e h in
        rw (e, positionals, named, flag, unflagged) here
    more plain here skipped e h =
        let (named, flag) = subst (λ k. Describes k a) e h in
        rw (e, positionals, named, flag, unflagged) (ap (λ l. a ∷ l) here)

-- The text after the last `--record`, a given one if there is none.
abbrev pub last_name : List String → String → String
last_name [] path = path
last_name (a ∷ []) path = path
last_name (a ∷ b ∷ rest) path = elim (is_record a) [
  | true ↦ last_name rest b
  | false ↦ last_name (b ∷ rest) path
]

recorded-injective : (p q : String) → recorded p ≡ recorded q → p ≡ q
recorded-injective p q e = ap (λ f. elim f [ recorded r ↦ r | helped ↦ p | missing_name ↦ p ]) e

first_pass-last_name :
    (args : List String) (path p : String)
    → first_pass args path ≡ recorded p
    → last_name args path ≡ p
unfolding first_pass
first_pass-last_name [] path p e = recorded-injective path p e
first_pass-last_name (a ∷ []) path p e = last (kind a) e
  where
    last : (k : Kind) → if_last k path ≡ recorded p → path ≡ p
    last help e = cc
    last record_flag e = cc
    last dashed e = recorded-injective path p e
    last plain e = recorded-injective path p e
first_pass-last_name (a ∷ b ∷ rest) path p e =
    more (kind a) (first_pass-last_name (b ∷ rest) path p) (first_pass-last_name rest b p) refl
      (kind-Describes a) e
  where
    more :
        (k : Kind)
        → (first_pass (b ∷ rest) path ≡ recorded p → last_name (b ∷ rest) path ≡ p)
        → (first_pass rest b ≡ recorded p → last_name rest b ≡ p)
        → kind a ≡ k
        → Describes (kind a) a
        → first_pass (a ∷ b ∷ rest) path ≡ recorded p
        → last_name (a ∷ b ∷ rest) path ≡ p
    more help here skipped f h e = let asked : helped ≡ recorded p = rw (f, first_pass) at e in cc
    more record_flag here skipped f h e =
        let named = (subst (λ k. Describes k a) f h).0 in
        rw (last_name, named) (skipped (rw (f, first_pass) at e))
    more dashed here skipped f h e =
        let named = (subst (λ k. Describes k a) f h).0 in
        rw (last_name, named) (here (rw (f, first_pass) at e))
    more plain here skipped f h e =
        let named = (subst (λ k. Describes k a) f h).0 in
        rw (last_name, named) (here (rw (f, first_pass) at e))

-- No port's number.
abbrev pub OutOfRange : ℤ → Type 0
OutOfRange (pos n) = (n ≡ 0) ⊎ (65535 < n)
OutOfRange (negsuc n) = Unit

-- The target that the arguments name, with the defaults for what is missing.
abbrev pub Settled : (String → ℤ) → String → List String → Parsed → Type 0
Settled atoi path [] p = p ≡ proceed path "localhost" 5000
Settled atoi path (host ∷ []) p = p ≡ proceed path host 5000
Settled atoi path (host ∷ a ∷ more) p =
    ((n : ℕ) × (atoi a ≡ pos n) × (1 ≤ n) × (n ≤ 65535) × (p ≡ proceed path host n))
    ⊎ (OutOfRange (atoi a) × (p ≡ leave (negsuc 0)))

port-Settled :
    (z : ℤ) (path host : String)
    → let p = connect_to path (with_port (port_of z) (λ n. target host n)) in
      ((n : ℕ) × (z ≡ pos n) × (1 ≤ n) × (n ≤ 65535) × (p ≡ proceed path host n))
      ⊎ (OutOfRange z × (p ≡ leave (negsuc 0)))
port-Settled (negsuc n) path host = inr (tt, refl)
port-Settled (pos n) path host = elim (Bool-cases (ltb n 1)) [
  | inl small ↦ rw small (inr (inl (ground arith), refl))
  | inr positive ↦ elim (Bool-cases (ltb 65535 n)) [
    | inl large ↦ rw (positive, large) (inr (inr (ground arith), refl))
    | inr fits ↦ rw (positive, fits) (inl (n, refl, ground arith, ground arith, refl))
  ]
]

settle-Settled :
    (atoi : String → ℤ) (path : String) (args : List String)
    → Settled atoi path args (connect_to path (settle atoi args))
settle-Settled atoi path [] = refl
settle-Settled atoi path (host ∷ []) = refl
settle-Settled atoi path (host ∷ a ∷ more) = port-Settled (atoi a) path host

-- For every command line that the first pass accepts, with any atoi: `parse_arguments` proceeds
-- with the text after the last `--record` as the file's name, empty if there is none, and with the
-- first two arguments that neither begin with a dash nor stand after a `--record` as host and port,
-- localhost and 5000 where they are missing, if the second is missing or atoi reads a number from 1
-- to 65535 from it; it returns -1 if the second is there and atoi reads another number.
pub parse_arguments-Settled :
    (atoi : String → ℤ) (args : List String) (path : String)
    → first_pass args "" ≡ recorded path
    → Settled atoi (last_name args "") (unflagged args) (parse_arguments atoi args)
parse_arguments-Settled atoi args path accepted = rw (first_pass-last_name args "" path accepted) (
    subst (Settled atoi path (unflagged args))
      (sym (
        parse_arguments-settle atoi args path accepted
        ∙ ap (λ more. connect_to path (settle atoi more)) (positionals-unflagged args)))
      (settle-Settled atoi path (unflagged args)))
