-- ===== src/Viewer/Options/Positional.antt =====
-- The second pass as a walk over the arguments that the tests of `kind` leave to it.
use Prim.Native.String.{String}
use phantomfpga_project.Base.{
  ℕ, zero, suc, ◌≡◌, refl, sym, ap, ◌∙◌, ℤ, Option, none, some, List, [], ◌∷◌,
}
use phantomfpga_project.Viewer.Options.{
  Kind, help, record_flag, dashed, plain, kind, recorded, first_pass, Target, target, connect_to,
  port_of, with_port, place, second_pass, parse_arguments,
}

-- The plain arguments, without the values of `--record`.
abbrev pub positionals : List String → List String
positionals [] = []
positionals (a ∷ []) = elim (kind a) [ plain ↦ a ∷ [] | help ↦ [] | record_flag ↦ [] | dashed ↦ [] ]
positionals (a ∷ b ∷ rest) = elim (kind a) [
  | plain ↦ a ∷ positionals (b ∷ rest)
  | help ↦ positionals (b ∷ rest)
  | record_flag ↦ positionals rest
  | dashed ↦ positionals (b ∷ rest)
]

module _ (atoi : String → ℤ) where
  abbrev pub settle_port : String → ℕ → List String → Target
  settle_port host port [] = target host port
  settle_port host port (a ∷ more) = with_port (port_of (atoi a)) (λ n. target host n)

  -- The target that two positional arguments name, with the defaults for what is missing.
  abbrev pub settle : List String → Target
  settle [] = target "localhost" 5000
  settle (host ∷ more) = settle_port host 5000 more

  -- What the loop makes of the positional arguments from number `i` on.
  abbrev from : ℕ → String → ℕ → List String → Target
  from zero host port [] = target host port
  from zero host port (a ∷ more) = settle_port a port more
  from (suc zero) host port more = settle_port host port more
  from (suc (suc i)) host port more = target host port

  with_port-ext :
      (answer : Option ℕ) (f g : ℕ → Target)
      → ((n : ℕ) → f n ≡ g n)
      → with_port answer f ≡ with_port answer g
  with_port-ext none f g h = refl
  with_port-ext (some n) f g h = h n

  place-from :
      (i : ℕ) (a host : String) (port : ℕ) (more : List String) (next : ℕ → String → ℕ → Target)
      → ((j : ℕ) (h : String) (p : ℕ) → next j h p ≡ from j h p more)
      → place atoi i a host port next ≡ from i host port (a ∷ more)
  place-from zero a host port more next h = h 1 a port
  place-from (suc zero) a host port more next h =
      with_port-ext (port_of (atoi a)) _ _ (λ n. h 2 host n)
  place-from (suc (suc i)) a host port more next h = h (suc (suc (suc i))) host port

  from-nil : (i : ℕ) (host : String) (port : ℕ) → from i host port [] ≡ target host port
  from-nil zero host port = refl
  from-nil (suc zero) host port = refl
  from-nil (suc (suc i)) host port = refl

  second_pass-from :
      (args : List String) (i : ℕ) (host : String) (port : ℕ)
      → second_pass atoi args i host port ≡ from i host port (positionals args)
  unfolding second_pass
  second_pass-from [] i host port = sym (from-nil i host port)
  second_pass-from (a ∷ []) i host port = last (kind a) refl
    where
      last :
          (k : Kind)
          → kind a ≡ k
          → second_pass atoi (a ∷ []) i host port ≡ from i host port (positionals (a ∷ []))
      last help e = rw (e, second_pass, positionals) (sym (from-nil i host port))
      last record_flag e = rw (e, second_pass, positionals) (sym (from-nil i host port))
      last dashed e = rw (e, second_pass, positionals) (sym (from-nil i host port))
      last plain e =
          rw (e, second_pass, positionals)
            (place-from i a host port [] (λ j h p. target h p) (λ j h p. sym (from-nil j h p)))
  second_pass-from (a ∷ b ∷ rest) i host port =
      more (kind a) (second_pass-from (b ∷ rest)) (second_pass-from rest i host port) refl
    where
      more :
          (k : Kind)
          → ((j : ℕ) (h : String) (p : ℕ)
              → second_pass atoi (b ∷ rest) j h p ≡ from j h p (positionals (b ∷ rest)))
          → second_pass atoi rest i host port ≡ from i host port (positionals rest)
          → kind a ≡ k
          → second_pass atoi (a ∷ b ∷ rest) i host port
            ≡ from i host port (positionals (a ∷ b ∷ rest))
      more help next skip e = rw (e, second_pass, positionals) (next i host port)
      more record_flag next skip e = rw (e, second_pass, positionals) skip
      more dashed next skip e = rw (e, second_pass, positionals) (next i host port)
      more plain next skip e =
          rw (e, second_pass, positionals)
            (place-from i a host port (positionals (b ∷ rest)) (second_pass atoi (b ∷ rest)) next)

  from-settle : (more : List String) → from 0 "localhost" 5000 more ≡ settle more
  from-settle [] = refl
  from-settle (host ∷ more) = refl

  pub parse_arguments-settle :
      (args : List String) (path : String)
      → first_pass args "" ≡ recorded path
      → parse_arguments atoi args ≡ connect_to path (settle (positionals args))
  unfolding parse_arguments
  parse_arguments-settle args path accepted = rw accepted (
      ap (connect_to path)
        (second_pass-from args 0 "localhost" 5000 ∙ from-settle (positionals args)))
