-- ===== src/Viewer/Options.antt =====
-- `PhantomFpgaViewer::parse_arguments`: two passes over the arguments.
pub mod Positional
pub mod Settled
use Prim.Native.String.{String}
use Prim.Native.Char.{code}
use text.Mathlib.Text as Text
use phantomfpga_project.Base.{
  ℕ, zero, suc, ◌==◌, ◌||◌, ltb, ℤ, pos, negsuc, Bool, true, false, if◌then◌else◌,
}
use phantomfpga_project.Base.{Option, none, some, List, [], ◌∷◌}

-- What the passes ask of an argument.
pub data Kind : Type 0 where
  help record_flag dashed plain : Kind

abbrev starts_with_dash : String → Bool
starts_with_dash String.[] = false
starts_with_dash (String.◌∷◌ c s) = code c == b'-'

-- In the order of the first pass; the second tests for the last two only.
unfoldable pub kind : String → Kind
kind a =
    if Text.◌==◌ a "-h" || Text.◌==◌ a "--help"
    then help
    else if Text.◌==◌ a "--record"
    then record_flag
    else if starts_with_dash a
    then dashed
    else plain

-- What the first pass finds: help was asked for, the file's name is missing, or `record_path_`.
pub data Flags : Type 0 where
  helped missing_name : Flags
  recorded : String → Flags

abbrev if_last : Kind → String → Flags
if_last help path = helped
if_last record_flag path = missing_name
if_last dashed path = recorded path
if_last plain path = recorded path

unfoldable pub first_pass : List String → String → Flags
first_pass [] path = recorded path
first_pass (a ∷ []) path = if_last (kind a) path
first_pass (a ∷ b ∷ rest) path = elim (kind a) [
  | help ↦ helped
  | record_flag ↦ first_pass rest b
  | dashed ↦ first_pass (b ∷ rest) path
  | plain ↦ first_pass (b ∷ rest) path
]

pub data Target : Type 0 where
  bad_port : Target
  target : String → ℕ → Target

-- How `parse_arguments` ends: with its return code, or 0 and `record_path_`, host and port.
pub data Parsed : Type 0 where
  leave : ℤ → Parsed
  proceed : String → String → ℕ → Parsed

abbrev pub connect_to : String → Target → Parsed
connect_to path bad_port = leave (negsuc 0)
connect_to path (target host port) = proceed path host port

abbrev then_targets : Flags → Target → Parsed
then_targets helped t = leave (pos 1)
then_targets missing_name t = leave (negsuc 0)
then_targets (recorded path) t = connect_to path t

-- `port < 1 || port > 65535`.
abbrev pub port_of : ℤ → Option ℕ
port_of (pos n) = if ltb n 1 || ltb 65535 n then none else some n
port_of (negsuc n) = none

abbrev pub with_port : Option ℕ → (ℕ → Target) → Target
with_port none next = bad_port
with_port (some n) next = next n

module _ (atoi : String → ℤ) where
  -- The positional argument number `i`, the rest of the loop given.
  abbrev place : ℕ → String → String → ℕ → (ℕ → String → ℕ → Target) → Target
  place zero a host port next = next 1 a port
  place (suc zero) a host port next = with_port (port_of (atoi a)) (λ n. next 2 host n)
  place (suc (suc i)) a host port next = next (suc (suc (suc i))) host port

  unfoldable pub second_pass : List String → ℕ → String → ℕ → Target
  second_pass [] i host port = target host port
  second_pass (a ∷ []) i host port = elim (kind a) [
    | help ↦ target host port
    | record_flag ↦ target host port
    | dashed ↦ target host port
    | plain ↦ place i a host port (λ j h p. target h p)
  ]
  second_pass (a ∷ b ∷ rest) i host port = elim (kind a) [
    | help ↦ second_pass (b ∷ rest) i host port
    | record_flag ↦ second_pass rest i host port
    | dashed ↦ second_pass (b ∷ rest) i host port
    | plain ↦ place i a host port (second_pass (b ∷ rest))
  ]

  -- With the arguments after the program's name.
  unfoldable pub parse_arguments : List String → Parsed
  unfolding first_pass second_pass kind
  parse_arguments args = then_targets (first_pass args "") (second_pass args 0 "localhost" 5000)
