-- ===== src/Examples/Screens.antt =====
-- The viewer: addresses and command lines.
use phantomfpga_project.Base.{ℤ, pos, negsuc, true, false, ◌≡◌, refl}
use phantomfpga_project.Base.{some, List, [], ◌∷◌, ◌++◌}
use Prim.Native.String.{String}
use phantomfpga_project.Posix.{descriptor, Leads}
use phantomfpga_project.Viewer.Connect
use phantomfpga_project.Viewer.Connect.{
  Candidate, addresses, new_client, connect, connect-first, connect-Released,
}
use phantomfpga_project.Viewer.Options.{kind, recorded, proceed, first_pass, parse_arguments}
use phantomfpga_project.Viewer.Options.Settled.{parse_arguments-Settled, Settled}

-- No socket for the first address, none that answers at the second.
abbrev candidates : List Candidate
candidates =
    record { socket = negsuc 0; connects = true }
    ∷ record { socket = pos 3; connects = false }
    ∷ record { socket = pos 3; connects = true }
    ∷ []

connect-first_example :
    let o = connect (addresses candidates) (record { fd = negsuc 0 }) in
    (Connect.socket_of o.client.fd ≡ some 3) × (o.success ≡ true)
connect-first_example = connect-first candidates 0

connect-Released_example :
    let o = connect (addresses candidates) new_client in
    Leads (descriptor 3) (o.events ++ Connect.destroy o.client) 0 0
connect-Released_example = connect-Released (descriptor 3) (addresses candidates)

abbrev atoi : String → ℤ
atoi s = pos 8080

abbrev command_line : List String
command_line = "box" ∷ "--record" ∷ "-h" ∷ "8080" ∷ "-v" ∷ []

command_line_accepted : first_pass command_line "" ≡ recorded "-h"
unfolding first_pass kind
command_line_accepted = refl

parse_arguments-Settled_example :
    Settled atoi "-h" ("box" ∷ "8080" ∷ []) (parse_arguments atoi command_line)
parse_arguments-Settled_example =
    parse_arguments-Settled atoi command_line "-h" command_line_accepted

command_line_parsed : parse_arguments atoi command_line ≡ proceed "-h" "box" 8080
unfolding parse_arguments
command_line_parsed = refl
