-- ===== src/Examples/Application.antt =====
-- The application: handles, the server, and a whole run.
use phantomfpga_project.Base.{ℕ, pos, negsuc, true, false, ◌≡◌, refl, arith}
use phantomfpga_project.Base.{List, [], ◌∷◌, ◌++◌, replicate}
use phantomfpga_project.Posix.{descriptor, takes, gives, Leads}
use phantomfpga_project.App.Handles.FileDescriptor
use phantomfpga_project.App.Handles.Wrapper.{file_descriptor}
use phantomfpga_project.App.Handles.Store
use phantomfpga_project.App.Options.{
  Argument, set_rate, print_stats, initial_config, parse_arguments,
}
use phantomfpga_project.App.Server.{
  TcpServer, Listening, Sent, epipe, other_error, header, send_frame,
}
use phantomfpga_project.App.Server.Session.{Call, accepts, sends, session, session-Released}
use phantomfpga_project.App.Server.Wire.{
  all_of, send_all, send_whole, Receives, send_all-Receives, written,
}
use phantomfpga_project.App.Server.Outcome.{send_frame-partial, send_frame-stray}
use phantomfpga_project.Viewer.ReadExact.Exact.{delivered}
use phantomfpga_project.Viewer.ReadExact.Rest.{unread}
use phantomfpga_project.App.Run.{open_device, run}
use phantomfpga_project.App.Run.Released.{IsEmptied, run-Released}
use phantomfpga_project.App.Run.Lifecycle.{begun, Lifecycle, run-Lifecycle}
use phantomfpga_project.App.Run.Impl.{impl, impl-Tidy, enodev}
use phantomfpga_project.App.Run.Main.{main, main-stubs}
use phantomfpga_project.Viewer.ReadExact.{Turn, reads, bytes, interrupted, returned, read_exact}

abbrev fd : ℕ → FileDescriptor.FileDescriptor
fd n = record { fd = pos n }

-- Two handles; the second is moved onto the first and then onto itself.
abbrev moves : List (Store.Op file_descriptor)
moves = Store.put 0 (fd 5) ∷ Store.put 1 (fd 6) ∷ Store.move 0 1 ∷ Store.move 0 0 ∷ []

moves-scope :
    Store.scope file_descriptor moves (replicate 2 FileDescriptor.no_file)
    ≡ takes (descriptor 5) ∷ takes (descriptor 6) ∷ gives (descriptor 5) ∷ gives (descriptor 6) ∷ []
unfolding Store.scope
moves-scope = refl

scope-Released_example :
    Leads
      (descriptor 5)
      (Store.scope file_descriptor moves (replicate 2 FileDescriptor.no_file))
      0
      0
scope-Released_example = Store.scope-Released file_descriptor (descriptor 5) 2 moves

abbrev listening : Listening
listening = record { socket = pos 3; bind = true; listen = true }

abbrev whole : Sent
whole = record { count = pos 4; errno = other_error }

abbrev part : Sent
part = record { count = pos 2; errno = other_error }

abbrev gone : Sent
gone = record { count = negsuc 0; errno = epipe }

abbrev payload : List ℕ
payload = 10 ∷ 20 ∷ 30 ∷ 40 ∷ []

abbrev calls : List Call
calls =
    accepts (pos 4) ∷ sends whole whole payload ∷ sends whole gone payload ∷ accepts (pos 4) ∷ []

session-Released_example : Leads (descriptor 4) (session listening 5000 calls) 0 0
session-Released_example = session-Released (descriptor 4) listening 5000 calls

abbrev serving : TcpServer
serving = record {
  listen_fd = fd 3;
  client_fd = fd 4;
  port = 5000;
  stats = record { frames_sent = 0; bytes_sent = 0; send_errors = 0 };
}

-- The viewer reads 0, 0 of the next frame's length as the payload's last bytes.
abbrev cut_short : List Turn
cut_short =
    reads (bytes (0 ∷ 0 ∷ 0 ∷ 4 ∷ []))
    ∷ reads (bytes (10 ∷ 20 ∷ 0 ∷ 0 ∷ []))
    ∷ reads (bytes (0 ∷ 1 ∷ 7 ∷ []))
    ∷ []

cut_short_delivers :
    let o = send_frame whole part payload serving in
    delivered cut_short ≡ written 4 (o.events ++ (send_whole (7 ∷ []) o.server).events) ++ []
unfolding send_frame
cut_short_delivers = refl

send_frame-partial_example :
    ((send_frame whole part payload serving).sent ≡ true)
    × (read_exact cut_short 4 ≡ returned true (0 ∷ 0 ∷ 0 ∷ 4 ∷ []))
    × (read_exact (unread 4 cut_short) 4 ≡ returned true (10 ∷ 20 ∷ 0 ∷ 0 ∷ []))
send_frame-partial_example =
    send_frame-partial 4 1 part payload (7 ∷ []) serving cut_short [] refl refl (omega arith)
      (omega arith) (omega arith) (omega arith) (omega arith) (omega arith) cut_short_delivers

abbrev full_buffer : Sent
full_buffer = record { count = negsuc 0; errno = other_error }

send_frame-stray_example :
    let o = send_frame (all_of (header payload)) full_buffer payload serving in
    (o.sent ≡ false)
    × ((send_whole (7 ∷ []) o.server).sent ≡ true)
    × (written 4 (o.events ++ (send_whole (7 ∷ []) o.server).events)
        ≡ 0 ∷ 0 ∷ 0 ∷ 4 ∷ 0 ∷ 0 ∷ 0 ∷ 1 ∷ 7 ∷ [])
send_frame-stray_example =
    send_frame-stray 4 0 full_buffer payload (7 ∷ []) serving refl refl refl (omega arith)

-- Two frames in three reads.
abbrev frames : List (List ℕ)
frames = (7 ∷ []) ∷ (8 ∷ 9 ∷ []) ∷ []

abbrev script : List Turn
script =
    reads (bytes (0 ∷ 0 ∷ []))
    ∷ reads interrupted
    ∷ reads (bytes (0 ∷ 1 ∷ []))
    ∷ reads (bytes (7 ∷ []))
    ∷ reads (bytes (0 ∷ 0 ∷ 0 ∷ 2 ∷ []))
    ∷ reads (bytes (8 ∷ []))
    ∷ reads (bytes (9 ∷ []))
    ∷ []

script_delivers : delivered script ≡ written 4 (send_all frames serving) ++ []
unfolding send_frame
script_delivers = refl

send_all-Receives_example : Receives script frames
send_all-Receives_example =
    send_all-Receives 4 frames serving script [] refl (omega arith) (omega arith) script_delivers

abbrev arguments : List Argument
arguments = set_rate 30 ∷ print_stats ∷ []

arguments_accepted : (parse_arguments arguments initial_config).0 ≡ pos 0
unfolding parse_arguments
arguments_accepted = refl

run-Released_example :
    Leads (descriptor 3) (run (impl []) arguments listening).events 0 0
    × IsEmptied (run (impl []) arguments listening).app
run-Released_example = run-Released (descriptor 3) (impl []) arguments listening (impl-Tidy [])

run-Lifecycle_example :
    Lifecycle begun
      (run (impl []) arguments listening).calls
      (run (impl []) arguments listening).status
run-Lifecycle_example = run-Lifecycle (impl []) arguments listening arguments_accepted

main-stubs_example :
    ((main (impl []) arguments listening).status ≡ 1)
    × ((main (impl []) arguments listening).calls ≡ (open_device, enodev) ∷ [])
    × Leads (descriptor 3) (main (impl []) arguments listening).events 0 0
unfolding parse_arguments
main-stubs_example = main-stubs (descriptor 3) [] arguments listening
