-- ===== src/App/Server/Session.antt =====
-- The life of a server: constructed, used in any order, destroyed.
use phantomfpga_project.Base.{ℕ, ℤ, List, [], ◌∷◌, ◌++◌}
use phantomfpga_project.Posix.{Resource, Event, Leads, Leads-append}
use phantomfpga_project.App.Server.{
  TcpServer, Listening, Sent, create, try_accept, send_frame, destroy,
}
use phantomfpga_project.App.Server.Released.{
  owned, create-Leads, try_accept-Keeps, send_frame-Keeps, destroy-Leads,
}

-- A call, with the answers that it meets.
pub data Call : Type 0 where
  accepts : ℤ → Call
  sends : Sent → Sent → List ℕ → Call

abbrev do_call : Call → TcpServer → TcpServer × List Event
do_call (accepts fd) s = try_accept fd s
do_call (sends h d payload) s = let o = send_frame h d payload s in (o.server, o.events)

unfoldable pub serve : List Call → TcpServer → List Event
serve [] s = destroy s
serve (c ∷ cs) s = let (s', events) = do_call c s in events ++ serve cs s'

unfoldable pub session : Listening → ℕ → List Call → List Event
session k port calls = let (s, events) = create k port in events ++ serve calls s

do_call-Keeps :
    (r : Resource) (c : Call) (s : TcpServer)
    → Leads r (do_call c s).1 (owned r s) (owned r (do_call c s).0)
do_call-Keeps r (accepts fd) s = try_accept-Keeps r fd s
do_call-Keeps r (sends h d payload) s = send_frame-Keeps r h d payload s

serve-Leads :
    (r : Resource) (calls : List Call) (s : TcpServer) → Leads r (serve calls s) (owned r s) 0
unfolding serve
serve-Leads r [] s = destroy-Leads r s
serve-Leads r (c ∷ cs) s =
    Leads-append r (do_call c s).1 (serve cs (do_call c s).0) (owned r s) (owned r (do_call c s).0)
      0 (do_call-Keeps r c s) (serve-Leads r cs (do_call c s).0)

-- For every resource, and whatever the system calls answer: a server that is constructed, asked to
-- accept and to send in any order, and destroyed, gives back each socket exactly once, gives back
-- nothing that is not open, and sends on open sockets only.
pub session-Released :
    (r : Resource) (k : Listening) (port : ℕ) (calls : List Call)
    → Leads r (session k port calls) 0 0
unfolding session
session-Released r k port calls =
    Leads-append r (create k port).1 (serve calls (create k port).0) 0 (owned r (create k port).0) 0
      (create-Leads r k port) (serve-Leads r calls (create k port).0)
