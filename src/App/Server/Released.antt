-- ===== src/App/Server/Released.antt =====
-- The server's descriptors: opened and closed in step, on every path.
use phantomfpga_project.Base.{ℕ, ◌+◌, ℤ, pos, negsuc, refl, arith}
use phantomfpga_project.Base.{List, Bool-cases, inl, inr, ◌==◌, take, not, ◌||◌}
use phantomfpga_project.Posix.{Resource, Event, one_of, Leads, Leads-append}
use phantomfpga_project.App.Handles.FileDescriptor.{is_valid, owned_fd, close_fd, close_fd-Leads_to}
use phantomfpga_project.App.Server.{
  TcpServer, Listening, Sent, SendErrno, epipe, econnreset, other_error, unbound, set_client,
  listen_on, create, accepted, try_accept, Sending, send_failed, taken, writes_to, header,
  send_payload, send_frame, destroy,
}

-- How often a server owns `r`.
abbrev pub owned : Resource → TcpServer → ℕ
owned r s = owned_fd r s.client_fd.fd + owned_fd r s.listen_fd.fd

-- What the server owns before an operation becomes what it owns after it.
abbrev Keeps : Resource → TcpServer → TcpServer × List Event → Type 0
Keeps r s (s', events) = Leads r events (owned r s) (owned r s')

close_client-Leads : (r : Resource) (s : TcpServer) → Keeps r s (set_client (negsuc 0) s)
close_client-Leads r s = close_fd-Leads_to r s.client_fd.fd _ _ (omega arith)

accepted-Keeps : (r : Resource) (fd : ℤ) (s : TcpServer) → Keeps r s (accepted fd s)
accepted-Keeps r (negsuc e) s = refl
accepted-Keeps r (pos n) s = close_fd-Leads_to r s.client_fd.fd _ _ (omega arith)

pub try_accept-Keeps : (r : Resource) (fd : ℤ) (s : TcpServer) → Keeps r s (try_accept fd s)
unfolding try_accept
try_accept-Keeps r fd s = elim (Bool-cases (not (is_valid s.listen_fd) || is_valid s.client_fd)) [
  | inl busy ↦ rw busy
  | inr free ↦ rw free (accepted-Keeps r fd s)
]

writes_to-Leads :
    (r : Resource) (fd : ℤ) (bytes : List ℕ) (d : ℕ)
    → Leads r (writes_to fd bytes) (owned_fd r fd + d) (owned_fd r fd + d)
unfolding one_of
writes_to-Leads r (pos n) bytes d = ground arith
writes_to-Leads r (negsuc e) bytes d = refl

send_failed-Keeps : (r : Resource) (e : SendErrno) (s : TcpServer) → Keeps r s (send_failed e s)
send_failed-Keeps r epipe s = close_client-Leads r s
send_failed-Keeps r econnreset s = close_client-Leads r s
send_failed-Keeps r other_error s = refl

listen_on-Leads :
    (r : Resource) (fd : ℤ) (k : Listening) (port : ℕ)
    → Leads r (listen_on fd k (unbound port)).1 0 (owned r (listen_on fd k (unbound port)).0)
unfolding one_of
listen_on-Leads r (negsuc e) k port = refl
listen_on-Leads r (pos n) k port = ground arith

pub create-Leads :
    (r : Resource) (k : Listening) (port : ℕ)
    → Leads r (create k port).1 0 (owned r (create k port).0)
unfolding create
create-Leads r k port = listen_on-Leads r k.socket k port

-- What a sending server owns before it becomes what it owns after it.
abbrev SendKeeps : Resource → TcpServer → Sending → Type 0
SendKeeps r s o = Leads r o.events (owned r s) (owned r o.server)

send_payload-Keeps :
    (r : Resource) (d : Sent) (payload : List ℕ) (s : TcpServer)
    → SendKeeps r s (send_payload d payload s)
send_payload-Keeps r d payload s = elim (Bool-cases (taken d.count == 0)) [
  | inl nothing ↦ rw nothing (send_failed-Keeps r d.errno s)
  | inr part ↦
      rw part (
        writes_to-Leads r s.client_fd.fd (take (taken d.count) payload) (owned_fd r s.listen_fd.fd))
]

pub send_frame-Keeps :
    (r : Resource) (h d : Sent) (payload : List ℕ) (s : TcpServer)
    → SendKeeps r s (send_frame h d payload s)
unfolding send_frame
send_frame-Keeps r h d payload s = elim (Bool-cases (not (is_valid s.client_fd))) [
  | inl alone ↦ rw alone
  | inr connected ↦ elim (Bool-cases (taken h.count == 0)) [
    | inl nothing ↦ rw (connected, nothing) (send_failed-Keeps r h.errno s)
    | inr part ↦
        rw (connected, part)
          (Leads-append r (writes_to s.client_fd.fd (take (taken h.count) (header payload)))
            (send_payload d payload s).events (owned r s) (owned r s)
            (owned r (send_payload d payload s).server)
            (writes_to-Leads r s.client_fd.fd (take (taken h.count) (header payload))
              (owned_fd r s.listen_fd.fd))
            (send_payload-Keeps r d payload s))
  ]
]

pub destroy-Leads : (r : Resource) (s : TcpServer) → Leads r (destroy s) (owned r s) 0
destroy-Leads r s =
    Leads-append r (close_fd s.client_fd.fd) (close_fd s.listen_fd.fd) (owned r s)
      (owned_fd r s.listen_fd.fd) 0 (close_fd-Leads_to r s.client_fd.fd _ _ refl)
      (close_fd-Leads_to r s.listen_fd.fd _ _ (omega arith))
