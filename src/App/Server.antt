-- ===== src/App/Server.antt =====
-- `class TcpServer`: one listening socket, at most one viewer. The answers of the system calls are
-- arguments of the operations.
pub mod Released
pub mod Session
pub mod Wire
pub mod Verdict
pub mod Outcome
use phantomfpga_project.Base.{ℕ, ◌+◌, ◌/◌, ◌%◌, ◌^◌, u8, u32, add64, ℤ, pos, negsuc}
use phantomfpga_project.Base.{Bool, true, false, not, ◌||◌, ◌==◌, if◌then◌else◌}
use phantomfpga_project.Base.{List, [], ◌∷◌, ◌++◌, length, take}
use phantomfpga_project.Posix.{descriptor, Event, takes, writes}
use phantomfpga_project.App.Handles.FileDescriptor
use phantomfpga_project.App.Handles.FileDescriptor.{FileDescriptor, no_file, is_valid, open_fd}

pub record NetStats : Type 0 where
  pub frames_sent : ℕ
  pub bytes_sent : ℕ
  pub send_errors : ℕ

pub record TcpServer : Type 0 where
  pub listen_fd : FileDescriptor
  pub client_fd : FileDescriptor
  pub port : ℕ
  pub stats : NetStats

-- The answers that the constructor meets: socket(2)'s number or -1, and two successes.
pub record Listening : Type 0 where
  pub socket : ℤ
  pub bind : Bool
  pub listen : Bool

pub data SendErrno : Type 0 where
  epipe econnreset other_error : SendErrno

-- What send(2) returns, with errno as it stands after it.
pub record Sent : Type 0 where
  pub count : ℤ
  pub errno : SendErrno

abbrev pub unbound : ℕ → TcpServer
unbound port = record {
  listen_fd = no_file;
  client_fd = no_file;
  port = port;
  stats = record { frames_sent = 0; bytes_sent = 0; send_errors = 0 };
}

-- `listen_fd_ = FileDescriptor(fd)` and `client_fd_ = FileDescriptor(fd)`, -1 to close.
abbrev set_listen : ℤ → TcpServer → TcpServer × List Event
set_listen fd s =
    let (this, other, closed) = FileDescriptor.assign false s.listen_fd (record { fd = fd }) in
    (record s { listen_fd = this }, closed)

abbrev set_client : ℤ → TcpServer → TcpServer × List Event
set_client fd s =
    let (this, other, closed) = FileDescriptor.assign false s.client_fd (record { fd = fd }) in
    (record s { client_fd = this }, closed)

abbrev after : List Event → TcpServer × List Event → TcpServer × List Event
after first (s, events) = (s, first ++ events)

-- The constructor from bind on, with the socket in its handle.
abbrev bind_and_listen : Listening → TcpServer → TcpServer × List Event
bind_and_listen k s =
    if not k.bind
    then set_listen (negsuc 0) s
    else if not k.listen
    then set_listen (negsuc 0) s
    else (s, [])

abbrev listen_on : ℤ → Listening → TcpServer → TcpServer × List Event
listen_on (negsuc e) k s = (s, [])
listen_on (pos fd) k s =
    let (s', closed) = set_listen (pos fd) s in
    after (open_fd (pos fd)) (after closed (bind_and_listen k s'))

-- The constructor.
unfoldable pub create : Listening → ℕ → TcpServer × List Event
create k port = listen_on k.socket k (unbound port)

abbrev accepted : ℤ → TcpServer → TcpServer × List Event
accepted (negsuc e) s = (s, [])
accepted (pos fd) s = after (open_fd (pos fd)) (set_client (pos fd) s)

-- With what accept(2) returns, if it is called.
unfoldable pub try_accept : ℤ → TcpServer → TcpServer × List Event
try_accept fd s =
    if not (is_valid s.listen_fd) || is_valid s.client_fd then (s, []) else accepted fd s

-- The value that a call of send_frame returns, the server after it, and what it did.
pub record Sending : Type 0 where
  pub sent : Bool
  pub server : TcpServer
  pub events : List Event

abbrev not_sent : TcpServer × List Event → Sending
not_sent (s, events) = record { sent = false; server = s; events = events }

abbrev then_send : List Event → Sending → Sending
then_send first o = record o { events = first ++ o.events }

-- The branch on errno after a send that returned 0 or less.
abbrev send_failed : SendErrno → TcpServer → TcpServer × List Event
send_failed epipe s = set_client (negsuc 0) s
send_failed econnreset s = set_client (negsuc 0) s
send_failed other_error s =
    (record s { stats = record s.stats { send_errors = add64 s.stats.send_errors 1 } }, [])

-- The bytes that a send took; 0 where it returned 0 or less.
abbrev pub taken : ℤ → ℕ
taken (pos n) = n
taken (negsuc n) = 0

abbrev writes_to : ℤ → List ℕ → List Event
writes_to (pos fd) bytes = writes fd bytes ∷ []
writes_to (negsuc e) bytes = []

-- `htonl`: the bytes of a word in memory, the highest first.
abbrev pub net_bytes : ℕ → List ℕ
net_bytes n = u8 (n / 2 ^ 24) ∷ u8 (n / 2 ^ 16) ∷ u8 (n / 2 ^ 8) ∷ u8 n ∷ []

abbrev pub header : List ℕ → List ℕ
header payload = net_bytes (u32 (length payload))

abbrev count_frame : ℕ → NetStats → NetStats
count_frame n stats = record stats {
  frames_sent = add64 stats.frames_sent 1;
  bytes_sent = add64 stats.bytes_sent n;
}

-- The second send and what follows it.
abbrev send_payload : Sent → List ℕ → TcpServer → Sending
send_payload d payload s =
    let n = taken d.count in
    if n == 0 then not_sent (send_failed d.errno s) else record {
      sent = true;
      server = record s { stats = count_frame n s.stats };
      events = writes_to s.client_fd.fd (take n payload);
    }

-- With the answers of the two sends, if they are made.
unfoldable pub send_frame : Sent → Sent → List ℕ → TcpServer → Sending
send_frame h d payload s =
    if not (is_valid s.client_fd)
    then not_sent (s, [])
    else if taken h.count == 0
    then not_sent (send_failed h.errno s)
    else then_send (writes_to s.client_fd.fd (take (taken h.count) (header payload)))
        (send_payload d payload s)

-- The destructor: the members in reverse.
abbrev pub destroy : TcpServer → List Event
destroy s = FileDescriptor.destroy s.client_fd ++ FileDescriptor.destroy s.listen_fd
