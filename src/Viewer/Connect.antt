-- ===== src/Viewer/Connect.antt =====
-- `TcpClient::connect`, `connected` and the destructor.
use phantomfpga_project.Base.{ℕ, ◌+◌, ℤ, pos, negsuc, Bool, true, false, ◌≡◌, refl, arith}
use phantomfpga_project.Base.{Option, none, some, List, [], ◌∷◌, ◌++◌}
use phantomfpga_project.Posix.{
  Resource, descriptor, address_list, Event, takes, gives, one_of, Leads, Leads-append,
}
use phantomfpga_project.App.Handles.FileDescriptor.{close_fd, owned_fd, close_fd-Leads_to}

-- `fd_` is the only member.
pub record TcpClient : Type 0 where
  pub fd : ℤ

abbrev pub new_client : TcpClient
new_client = record { fd = negsuc 0 }

abbrev is_open : ℤ → Bool
is_open (pos n) = true
is_open (negsuc n) = false

abbrev pub is_connected : TcpClient → Bool
is_connected c = is_open c.fd

-- An address: what socket(2) answers for it, and whether connect(2) succeeds.
pub record Candidate : Type 0 where
  pub socket : ℤ
  pub connects : Bool

pub data Lookup : Type 0 where
  unresolved : Lookup
  addresses : List Candidate → Lookup

abbrev after : List Event → ℤ × List Event → ℤ × List Event
after first (fd, events) = (fd, first ++ events)

-- One round of the loop, the rounds after it given.
abbrev try_socket : ℤ → Bool → (ℤ → ℤ × List Event) → ℤ × List Event
try_socket (negsuc e) success rest = rest (negsuc e)
try_socket (pos n) true rest = (pos n, takes (descriptor n) ∷ [])
try_socket (pos n) false rest =
    after (takes (descriptor n) ∷ gives (descriptor n) ∷ []) (rest (negsuc 0))

pub try_each : List Candidate → ℤ → ℤ × List Event
try_each [] fd = (fd, [])
try_each (c ∷ cs) fd = try_socket c.socket c.connects (try_each cs)

-- The value that connect returns, the client after it, and what it did.
pub record Connecting : Type 0 where
  pub success : Bool
  pub client : TcpClient
  pub events : List Event

unfoldable pub connect : Lookup → TcpClient → Connecting
unfolding try_each
connect unresolved c = record { success = false; client = c; events = [] }
connect (addresses cs) c =
    let (fd, events) = try_each cs c.fd in
    record {
      success = is_open fd;
      client = record { fd = fd };
      events = takes address_list ∷ (events ++ (gives address_list ∷ []));
    }

-- The destructor.
abbrev pub destroy : TcpClient → List Event
destroy c = close_fd c.fd

abbrev reached : ℤ → Bool → Option ℕ → Option ℕ
reached (pos n) true rest = some n
reached (pos n) false rest = rest
reached (negsuc e) success rest = rest

-- The socket of the first address that can be reached.
abbrev pub first_reached : List Candidate → Option ℕ
first_reached [] = none
first_reached (c ∷ cs) = reached c.socket c.connects (first_reached cs)

-- The socket of a client, or that it has none.
abbrev pub socket_of : ℤ → Option ℕ
socket_of (pos n) = some n
socket_of (negsuc e) = none

abbrev pub is_some : Option ℕ → Bool
is_some none = false
is_some (some n) = true

try_each-first :
    (cs : List Candidate) (e : ℕ) → socket_of (try_each cs (negsuc e)).0 ≡ first_reached cs
unfolding try_each
try_each-first [] e = refl
try_each-first (c ∷ cs) e = try_socket-first c.socket c.connects cs (try_each-first cs)
  where
    try_socket-first :
        (fd : ℤ) (success : Bool) (cs : List Candidate)
        → ((e : ℕ) → socket_of (try_each cs (negsuc e)).0 ≡ first_reached cs)
        → socket_of (try_socket fd success (try_each cs)).0 ≡ reached fd success (first_reached cs)
    try_socket-first (pos n) true cs rest = refl
    try_socket-first (pos n) false cs rest = rest 0
    try_socket-first (negsuc k) success cs rest = rest k

opened-socket : (fd : ℤ) → is_open fd ≡ is_some (socket_of fd)
opened-socket (pos n) = refl
opened-socket (negsuc e) = refl

-- For every list of addresses, from a client without a socket: after `connect` the client holds the
-- socket of the first address that can be reached and has none if there is no such address, and
-- `connect` returns whether there is one.
pub connect-first :
    (cs : List Candidate) (e : ℕ)
    → let o = connect (addresses cs) (record { fd = negsuc e }) in
      (socket_of o.client.fd ≡ first_reached cs) × (o.success ≡ is_some (first_reached cs))
unfolding connect
connect-first cs e =
    (try_each-first cs e, rw (opened-socket (try_each cs (negsuc e)).0, try_each-first cs e))

refused-Leads :
    (r : Resource) (n : ℕ) (es : List Event) (d m : ℕ)
    → Leads r es d m
    → Leads r (takes (descriptor n) ∷ gives (descriptor n) ∷ es) d m
unfolding one_of
refused-Leads r n es d m h = ground arith

try_each-Leads :
    (r : Resource) (cs : List Candidate) (e d : ℕ)
    → let (fd, events) = try_each cs (negsuc e) in Leads r events d (owned_fd r fd + d)
unfolding try_each
try_each-Leads r [] e d = ground arith
try_each-Leads r (c ∷ cs) e d = try_socket-Leads c.socket c.connects (λ k. try_each-Leads r cs k d)
  where
    try_socket-Leads :
        (fd : ℤ) (success : Bool)
        → ((k : ℕ)
            → Leads r (try_each cs (negsuc k)).1 d (owned_fd r (try_each cs (negsuc k)).0 + d))
        → let o = try_socket fd success (try_each cs) in Leads r o.1 d (owned_fd r o.0 + d)
    try_socket-Leads (pos n) true rest = ground arith
    try_socket-Leads (pos n) false rest =
        refused-Leads r n (try_each cs (negsuc 0)).1 d (owned_fd r (try_each cs (negsuc 0)).0 + d)
          (rest 0)
    try_socket-Leads (negsuc k) success rest = rest k

list-Leads :
    (r : Resource) (es : List Event) (m : ℕ)
    → Leads r es (0 + one_of r address_list) (m + (0 + one_of r address_list))
    → Leads r (takes address_list ∷ (es ++ (gives address_list ∷ []))) 0 m
unfolding one_of
list-Leads r es m h =
    Leads-append r es (gives address_list ∷ []) (0 + one_of r address_list)
      (m + (0 + one_of r address_list)) m h (ground arith)

connect-Leads :
    (r : Resource) (k : Lookup)
    → Leads r (connect k new_client).events 0 (owned_fd r (connect k new_client).client.fd)
unfolding connect
connect-Leads r unresolved = refl
connect-Leads r (addresses cs) =
    let (fd, events) = try_each cs (negsuc 0) in
    list-Leads r events (owned_fd r fd) (try_each-Leads r cs 0 (0 + one_of r address_list))

-- For every resource and whatever the calls answer: a client that connects, or fails to, and is
-- destroyed has given back each socket that it opened, and the address list, exactly once.
pub connect-Released :
    (r : Resource) (k : Lookup)
    → let o = connect k new_client in Leads r (o.events ++ destroy o.client) 0 0
connect-Released r k =
    let o = connect k new_client in
    Leads-append r o.events (destroy o.client) 0 (owned_fd r o.client.fd) 0 (connect-Leads r k)
      (close_fd-Leads_to r o.client.fd (owned_fd r o.client.fd) 0 (omega arith))
