-- ===== src/App/Server/Wire.antt =====
-- The stream that a viewer reads: what `send_frame` writes, against `TcpClient::read_exact`.
use phantomfpga_project.Base.{ℕ, ◌+◌, ◌*◌, ◌^◌, ◌≤◌, ◌<◌, pos, true, false}
use phantomfpga_project.Base.{◌≡◌, refl, ap, ◌∙◌, arith, if◌then◌else◌, ◌==◌}
use phantomfpga_project.Base.{
  List, [], ◌∷◌, ◌++◌, length, length-append, take, drop, take-append, drop-append,
}
use mathlib.Core.List.{append-nil, append_assoc}
use phantomfpga_project.Posix.{Event, takes, gives, writes}
use phantomfpga_project.App.Server.{TcpServer, Sent, other_error, Sending, header, send_frame}
use phantomfpga_project.Viewer.ReadExact.{Turn, returned, read_exact}
use phantomfpga_project.Viewer.ReadExact.Exact.{delivered, Honest}
use phantomfpga_project.Viewer.ReadExact.Rest.{unread, delivered-unread, read_exact-enough}

-- The bytes written to a descriptor.
abbrev pub written : ℕ → List Event → List ℕ
written fd [] = []
written fd (writes n bytes ∷ es) = (if n == fd then bytes else []) ++ written fd es
written fd (takes q ∷ es) = written fd es
written fd (gives q ∷ es) = written fd es

-- A send that takes everything.
abbrev pub all_of : List ℕ → Sent
all_of payload = record { count = pos (length payload); errno = other_error }

abbrev pub send_whole : List ℕ → TcpServer → Sending
send_whole payload s = send_frame (all_of (header payload)) (all_of payload) payload s

-- Frame after frame, each taken whole.
abbrev pub send_all : List (List ℕ) → TcpServer → List Event
send_all [] s = []
send_all (f ∷ fs) s = let o = send_whole f s in o.events ++ send_all fs o.server

-- A frame that is not empty and whose length fits the header.
abbrev pub Fits : List ℕ → Type 0
Fits payload = (1 ≤ length payload) × (length payload < 2 ^ 32)

abbrev pub AllFit : List (List ℕ) → Type 0
AllFit [] = Unit
AllFit (f ∷ fs) = Fits f × AllFit fs

take-all {ℓ} : {A : Type ℓ} (xs : List A) → take (length xs) xs ≡ xs
take-all [] = refl
take-all (x ∷ xs) = ap (λ ys. x ∷ ys) (take-all xs)

pub send_whole_lem :
    (fd : ℕ) (payload : List ℕ) (s : TcpServer)
    → s.client_fd.fd ≡ pos fd
    → 1 ≤ length payload
    → ((send_whole payload s).sent ≡ true)
      × ((send_whole payload s).events ≡ writes fd (header payload) ∷ writes fd payload ∷ [])
      × ((send_whole payload s).server.client_fd.fd ≡ pos fd)
unfolding send_frame
send_whole_lem fd payload s connected some =
    let filled : (length payload == 0) ≡ false = ground arith in
    rw (connected, filled, take-all payload) (refl, refl, refl)

-- A stream of frames, each behind its length.
abbrev pub framed : List (List ℕ) → List ℕ
framed [] = []
framed (f ∷ fs) = header f ++ (f ++ framed fs)

written-append :
    (fd : ℕ) (es fs : List Event) → written fd (es ++ fs) ≡ written fd es ++ written fd fs
written-append fd [] fs = refl
written-append fd (writes n bytes ∷ es) fs = rw (
  written-append fd es fs,
  append_assoc (if n == fd then bytes else []) (written fd es) (written fd fs),
)
written-append fd (takes q ∷ es) fs = written-append fd es fs
written-append fd (gives q ∷ es) fs = written-append fd es fs

-- What a connected viewer is sent.
pub written-send_all :
    (fd : ℕ) (frames : List (List ℕ)) (s : TcpServer)
    → s.client_fd.fd ≡ pos fd
    → AllFit frames
    → written fd (send_all frames s) ≡ framed frames
written-send_all fd [] s connected fit = refl
written-send_all fd (f ∷ fs) s connected fit =
    let whole = send_whole_lem fd f s connected fit.0.0 in
    let same : (fd == fd) ≡ true = ground arith in
    written-append fd (send_whole f s).events (send_all fs (send_whole f s).server)
    ∙ rw (whole.1, same, written-send_all fd fs (send_whole f s).server whole.2 fit.1, append-nil f)

-- `ntohl`: the word that four bytes in network order stand for.
abbrev pub net_value : List ℕ → ℕ
net_value (a ∷ b ∷ c ∷ d ∷ []) = a * 2 ^ 24 + b * 2 ^ 16 + c * 2 ^ 8 + d
net_value _ = 0

pub net_value-header : (f : List ℕ) → length f < 2 ^ 32 → net_value (header f) ≡ length f
net_value-header f small = omega arith

-- A viewer that reads a header and then as many bytes as it says gets these frames, in this order.
abbrev pub Receives : List Turn → List (List ℕ) → Type 0
Receives script [] = Unit
Receives script (f ∷ fs) =
    (read_exact script 4 ≡ returned true (header f))
    × (read_exact (unread 4 script) (net_value (header f)) ≡ returned true f)
    × Receives (unread (length f) (unread 4 script)) fs

-- read(2) keeps to what it is asked for, all along the frames.
abbrev pub HonestAll : List Turn → List (List ℕ) → Type 0
HonestAll script [] = Unit
HonestAll script (f ∷ fs) =
    Honest 4 script
    × Honest (length f) (unread 4 script)
    × HonestAll (unread (length f) (unread 4 script)) fs

-- One read of a stream that begins with what is asked for.
pub read-first :
    (script : List Turn) (first rest : List ℕ)
    → length first < 2 ^ 64
    → Honest (length first) script
    → delivered script ≡ first ++ rest
    → (read_exact script (length first) ≡ returned true first)
      × (delivered (unread (length first) script) ≡ rest)
read-first script first rest small honest e =
    let enough : length first ≤ length (delivered script) =
      omega (arith, ap length e, length-append first rest) in
    (
      read_exact-enough (length first) script small honest enough
          ∙ ap (λ bs. returned true (take (length first) bs)) e
          ∙ ap (returned true) (take-append (length first) first rest refl),
      delivered-unread (length first) script honest enough
          ∙ ap (drop (length first)) e
          ∙ drop-append (length first) first rest refl,
    )

framed-Receives :
    (script : List Turn) (frames : List (List ℕ)) (more : List ℕ)
    → AllFit frames
    → HonestAll script frames
    → delivered script ≡ framed frames ++ more
    → Receives script frames
framed-Receives script [] more fit honest e = tt
framed-Receives script (f ∷ fs) more fit honest e =
    let head =
      read-first script (header f) (f ++ (framed fs ++ more)) (omega arith) honest.0
        (e ∙ ap (λ bs. header f ++ bs) (append_assoc f (framed fs) more)) in
    let body =
      read-first (unread 4 script) f (framed fs ++ more) (omega (arith, fit.0.1)) honest.1 head.1 in
    (
      head.0,
      rw (net_value-header f fit.0.1) body.0,
      framed-Receives (unread (length f) (unread 4 script)) fs more fit.1 honest.2 body.1,
    )

-- For a server connected on `fd`, and frames of 1 to 2^32 - 1 bytes that `send_frame` sends one
-- after the other, each send taking all it is given: whatever the pieces in which the written bytes
-- reach the viewer, and whatever follows them, reading four bytes and then as many as they say, with
-- `read_exact`, returns these frames in this order.
pub send_all-Receives :
    (fd : ℕ) (frames : List (List ℕ)) (s : TcpServer) (script : List Turn) (more : List ℕ)
    → s.client_fd.fd ≡ pos fd
    → AllFit frames
    → HonestAll script frames
    → delivered script ≡ written fd (send_all frames s) ++ more
    → Receives script frames
send_all-Receives fd frames s script more connected fit honest e =
    framed-Receives script frames more fit honest
      (e ∙ ap (λ bs. bs ++ more) (written-send_all fd frames s connected fit))
