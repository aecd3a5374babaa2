-- ===== src/App/Server/Outcome.antt =====
-- What a viewer is left with when the payload's send fails or is cut short.
use phantomfpga_project.Base.{
  ℕ, suc, ◌+◌, ◌-◌, ◌^◌, ◌≤◌, ◌<◌, pos, negsuc, true, false, ◌==◌, ◌≡◌, refl, sym, ap, ◌∙◌, arith,
}
use phantomfpga_project.Base.{
  List, [], ◌∷◌, ◌++◌, length, length-append, take, drop, length-take, take-drop,
}
use mathlib.Core.List.{append-nil, append_assoc}
use phantomfpga_project.Posix.{writes}
use phantomfpga_project.App.Server.{TcpServer, Sent, other_error, header, send_frame}
use phantomfpga_project.App.Server.Verdict.{filled}
use phantomfpga_project.App.Server.Wire.{
  all_of, written, send_whole, send_whole_lem, net_value, net_value-header, read-first,
}
use phantomfpga_project.Viewer.ReadExact.{Turn, returned, read_exact}
use phantomfpga_project.Viewer.ReadExact.Exact.{delivered, Honest}
use phantomfpga_project.Viewer.ReadExact.Rest.{unread}
use mathlib.Core.Path.{subst}

-- A second send that fails for another reason than a viewer that has left.
stray_header :
    (fd n : ℕ) (d : Sent) (payload : List ℕ) (s : TcpServer)
    → s.client_fd.fd ≡ pos fd
    → d.count ≡ negsuc n
    → d.errno ≡ other_error
    → let o = send_frame (all_of (header payload)) d payload s in
      (o.sent ≡ false)
      × (o.events ≡ writes fd (header payload) ∷ [])
      × (o.server.client_fd.fd ≡ pos fd)
unfolding send_frame
stray_header fd n d payload s connected count errno =
    rw (connected, count, errno) (refl, refl, refl)

-- For a connected viewer, when the payload's send fails with an errno other than EPIPE and
-- ECONNRESET, and the next frame, not empty, is taken whole: the stream holds the first frame's
-- length and then the second frame with its own, and `send_frame` returned false and then true.
pub send_frame-stray :
    (fd n : ℕ) (d : Sent) (payload next : List ℕ) (s : TcpServer)
    → s.client_fd.fd ≡ pos fd
    → d.count ≡ negsuc n
    → d.errno ≡ other_error
    → 1 ≤ length next
    → let o = send_frame (all_of (header payload)) d payload s in
      (o.sent ≡ false)
      × ((send_whole next o.server).sent ≡ true)
      × (written fd (o.events ++ (send_whole next o.server).events)
          ≡ header payload ++ (header next ++ next))
send_frame-stray fd n d payload next s connected count errno filled =
    let o = send_frame (all_of (header payload)) d payload s in
    let first = stray_header fd n d payload s connected count errno in
    let second = send_whole_lem fd next o.server first.2 filled in
    let same : (fd == fd) ≡ true = ground arith in
    (first.0, second.0, rw (first.1, second.1, same, append-nil next))

-- A second send that takes a part of the payload.
partial_send :
    (fd n : ℕ) (d : Sent) (payload : List ℕ) (s : TcpServer)
    → s.client_fd.fd ≡ pos fd
    → d.count ≡ pos (suc n)
    → let o = send_frame (all_of (header payload)) d payload s in
      (o.sent ≡ true)
      × (o.events ≡ writes fd (header payload) ∷ writes fd (take (suc n) payload) ∷ [])
      × (o.server.client_fd.fd ≡ pos fd)
unfolding send_frame
partial_send fd n d payload s connected count = rw (connected, count, filled n) (refl, refl, refl)

-- The bytes after a header that a viewer takes for the frame's, of a frame cut short and the next.
abbrev pub mixed : ℕ → List ℕ → List ℕ → List ℕ
mixed n payload next = take n payload ++ take (length payload - n) (header next ++ next)

length-mixed :
    (n : ℕ) (payload next : List ℕ)
    → n ≤ length payload
    → length payload ≤ n + 4 + length next
    → length (mixed n payload next) ≡ length payload
length-mixed n payload next part enough = omega (
  arith,
  length-append {0} (take n payload) (take (length payload - n) (header next ++ next)),
  length-take {0} n payload part,
  length-take {0} (length payload - n) (header next ++ next) (omega arith),
)

regroup :
    (head sent all more : List ℕ) (gap : ℕ)
    → (head ++ (sent ++ all)) ++ more ≡ head ++ ((sent ++ take gap all) ++ (drop gap all ++ more))
regroup head sent all more gap =
    append_assoc head (sent ++ all) more
    ∙ ap (λ l. head ++ l)
        (append_assoc sent all more
          ∙ ap (λ l. sent ++ (l ++ more)) (sym (take-drop gap all))
          ∙ ap (λ l. sent ++ l) (append_assoc (take gap all) (drop gap all) more)
          ∙ sym (append_assoc sent (take gap all) (drop gap all ++ more)))

-- For a connected viewer and a frame of less than 2^32 bytes: when the header's send takes all, the
-- payload's takes some bytes and not all, and the next frame, not empty, is taken whole and with its
-- length is at least as long as what is missing, `send_frame` returns true for the first; and a
-- viewer that reads four bytes and then as many as they say, in whichever pieces the stream arrives,
-- gets the length of the first frame, and for its bytes those that were taken and then the first of
-- the next frame's length and bytes.
pub send_frame-partial :
    (fd n : ℕ) (d : Sent) (payload next : List ℕ) (s : TcpServer) (script : List Turn)
    (more : List ℕ)
    → s.client_fd.fd ≡ pos fd
    → d.count ≡ pos (suc n)
    → suc n < length payload
    → length payload < 2 ^ 32
    → 1 ≤ length next
    → length payload ≤ suc n + 4 + length next
    → Honest 4 script
    → Honest (length payload) (unread 4 script)
    → let o = send_frame (all_of (header payload)) d payload s in
      delivered script ≡ written fd (o.events ++ (send_whole next o.server).events) ++ more
      → (o.sent ≡ true)
        × (read_exact script 4 ≡ returned true (header payload))
        × (read_exact (unread 4 script) (net_value (header payload))
            ≡ returned true (mixed (suc n) payload next))
send_frame-partial fd n d payload next s script more connected count part small some enough honest
      honest_next stream =
    let o = send_frame (all_of (header payload)) d payload s in
    let first = partial_send fd n d payload s connected count in
    let second = send_whole_lem fd next o.server first.2 some in
    let same : (fd == fd) ≡ true = ground arith in
    let sent = take (suc n) payload in
    let gap = length payload - suc n in
    let rest = drop gap (header next ++ next) ++ more in
    let got = mixed (suc n) payload next in
    let size : length got ≡ length payload =
      length-mixed (suc n) payload next (omega arith) enough in
    let bytes : written fd (o.events ++ (send_whole next o.server).events)
        ≡ header payload ++ (sent ++ (header next ++ next)) =
      rw (first.1, second.1, same, append-nil next) in
    let pieces : delivered script ≡ header payload ++ (got ++ rest) =
      stream
      ∙ ap (λ l. l ++ more) bytes
      ∙ regroup (header payload) sent (header next ++ next) more gap in
    let head = read-first script (header payload) (got ++ rest) (omega arith) honest pieces in
    let body =
      read-first (unread 4 script) got rest (omega arith)
        (subst (λ l. Honest l (unread 4 script)) (sym size) honest_next) head.1 in
    (
      first.0,
      head.0,
      subst (λ l. read_exact (unread 4 script) l ≡ returned true got)
          (size ∙ sym (net_value-header payload small)) body.0,
    )
