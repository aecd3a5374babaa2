-- ===== src/App/Server/Verdict.antt =====
-- What `send_frame` does, as a verdict on the answers of its sends.
use phantomfpga_project.Base.{
  ℕ, zero, suc, ◌+◌, ◌%◌, ◌^◌, ℤ, pos, negsuc, Bool, true, false, ◌==◌, ◌≡◌, arith,
}
use phantomfpga_project.App.Handles.FileDescriptor.{no_file}
use phantomfpga_project.App.Server.{TcpServer, Sent, SendErrno, epipe, econnreset, other_error}

-- What the answers of the sends make of a frame: no viewer to send it to; the errno of the first
-- send that took nothing; or how many bytes of the payload the second took.
pub data Verdict : Type 0 where
  nobody : Verdict
  broken : SendErrno → Verdict
  delivered : ℕ → Verdict

-- Of a send's count, and what follows a send that took something.
abbrev pub judge : ℤ → SendErrno → (ℕ → Verdict) → Verdict
judge (negsuc n) errno next = broken errno
judge (pos zero) errno next = broken errno
judge (pos (suc n)) errno next = next (suc n)

abbrev pub verdict : (client : ℤ) → Sent → Sent → Verdict
verdict (negsuc n) h d = nobody
verdict (pos fd) h d = judge h.count h.errno (λ n. judge d.count d.errno delivered)

-- Whether the frame counts as sent, whose viewer is still there, and the counters.
abbrev pub Means : Verdict → TcpServer → Bool → TcpServer → Type 0
Means nobody s sent s' = (sent ≡ false) × (s' ≡ s)
Means (delivered n) s sent s' =
    (sent ≡ true)
    × (s' ≡ record s {
      stats = record {
        frames_sent = (s.stats.frames_sent + 1) % 2 ^ 64;
        bytes_sent = (s.stats.bytes_sent + n) % 2 ^ 64;
        send_errors = s.stats.send_errors;
      };
    })
Means (broken epipe) s sent s' = (sent ≡ false) × (s' ≡ record s { client_fd = no_file })
Means (broken econnreset) s sent s' = (sent ≡ false) × (s' ≡ record s { client_fd = no_file })
Means (broken other_error) s sent s' =
    (sent ≡ false)
    × (s' ≡ record s {
      stats = record {
        frames_sent = s.stats.frames_sent;
        bytes_sent = s.stats.bytes_sent;
        send_errors = (s.stats.send_errors + 1) % 2 ^ 64;
      };
    })

pub filled : (n : ℕ) → (suc n == 0) ≡ false
filled n = ground arith
