-- ===== src/Viewer/ReadExact.antt =====
-- `TcpClient::read_exact`: the loop that fills a buffer from a socket.
pub mod Exact
pub mod Rest
pub mod Ends
use phantomfpga_project.Base.{ℕ, zero, suc, ◌+◌, ◌-◌, ◌%◌, ◌^◌, Bool, true, false}
use phantomfpga_project.Base.{List, [], ◌∷◌, ◌++◌, length}

-- One answer of read(2): bytes (at least one), the end of the stream, EINTR, or another error.
pub data ReadResult : Type 0 where
  bytes : List ℕ → ReadResult
  end_of_file interrupted broken : ReadResult

-- What a round of the loop meets: the running flag down, or up and an answer.
pub data Turn : Type 0 where
  stopped : Turn
  reads : ReadResult → Turn

-- The return value with the bytes written to the buffer, or a script that ran out: the loop
-- waits in read(2).
pub data Outcome : Type 0 where
  returned : Bool → List ℕ → Outcome
  waiting : Outcome

-- `remaining -= n` on `size_t`.
abbrev pub sub_size : ℕ → ℕ → ℕ
sub_size a b = (a + 2 ^ 64 - b) % 2 ^ 64

-- A round at a positive remainder, the rounds after it given.
abbrev pub turn : Turn → ℕ → List ℕ → (ℕ → List ℕ → Outcome) → Outcome
turn stopped remaining got next = returned false got
turn (reads (bytes bs)) remaining got next = next (sub_size remaining (length bs)) (got ++ bs)
turn (reads end_of_file) remaining got next = returned false got
turn (reads interrupted) remaining got next = next remaining got
turn (reads broken) remaining got next = returned false got

-- `remaining` bytes are to come and `got` is in the buffer. The flag is not read at 0.
unfoldable pub read_loop : List Turn → ℕ → List ℕ → Outcome
read_loop script zero got = returned true got
read_loop [] (suc r) got = waiting
read_loop (t ∷ script) (suc r) got = turn t (suc r) got (read_loop script)

unfoldable pub read_exact : List Turn → ℕ → Outcome
unfolding read_loop
read_exact script len = read_loop script len []
