-- ===== src/Examples/Streams.antt =====
-- Three bytes that arrive in two reads with a signal in between.
use phantomfpga_project.Base.{true, false, ◌≡◌, refl, arith}
use phantomfpga_project.Base.{List, [], ◌∷◌, ◌++◌}
use phantomfpga_project.Viewer.ReadExact.{
  bytes, end_of_file, interrupted, reads, stopped, Turn, returned, waiting, read_exact, read_loop,
}
use phantomfpga_project.Viewer.ReadExact.Exact.{read_exact-exactly}
use phantomfpga_project.Viewer.ReadExact.Ends.{Returns, read_exact-Returns}

abbrev two_reads : List Turn
two_reads = reads (bytes (1 ∷ 2 ∷ [])) ∷ reads interrupted ∷ reads (bytes (3 ∷ [])) ∷ []

read_exact-exactly_example : read_exact two_reads 3 ≡ returned true (1 ∷ 2 ∷ 3 ∷ [])
read_exact-exactly_example =
    read_exact-exactly two_reads 3 (omega arith)
      (omega arith, omega arith, (omega arith, omega arith, tt))

-- ... and one more answer, which the call never asks for.
abbrev three_reads : List Turn
three_reads = two_reads ++ reads (bytes (4 ∷ [])) ∷ []

read_exact-Returns_example : Returns (read_exact three_reads 3)
read_exact-Returns_example =
    read_exact-Returns three_reads 3 (omega arith)
      (omega arith, omega arith, (omega arith, omega arith, tt)) (omega arith)

read_exact-short :
    read_exact (reads (bytes (7 ∷ [])) ∷ reads end_of_file ∷ []) 3 ≡ returned false (7 ∷ [])
unfolding read_exact read_loop
read_exact-short = refl

read_exact-stopped : read_exact (reads (bytes (7 ∷ [])) ∷ stopped ∷ []) 3 ≡ returned false (7 ∷ [])
unfolding read_exact read_loop
read_exact-stopped = refl

read_exact-waiting : read_exact (reads (bytes (7 ∷ [])) ∷ []) 3 ≡ waiting
unfolding read_exact read_loop
read_exact-waiting = refl
