-- ===== src/Xv6/Pipe/Tests.antt =====
-- The theorems on pipes at a concrete machine, and a pipe whose counters are about to wrap.
use oscassignments.Base.{ℕ, ◌^◌, ◌-◌, ◌≡◌, refl, arith, true, List, [], ◌∷◌}
use oscassignments.Xv6.Types.{on_addr, ok}
use oscassignments.Xv6.Kernel.{Kernel, mlfq}
use oscassignments.Xv6.Machine.{machine, machine-IsValid}
use oscassignments.Xv6.Pipe.{Pipe, Turn, fill, drain, pipe_write, pipe_read}
use oscassignments.Xv6.Pipe.Fifo.{Holds}
use oscassignments.Xv6.Pipe.Fill.{Filled}
use oscassignments.Xv6.Pipe.Turns.{Written, HasRead, pipe_write_lem, pipe_read_lem, write_then_read}

-- 2 ^ 32 - 1 bytes have been written and read.
abbrev old_pipe : Pipe
old_pipe = record {
  cells = λ i. 0;
  nread = 2 ^ 32 - 1;
  nwrite = 2 ^ 32 - 1;
  readopen = true;
  writeopen = true;
}

old_pipe-Holds : Holds old_pipe []
old_pipe-Holds = record { read_in = omega arith; room = omega arith; write_eq = refl; bytes = tt }

-- The second byte goes to the other end of the ring, and comes back.
comes_back : (drain 2 ((fill (7 ∷ 8 ∷ []) old_pipe).1)).0 ≡ 7 ∷ 8 ∷ []
unfolding fill drain
comes_back = refl

pipe_write_example :
    (left : List ℕ) × (p1 : Pipe) × (out : Turn × (Kernel × Pipe)) × (pipe_write mlfq 1
        (on_addr 8)
        (on_addr 9)
        (7 ∷ 8 ∷ [])
        (machine, old_pipe)
      ≡ ok out)
    × Filled (7 ∷ 8 ∷ []) old_pipe [] left p1
    × Written mlfq 1 (on_addr 8) (on_addr 9) machine old_pipe left out p1
pipe_write_example =
    pipe_write_lem mlfq 1 (on_addr 8) (on_addr 9) (7 ∷ 8 ∷ []) machine old_pipe [] machine-IsValid
      old_pipe-Holds

pipe_read_example :
    (out : Turn × (Kernel × Pipe)) × (pipe_read mlfq 1 (on_addr 8) (on_addr 9) 2 (machine, old_pipe)
      ≡ ok out)
    × HasRead mlfq 1 (on_addr 8) (on_addr 9) 2 machine old_pipe [] out
pipe_read_example =
    pipe_read_lem mlfq 1 (on_addr 8) (on_addr 9) 2 machine old_pipe [] machine-IsValid
      old_pipe-Holds

write_then_read_example :
    (p1 : Pipe) × (p2 : Pipe) × (fill (7 ∷ 8 ∷ []) old_pipe ≡ ([], p1))
    × (drain 2 p1 ≡ (7 ∷ 8 ∷ [], p2))
    × Holds p2 []
write_then_read_example = write_then_read (7 ∷ 8 ∷ []) old_pipe old_pipe-Holds (omega arith)
