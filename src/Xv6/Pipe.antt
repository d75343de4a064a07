-- ===== src/Xv6/Pipe.antt =====
-- Pipes of A5/xv6-public/pipe.c: a ring of 512 bytes with two counters that wrap at 2 ^ 32.
pub mod Fifo
pub mod Fill
pub mod Drain
pub mod Turns
pub mod Tests
use oscassignments.Base.{
  ℕ, zero, suc, ◌+◌, ◌%◌, Bool, true, false, not, ◌&&◌, ◌||◌, ◌==◌, if◌then◌else◌, update, List, [],
  ◌∷◌,
}
use oscassignments.Xv6.Types.{Chan, Result, ok, ◌>>=◌, add32}
use oscassignments.Xv6.Kernel.{Kernel, Policy}
use oscassignments.Xv6.Table.{wakeup1, sleep}

abbrev pub pipesize : ℕ
pipesize = 512

pub record Pipe : Type 0 where
  pub cells : ℕ → ℕ
  pub nread : ℕ
  pub nwrite : ℕ
  pub readopen : Bool
  pub writeopen : Bool

-- The pipe that `pipealloc` sets up, in a page of any content.
abbrev pub empty_pipe : (ℕ → ℕ) → Pipe
empty_pipe page = record { cells = page; nread = 0; nwrite = 0; readopen = true; writeopen = true }

abbrev pub is_full : Pipe → Bool
is_full p = p.nwrite == add32 p.nread pipesize

abbrev pub is_empty : Pipe → Bool
is_empty p = p.nread == p.nwrite

-- The loop of `pipewrite` as long as there is room: what is left to write, and the pipe.
unfoldable pub fill : List ℕ → Pipe → List ℕ × Pipe
fill [] p = ([], p)
fill (b ∷ bs) p =
    let rest =
      fill bs
        (record p { cells = update p.cells (p.nwrite % pipesize) b; nwrite = add32 p.nwrite 1 }) in
    if is_full p then (b ∷ bs, p) else rest

-- The loop of `piperead`: the bytes read, and the pipe.
unfoldable pub drain : ℕ → Pipe → List ℕ × Pipe
drain zero p = ([], p)
drain (suc n) p =
    let rest = drain n (record p { nread = add32 p.nread 1 }) in
    if is_empty p then ([], p) else (p.cells (p.nread % pipesize) ∷ rest.0, rest.1)

-- What a stretch of `pipewrite` or `piperead` under the lock comes to: the return of `n`, of the
-- bytes read, of -1, or a sleep with the bytes that are left to write.
pub data Turn : Type 0 where
  wrote : Turn
  has_read : List ℕ → Turn
  fails : Turn
  sleeps : List ℕ → Turn

-- `policy` is the build option, `cur` the process, and the two channels are the addresses of the
-- counters.
module _ (policy : Policy) (cur : ℕ) (nread_chan nwrite_chan : Chan) where
  -- `pipewrite` once its loop has no more room or no more bytes.
  unfoldable pub after_fill : Kernel → List ℕ × Pipe → Result (Turn × (Kernel × Pipe))
  after_fill k ([], p) = do k1 ← wakeup1 policy nread_chan k; ok (wrote, (k1, p))
  after_fill k (b ∷ bs, p) =
      if not p.readopen || (k.procs cur).killed then ok (fails, (k, p)) else (do
        k1 ← wakeup1 policy nread_chan k
        ok (sleeps (b ∷ bs), (sleep cur nwrite_chan k1, p)))

  -- `pipewrite` of a process with these bytes left, up to its return or to its sleep.
  unfoldable pub pipe_write : List ℕ → Kernel × Pipe → Result (Turn × (Kernel × Pipe))
  pipe_write bytes (k, p) = after_fill k (fill bytes p)

  -- `piperead` of at most `n` bytes, up to its return or to its sleep.
  unfoldable pub pipe_read : ℕ → Kernel × Pipe → Result (Turn × (Kernel × Pipe))
  pipe_read n (k, p) =
      if is_empty p && p.writeopen
      then (if (k.procs cur).killed
          then ok (fails, (k, p))
          else ok (sleeps [], (sleep cur nread_chan k, p)))
      else (do
        k1 ← wakeup1 policy nwrite_chan k
        ok (has_read ((drain n p).0), (k1, (drain n p).1)))

  -- `pipeclose`, and whether it frees the pipe's page.
  unfoldable pub pipe_close : (writable : Bool) → Kernel × Pipe → Result (Bool × (Kernel × Pipe))
  pipe_close writable (k, p) = do
    k1 ← wakeup1 policy (if writable then nread_chan else nwrite_chan) k
    let p1 = if writable then record p { writeopen = false } else record p { readopen = false }
    ok (not p1.readopen && not p1.writeopen, (k1, p1))
