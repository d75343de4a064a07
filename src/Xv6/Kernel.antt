-- ===== src/Xv6/Kernel.antt =====
-- The state that the functions of A5/xv6-public/proc.c share, the choice of scheduler made when the
-- kernel is built, and loops over the process table. Each function takes `ptable.lock` for its whole
-- work (or is called with it held), so a call is one step on this state.
use oscassignments.Base.{ℕ, zero, suc, ◌+◌, Option, List, update}
use oscassignments.Xv6.Types.{Proc, Result, ok, ◌>>=◌}
use oscassignments.Xv6.Ring.{Ring}

-- `-D $(SCHEDULER)` in the Makefile
pub data Policy : Type 0 where
  default fcfs mlfq pbs : Policy

pub record Kernel : Type 0 where
  pub procs : ℕ → Proc  -- ptable.proc
  pub queues : ℕ → Ring  -- prioQ, prioQStart, prioQSize
  pub nextpid : ℕ
  pub ticks : ℕ  -- a uint
  pub initproc : Option ℕ
  pub freelist : List ℕ  -- `kmem.freelist` of kalloc.c
  pub kernel_end : ℕ  -- `end`, the first address behind the kernel

abbrev pub set_proc : ℕ → Proc → Kernel → Kernel
set_proc i p k = record k { procs = update k.procs i p }

-- for (p = &ptable.proc[i]; n more; p++) body
unfoldable pub for_procs : ℕ → ℕ → (ℕ → Kernel → Result Kernel) → Kernel → Result Kernel
for_procs zero i body k = ok k
for_procs (suc n) i body k = do k' ← body i k; for_procs n (i + 1) body k'
