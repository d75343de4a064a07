-- ===== src/Xv6/Scheduler.antt =====
-- `scheduler`, `procIsDead` and `timeToPreempt` of A5/xv6-public/proc.c, for the four policies. What a
-- process does between the two context switches is the argument `run`.
pub mod Preempt
pub mod Choice
pub mod Serve
pub mod Pick
pub mod Requeue
use oscassignments.Base.{
  ℕ, zero, suc, ◌+◌, ◌^◌, Bool, true, false, not, Option, none, some, ◌==◌, ltb, leb, ◌&&◌, ◌||◌,
  if◌then◌else◌, update, find_first,
}
use oscassignments.Base.Int.{ℤ, pos, negsuc, signed32, ltb_ℤ, leb_ℤ, eqb_ℤ}
use oscassignments.Xv6.Types.{
  Proc, Procstate, Panic, Result, ok, panic, ◌>>=◌, pq_count, nproc, is_runnable, is_sleeping,
}
use oscassignments.Xv6.Ring.{Ring, get_front, pop_front}
use oscassignments.Xv6.Kernel.{Kernel, set_proc, for_procs, Policy, default, fcfs, mlfq, pbs}
use oscassignments.Xv6.Mlfq.{get_q_idx, get_ticks, push_back, pop_queue, dec_prio}

unfoldable pub proc_is_dead : Kernel → Option ℕ → Bool
proc_is_dead k none = true
proc_is_dead k (some p) = let q = k.procs p in q.killed || q.pid == 0 || not (is_runnable q.state)

-- The test in the loop of `timeToPreempt`. With MLFQ a process is ranked by its queue; -1 is
-- `NO_Q_ALLOT`.
abbrev pub rank : Policy → Proc → ℤ
rank Policy.mlfq p = p.alloted_q
rank _ p = p.priority

unfoldable pub preempts : Policy → ℤ → Bool → Proc → Bool
preempts Policy.mlfq prio same p =
    is_runnable p.state
    && (not (eqb_ℤ p.alloted_q (negsuc 0))
        && (ltb_ℤ p.alloted_q prio || (eqb_ℤ p.alloted_q prio && same)))
preempts _ prio same p =
    is_runnable p.state && (ltb_ℤ p.priority prio || (eqb_ℤ p.priority prio && same))

-- What `timeToPreempt` returns for the process that it finds.
abbrev pub preempt_reply : Policy → ℕ → ℕ
preempt_reply Policy.mlfq pid = pid
preempt_reply _ pid = 1

unfoldable pub time_to_preempt : Policy → ℤ → Bool → Kernel → ℕ
time_to_preempt policy prio same k =
    elim (find_first (λ i. preempts policy prio same (k.procs i)) nproc 0) [
      | none ↦ 0
      | some i ↦ preempt_reply policy (k.procs i).pid
    ]

-- FCFS: the runnable process of least `ctime`, the first of those. `best` is `minctimeProc`.
unfoldable pub fcfs_better : Kernel → Option ℕ → ℕ → Bool
fcfs_better k none i = is_runnable (k.procs i).state
fcfs_better k (some b) i =
    is_runnable (k.procs i).state && ltb_ℤ (signed32 (k.procs i).ctime) (signed32 (k.procs b).ctime)

unfoldable pub fcfs_scan : ℕ → ℕ → Kernel → Option ℕ → Option ℕ
unfolding fcfs_better
fcfs_scan zero i k best = best
fcfs_scan (suc n) i k best = fcfs_scan n (i + 1) k (if fcfs_better k best i then some i else best)

unfoldable pub fcfs_pick : Kernel → Option ℕ
unfolding fcfs_scan
fcfs_pick k = fcfs_scan nproc 0 k none

-- PBS: the least priority of a runnable process, or `m`.
unfoldable pub min_prio : ℕ → ℕ → Kernel → ℤ → ℤ
min_prio zero i k m = m
min_prio (suc n) i k m = min_prio n (i + 1) k (
    if is_runnable (k.procs i).state && ltb_ℤ (k.procs i).priority m
    then (k.procs i).priority
    else m)

-- MLFQ: the loop that puts a runnable process on its queue if that is empty.
unfoldable pub refill : ℕ → Kernel → Result Kernel
refill i k =
    if is_runnable (k.procs i).state
    then elim (get_q_idx k i) [
      | negsuc zero ↦ panic Panic.no_queue
      | negsuc (suc _) ↦ panic Panic.fault
      | pos q ↦
          if leb pq_count q
          then panic Panic.fault
          else if (k.queues q).size == 0
          then push_back (pos q) i k
          else ok k
    ]
    else ok k

-- `while (prioQSize[i])`: drop dead processes from the front of row `q`, up to one that lives. Each
-- round makes the queue shorter, so its size bounds the rounds.
unfoldable pub first_live : ℕ → ℕ → Kernel → Result (Option ℕ × Kernel)
first_live zero q k = panic Panic.fault
first_live (suc f) q k = if (k.queues q).size == 0 then ok (none, k) else (do
  front ← get_front (k.queues q)
  elim (proc_is_dead k front) [
    | true ↦ (do popped ← pop_queue (pos q) k; first_live f q (popped.1))
    | false ↦ ok (front, k)
  ])

-- The rows from `q` on, of `n`, until a process is found.
unfoldable pub pick_from : ℕ → ℕ → Kernel → Result (Option ℕ × Kernel)
pick_from zero q k = ok (none, k)
pick_from (suc n) q k = do
  found ← first_live ((k.queues q).size + 1) q k
  elim (found.0) [ some p ↦ ok found | none ↦ pick_from n (q + 1) (found.1) ]

unfoldable pub mlfq_pick : Kernel → Result (Option ℕ × Kernel)
mlfq_pick k = do k' ← for_procs nproc 0 refill k; pick_from pq_count 0 k'

-- From the choice to the first context switch.
unfoldable pub start_running : Policy → ℕ → Kernel → Result Kernel
start_running policy p k =
    if is_runnable (k.procs p).state
    then elim policy [
      | Policy.mlfq ↦ (do
        popped ← pop_queue (get_q_idx k p) k
        let k' = popped.1
        let q = k'.procs p
        ok (
            set_proc p
              (record q {
                num_run = q.num_run + 1;
                latest_q_time = k'.ticks;
                state = Procstate.running;
              })
              k'))
      | _ ↦ ok (set_proc p (record (k.procs p) { state = Procstate.running }) k)
    ]
    else panic Panic.not_runnable

-- From the second context switch on, with MLFQ: a process that sleeps, or is runnable inside its time
-- slice, goes to the back of its queue, and one that used the slice up goes one queue down.
unfoldable pub after_switch : ℕ → Kernel → Result Kernel
after_switch p k =
    let st = (k.procs p).state in
    elim (get_q_idx k p) [
      | negsuc _ ↦
          if is_sleeping st
          then dec_prio p true k
          else if is_runnable st
          then panic Panic.fault
          else ok k
      | pos q ↦
          let tcks = get_ticks k p in
          if is_sleeping st || (is_runnable st && (ltb_ℤ (pos 0) tcks && ltb_ℤ tcks (pos (2 ^ q))))
          then dec_prio p true k
          else if is_runnable st && eqb_ℤ tcks (pos (2 ^ q))
          then dec_prio p false k
          else ok k
    ]

module _ (run : ℕ → Kernel → Result Kernel) where
  -- One round of the DEFAULT loop, over the slots from `i` on.
  unfoldable pub default_round : ℕ → ℕ → Kernel → Result Kernel
  default_round zero i k = ok k
  default_round (suc n) i k = elim (is_runnable (k.procs i).state) [
    | true ↦ (do
      k' ← run i (set_proc i (record (k.procs i) { state = Procstate.running }) k)
      default_round n (i + 1) k')
    | false ↦ default_round n (i + 1) k
  ]

  -- PBS: run each process of priority `m`, until one of a better priority is runnable.
  unfoldable pub pbs_round : ℤ → ℕ → ℕ → Kernel → Result Kernel
  pbs_round m zero i k = ok k
  pbs_round m (suc n) i k = elim (is_runnable (k.procs i).state && eqb_ℤ (k.procs i).priority m) [
    | true ↦ (do
      k' ← run i (set_proc i (record (k.procs i) { state = Procstate.running }) k)
      elim (ltb_ℤ (min_prio nproc 0 k' (pos 101)) m) [
        | true ↦ ok k'
        | false ↦ pbs_round m n (i + 1) k'
      ])
    | false ↦ pbs_round m n (i + 1) k
  ]

  -- One round of `for (;;)` in `scheduler`.
  unfoldable pub schedule : Policy → Kernel → Result Kernel
  schedule Policy.default k = default_round nproc 0 k
  schedule Policy.pbs k = pbs_round (min_prio nproc 0 k (pos 101)) nproc 0 k
  schedule Policy.fcfs k = elim (fcfs_pick k) [
    | none ↦ ok k
    | some p ↦ start_running fcfs p k >>= run p
  ]
  schedule Policy.mlfq k = do
    picked ← mlfq_pick k
    elim (picked.0) [
      | none ↦ ok (picked.1)
      | some p ↦ (start_running mlfq p (picked.1) >>= run p) >>= after_switch p
    ]
