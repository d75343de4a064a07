-- ===== src/Xv6/Mlfq.antt =====
-- The queue functions of A5/xv6-public/proc.c on the whole state: `pushBack`, `deleteIdx`, `getTicks`,
-- `getQIdx`, `getQPos`, `incPrio`, `decPrio`, and the aging of `updateStatsAndAging`.
pub mod Invariant
pub mod Valid
pub mod Frame
pub mod Promote
use oscassignments.Base.{
  ℕ, zero, suc, ◌+◌, ◌-◌, Bool, true, false, Option, none, some, ◌==◌, ltb, leb, ◌&&◌, ◌||◌,
  if◌then◌else◌, update,
}
use oscassignments.Base.Int.{ℤ, pos, negsuc, signed32, succ_ℤ, leb_ℤ}
use oscassignments.Xv6.Types.{
  Proc, Panic, Result, ok, panic, ◌>>=◌, pq_count, nproc, sub32, add32, is_runnable, is_running,
}
use oscassignments.Xv6.Ring.{
  Ring, max_proc_count, back_index, holds_pid, append, delete_idx, get_front, pop_front,
}
use oscassignments.Xv6.Kernel.{Kernel, set_proc, for_procs}

-- `ticks - currp->latestQTime` is unsigned, and returned as an int.
unfoldable pub get_ticks : Kernel → ℕ → ℤ
get_ticks k p = signed32 (sub32 k.ticks (k.procs p).latest_q_time)

abbrev pub get_q_idx : Kernel → ℕ → ℤ
get_q_idx k p = (k.procs p).alloted_q

abbrev pub get_q_pos : Kernel → ℕ → ℤ
get_q_pos k p = (k.procs p).alloted_pos

-- What `pushBack` does when no entry of row `q` has the pid.
abbrev pub push_new : ℕ → ℕ → Kernel → Kernel
push_new q p k = record k {
  procs =
      update k.procs p
        (record (k.procs p) { alloted_q = pos q; alloted_pos = pos (back_index (k.queues q)) });
  queues = update k.queues q (append (k.queues q) p);
}

-- A row outside `prioQ` is a fault.
unfoldable pub push_back : ℤ → ℕ → Kernel → Result Kernel
push_back (negsuc _) p k = panic Panic.fault
push_back (pos q) p k =
    if leb pq_count q
    then panic Panic.fault
    else if holds_pid k.procs (k.queues q) (k.procs p).pid
    then ok k
    else ok (push_new q p k)

-- `popFront` on row `q`
unfoldable pub pop_queue : ℤ → Kernel → Result (Option ℕ × Kernel)
pop_queue (negsuc _) k = panic Panic.fault
pop_queue (pos q) k = if leb pq_count q then panic Panic.fault else (do
  popped ← pop_front (k.queues q)
  ok (popped.0, record k { queues = update k.queues q (popped.1) }))

-- `deleteIdx` on row `q`
unfoldable pub delete_queue : ℕ → ℕ → Kernel → Result Kernel
delete_queue q idx k = if leb pq_count q || leb max_proc_count idx then panic Panic.fault else (do
  left ← delete_idx (k.queues q) k.procs idx
  ok (record k { queues = update k.queues q (left.0); procs = left.1 }))

unfoldable pub inc_prio : ℕ → Kernel → Result Kernel
inc_prio p k = elim (get_q_idx k p) [
  | negsuc _ ↦ panic Panic.invalid_qi
  | pos q ↦ elim (get_q_pos k p) [
    | negsuc _ ↦ panic Panic.invalid_qi
    | pos i ↦ delete_queue q i k >>= push_back (pos (if q == 0 then q else q - 1)) p
  ]
]

unfoldable pub dec_prio : ℕ → Bool → Kernel → Result Kernel
dec_prio p retain k = elim (get_q_idx k p) [
  | negsuc _ ↦ panic Panic.invalid_q
  | pos q ↦
      push_back (pos (if q == (pq_count - 1) || retain then q else q + 1)) p
        (set_proc p (record (k.procs p) { latest_q_time = k.ticks }) k)
]

-- `WAIT_LIMIT[q]`, at q below `pq_count`
abbrev pub wait_limit : ℕ → ℕ
wait_limit zero = 84
wait_limit (suc zero) = 83
wait_limit (suc (suc zero)) = 82
wait_limit (suc (suc (suc zero))) = 81
wait_limit _ = 80

-- `p->stat.actualTicks[qIdx]++`
abbrev pub count_tick : ℕ → Proc → Proc
count_tick q p = record p { actual_ticks = update p.actual_ticks q (p.actual_ticks q + 1) }

-- The body of the aging loop, for one process.
unfoldable pub age : ℕ → Kernel → Result Kernel
age i k =
    let p = k.procs i in
    if p.killed || p.pid == 0 then ok k else elim (get_q_idx k i) [
      | negsuc _ ↦ if is_runnable p.state || is_running p.state then panic Panic.fault else ok k
      | pos q ↦
          let tcks = succ_ℤ (get_ticks k i) in
          if is_running p.state
          then (if leb pq_count q then panic Panic.fault else ok (set_proc i (count_tick q p) k))
          else if is_runnable p.state
          then (if leb pq_count q
              then panic Panic.fault
              else if leb_ℤ (pos (wait_limit q)) tcks
              then inc_prio i k
              else ok k)
          else ok k
    ]

unfoldable pub update_stats_and_aging : (cpu : ℕ) → Kernel → Result Kernel
update_stats_and_aging cpu k =
    if cpu == 0
    then for_procs nproc 0 age (record k { ticks = add32 k.ticks 1 })
    else panic Panic.not_cpu0
