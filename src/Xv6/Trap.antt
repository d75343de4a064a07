-- ===== src/Xv6/Trap.antt =====
-- The timer interrupt of A5/xv6-public/trap.c: the clock, and whether the running process yields.
-- `cur` is `myproc()`, which may be null.
pub mod Slice
use oscassignments.Base.{
  ℕ, ◌+◌, ◌^◌, Bool, true, false, not, Option, none, some, ◌==◌, ltb, ◌&&◌, if◌then◌else◌,
}
use oscassignments.Base.Int.{ℤ, pos, negsuc, leb_ℤ, eqb_ℤ}
use oscassignments.Xv6.Types.{Chan, Panic, Result, ok, panic, ◌>>=◌, add32, is_running}
use oscassignments.Xv6.Kernel.{Kernel, set_proc, Policy, default, fcfs, mlfq, pbs}
use oscassignments.Xv6.Mlfq.{update_stats_and_aging, get_q_idx, get_ticks}
use oscassignments.Xv6.Table.{wakeup1, yield}
use oscassignments.Xv6.Scheduler.{time_to_preempt}

-- `&ticks`, on which sys_sleep waits
abbrev pub ticks_chan : Chan
ticks_chan = Chan.on_addr 1

unfoldable pub count_time : Policy → (cpu : ℕ) → Kernel → Result Kernel
count_time Policy.mlfq cpu k = update_stats_and_aging cpu k
count_time _ cpu k = ok (record k { ticks = add32 k.ticks 1 })

abbrev pub charge : Option ℕ → Kernel → Kernel
charge none k = k
charge (some p) k =
    if is_running (k.procs p).state
    then set_proc p (record (k.procs p) { rtime = add32 (k.procs p).rtime 1 }) k
    else k

-- The case of `T_IRQ0 + IRQ_TIMER`.
unfoldable pub timer_interrupt : Policy → (cpu : ℕ) → (cur : Option ℕ) → Kernel → Result Kernel
timer_interrupt policy cpu cur k = do
  k1 ← (if cpu == 0 then (do k' ← count_time policy cpu k; wakeup1 policy ticks_chan k') else ok k)
  ok (charge cur k1)

-- Whether the code after the switch calls `yield`, at a timer interrupt.
unfoldable pub must_yield : Policy → (cur : Option ℕ) → Kernel → Result Bool
must_yield policy none k = ok false
must_yield Policy.fcfs (some p) k = ok false
must_yield Policy.mlfq (some p) k = elim (get_q_idx k p) [
  | negsuc _ ↦ panic Panic.invalid_q
  | pos q ↦
      let tcks = get_ticks k p in
      if is_running (k.procs p).state
      then (if not (eqb_ℤ tcks (pos 0)) && leb_ℤ (pos (2 ^ q)) tcks
          then ok true
          else ok (ltb 0 (time_to_preempt mlfq (pos q) false k)))
      else ok false
]
must_yield Policy.pbs (some p) k =
    ok (is_running (k.procs p).state && ltb 0 (time_to_preempt pbs ((k.procs p).priority) true k))
must_yield Policy.default (some p) k = ok (is_running (k.procs p).state)
