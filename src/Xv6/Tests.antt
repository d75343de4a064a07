-- ===== src/Xv6/Tests.antt =====
-- The theorems on A5/xv6-public/proc.c, trap.c and kalloc.c at a small machine: `init` asleep in
-- `wait`, a shell that is runnable, a job that runs, and a child of the job that has exited.
use oscassignments.Xv6.Kalloc.{kalloc}
use oscassignments.Base.{
  ◌+◌, ◌∷◌, refl, false, some, ◌==◌, arith, Bool-cases, inl, inr, [], sym, ==→eq, ℕ, ◌≢◌, Option,
  Bool, ◌≡◌, ◌<◌, true, ◌↔◌, ◌^◌, ◌⊎◌, ◌≤◌,
}
use oscassignments.Base.Int.{pos, ℤ}
use oscassignments.Xv6.Types.{Procstate, ◌>>=◌, nproc, Result, ok, pq_count}
use oscassignments.Xv6.Kernel.{Kernel, set_proc, for_procs, mlfq}
use oscassignments.Xv6.Mlfq.Invariant.{IsValid, QueueOk}
use mathlib.Core.Path.{subst}
use oscassignments.Xv6.Ring.Refine.{Represents}
use oscassignments.Xv6.Ring.{get_front, holds_pid}
use oscassignments.Xv6.Mlfq.{delete_queue, push_back, inc_prio, get_ticks}
use oscassignments.Xv6.Mlfq.Valid.{set_proc-IsValid}
use oscassignments.Xv6.Mlfq.Promote.{Stands, without, inc_prio_lem, delete_queue_lem}
use oscassignments.Xv6.Scheduler.{
  mlfq_pick, pick_from, first_live, refill, proc_is_dead, after_switch, time_to_preempt, fcfs_pick,
}
use oscassignments.Xv6.Scheduler.Pick.{mlfq_pick_lem}
use oscassignments.Xv6.Scheduler.Serve.{Best}
use oscassignments.Xv6.Scheduler.Choice.{Oldest, fcfs_pick-Oldest}
use oscassignments.Xv6.Scheduler.Preempt.{Ahead, time_to_preempt_lem}
use oscassignments.Xv6.Scheduler.Requeue.{AtBack, after_switch_requeue}
use oscassignments.Xv6.Table.{exit, Waited, waitx, PagesOf, fork, Copyuvm, kill, minus_one}
use oscassignments.Xv6.Table.Exit.{Exited, exit_lem}
use oscassignments.Xv6.Table.Wait.{zombie_child, Freeable, Outcome, waitx_lem}
use oscassignments.Xv6.Table.Fork.{Forked, fork_lem}
use oscassignments.Xv6.Table.Kill.{Killed, kill_lem}
use oscassignments.Xv6.Trap.{must_yield}
use oscassignments.Xv6.Trap.Slice.{must_yield_lem}
use oscassignments.Xv6.Kalloc.Pages.{PagesOk}
use oscassignments.Xv6.Machine.{job, machine, machine-IsValid, machine-PidsOk, pids_set}

mlfq_pick_example :
    (found : Option ℕ) × (k' : Kernel) × (mlfq_pick machine ≡ ok (found, k'))
    × IsValid k'
    × Best 0 pq_count k' found
mlfq_pick_example = mlfq_pick_lem machine machine-IsValid

-- The choice is the shell.
picks_shell : Result.ok (some 1) ≡ (do r ← mlfq_pick machine; ok (r.0))
unfolding mlfq_pick pick_from first_live refill push_back get_front proc_is_dead for_procs
picks_shell = refl

shell-Stands : Stands machine 1 1 [] []
shell-Stands = record {
  in_range = omega arith;
  queue = refl;
  place = refl;
  rep = record { start_in = omega arith; size_eq = refl; room = omega arith; seg = (refl, tt) };
  distinct = (tt, tt);
  in_table = (omega arith, tt);
}

inc_prio_example :
    (k' : Kernel) × (inc_prio 1 machine ≡ ok k')
    × (push_back (pos 0) 1 (without machine 1 1 [] [] machine-IsValid shell-Stands) ≡ ok k')
    × IsValid k'
inc_prio_example = inc_prio_lem machine 1 1 [] [] machine-IsValid shell-Stands (omega arith)

-- the job stopped after all four ticks of its slice
abbrev stopped : Kernel
stopped = set_proc 2 (record job { state = Procstate.runnable }) machine

stopped-IsValid : IsValid stopped
stopped-IsValid =
    set_proc-IsValid 2 (record job { state = Procstate.runnable }) machine refl machine-IsValid

empty-QueueOk : QueueOk (stopped.queues 3)
empty-QueueOk = record {
  slots = [];
  rep = record { start_in = omega arith; size_eq = refl; room = omega arith; seg = tt };
  distinct = tt;
  in_table = tt;
}

after_switch_example : (k' : Kernel) × (after_switch 2 stopped ≡ ok k') × AtBack k' 2 3 []
unfolding get_ticks holds_pid empty-QueueOk
after_switch_example =
    after_switch_requeue 2 2 stopped stopped-IsValid (omega arith) (omega arith) refl false
      empty-QueueOk refl (refl, refl)

must_yield_example :
    (yes_no : Bool) × (must_yield mlfq (some 2) machine ≡ ok yes_no)
    × ((yes_no ≡ true) ↔ (
        ((◌≢◌ {A = ℕ} 4 0) × (2 ^ 2 ≤ 4))
        ⊎ ((i : ℕ) × (i < nproc) × Ahead mlfq (pos 2) false (machine.procs i))))
unfolding get_ticks
must_yield_example = must_yield_lem machine 2 2 4 machine-IsValid pids_set refl refl refl

time_to_preempt_example :
    (time_to_preempt mlfq (pos 2) false machine ≢ 0)
    ↔ ((i : ℕ) × (i < nproc) × Ahead mlfq (pos 2) false (machine.procs i))
time_to_preempt_example = time_to_preempt_lem mlfq (pos 2) false machine machine-IsValid pids_set

fcfs_example : Oldest machine nproc (fcfs_pick machine)
fcfs_example = fcfs_pick-Oldest machine

exit_example : (k' : Kernel) × (exit mlfq 2 machine ≡ ok k') × Exited 2 machine k'
exit_example = exit_lem mlfq 2 machine machine-IsValid refl

-- the address space of every process is one page
abbrev one_page : PagesOf
one_page pgdir = (pgdir + 0x1000) ∷ []

zombies-Freeable :
    (i : ℕ) → zombie_child 2 (machine.procs i) ≡ true → Freeable one_page machine (machine.procs i)
zombies-Freeable i h = elim (Bool-cases (i == 3)) [
  | inl e ↦
      subst (λ (j : ℕ). Freeable one_page machine (machine.procs j)) (sym (==→eq i 3 e))
        (record {
          stack = 0x8040_3000;
          pgdir = 0x8040_4000;
          has_stack = refl;
          has_pgdir = refl;
          good_stack = refl;
          good_pgdir = refl;
          good_pages = (refl, tt);
        })
  | inr e ↦ absurd (ground arith)
]

waitx_example :
    (w : Waited) × (k' : Kernel) × (waitx one_page 2 machine ≡ ok (w, k'))
    × Outcome one_page 2 machine w k'
waitx_example = waitx_lem one_page 2 machine zombies-Freeable

-- a copy of an address space that takes the next free page
abbrev takes_page : Copyuvm
takes_page freelist = ok (kalloc freelist)

fork_example : Forked 2 takes_page machine (fork mlfq 2 takes_page machine)
fork_example = fork_lem mlfq 2 takes_page machine machine-IsValid machine-PidsOk refl

kill_example :
    (r : ℤ) × (k' : Kernel) × (kill 1 machine ≡ (r, k'))
    × IsValid k'
    × (((r ≡ minus_one) × (k' ≡ machine) × ((i : ℕ) → i < nproc → (machine.procs i).pid ≢ 1))
        ⊎ ((r ≡ pos 0) × (i : ℕ) × Killed 1 machine k' i))
kill_example = kill_lem 1 machine machine-IsValid

machine-PagesOk : PagesOk machine.kernel_end machine.freelist
machine-PagesOk = record { good = (refl, (refl, tt)); distinct = ((omega arith, tt), (tt, tt)) }

delete_queue_example :
    (delete_queue 1 0 machine ≡ ok (without machine 1 1 [] [] machine-IsValid shell-Stands))
    × Represents ((without machine 1 1 [] [] machine-IsValid shell-Stands).queues 1) []
delete_queue_example = delete_queue_lem machine 1 1 [] [] machine-IsValid shell-Stands
