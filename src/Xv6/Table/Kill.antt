-- ===== src/Xv6/Table/Kill.antt =====
-- `kill` of A5/xv6-public/proc.c.
use oscassignments.Base.{
  ℕ, ◌<◌, ◌≡◌, ◌≢◌, refl, true, false, Option, none, some, ◌==◌, arith, inl, inr, ◌⊎◌, eq→==, ne→==,
  ==→eq, Found, find_first-Found, find_first, ap, if◌then◌else◌,
}
use oscassignments.Base.Int.{ℤ, pos}
use oscassignments.Xv6.Types.{Procstate, Proc, nproc, is_sleeping}
use oscassignments.Xv6.Kernel.{Kernel, set_proc}
use oscassignments.Xv6.Mlfq.Invariant.{IsValid}
use oscassignments.Xv6.Mlfq.Valid.{set_proc-IsValid}
use oscassignments.Xv6.Table.{minus_one, kill, killed_proc}

-- Slot `i` is the first with the pid; it is killed, runnable if it slept and in its old state if not,
-- and no other slot has changed.
pub record Killed (pid : ℕ) (k k' : Kernel) (i : ℕ) : Type 0 where
  pub in_table : i < nproc
  pub found : (k.procs i).pid ≡ pid
  pub first : (j : ℕ) → j < i → (k.procs j).pid ≢ pid
  pub marked : (k'.procs i).killed ≡ true
  pub woken : is_sleeping (k.procs i).state ≡ true → (k'.procs i).state ≡ Procstate.runnable
  pub as_it_was : is_sleeping (k.procs i).state ≡ false → (k'.procs i).state ≡ (k.procs i).state
  pub pid_same : (k'.procs i).pid ≡ pid
  pub others : (j : ℕ) → j ≢ i → k'.procs j ≡ k.procs j

killed_proc-woken :
    (p : Proc) → is_sleeping p.state ≡ true → (killed_proc p).state ≡ Procstate.runnable
killed_proc-woken p e = ap (λ b. if b then Procstate.runnable else p.state) e

killed_proc-same : (p : Proc) → is_sleeping p.state ≡ false → (killed_proc p).state ≡ p.state
killed_proc-same p e = ap (λ b. if b then Procstate.runnable else p.state) e

-- From a valid state `kill` keeps the queues valid. It returns -1 and changes nothing if no slot has the pid; else it
-- returns 0, the first slot of that pid is marked, and runnable if it slept but in its old state if
-- not, and no other slot changes.
pub kill_lem :
    (pid : ℕ) (k : Kernel)
    → IsValid k
    → (r : ℤ) × (k' : Kernel) × (kill pid k ≡ (r, k'))
      × IsValid k'
      × (((r ≡ minus_one) × (k' ≡ k) × ((i : ℕ) → i < nproc → (k.procs i).pid ≢ pid))
          ⊎ ((r ≡ pos 0) × (i : ℕ) × Killed pid k k' i))
unfolding kill
kill_lem pid k v =
    go (find_first (λ i. (k.procs i).pid == pid) nproc 0) refl
      (find_first-Found (λ i. (k.procs i).pid == pid) nproc 0 nproc (omega arith))
  where
    ne_of_false : (a : ℕ) → (a == pid) ≡ false → a ≢ pid
    ne_of_false a h e = ground arith

    go :
        (r : Option ℕ)
        → find_first (λ i. (k.procs i).pid == pid) nproc 0 ≡ r
        → Found (λ i. (k.procs i).pid == pid) 0 nproc r
        → (r : ℤ) × (k' : Kernel) × (kill pid k ≡ (r, k'))
          × IsValid k'
          × (((r ≡ minus_one) × (k' ≡ k) × ((i : ℕ) → i < nproc → (k.procs i).pid ≢ pid))
              ⊎ ((r ≡ pos 0) × (i : ℕ) × Killed pid k k' i))
    go none e f = (
      minus_one,
      k,
      rw (e, kill) refl,
      v,
      inl (refl, refl, λ i hi. ne_of_false (k.procs i).pid (f i (omega arith) hi)),
    )
    go (some i) e f = (
      pos 0,
      set_proc i (killed_proc (k.procs i)) k,
      rw (e, kill) refl,
      set_proc-IsValid i _ k refl v,
      inr (
        refl,
        i,
        record {
          in_table = f.1;
          found = ==→eq (k.procs i).pid pid f.2;
          first = λ j hj. ne_of_false (k.procs j).pid (f.3 j (omega arith) hj);
          marked = rw (eq→== i i refl) refl;
          woken = λ e. rw (eq→== i i refl) (killed_proc-woken (k.procs i) e);
          as_it_was = λ e. rw (eq→== i i refl) (killed_proc-same (k.procs i) e);
          pid_same = rw (eq→== i i refl) (==→eq (k.procs i).pid pid f.2);
          others = λ j h. rw (ne→== j i h) refl;
        },
      ),
    )
