-- ===== src/Xv6/Scheduler/Preempt.antt =====
-- `timeToPreempt` of A5/xv6-public/proc.c against the question that it answers.
use oscassignments.Base.{
  ℕ, ◌<◌, ◌≡◌, ◌≢◌, refl, Bool, true, false, Option, none, some, arith, ◌⊎◌, ◌↔◌, Found,
  find_first-Found, find_first,
}
use oscassignments.Base.Int.{ℤ, ltb_ℤ}
use oscassignments.Xv6.Types.{Proc, nproc, is_runnable}
use oscassignments.Xv6.Kernel.{Kernel, Policy}
use oscassignments.Xv6.Mlfq.Invariant.{InRange, IsValid}
use oscassignments.Xv6.Scheduler.{rank, preempt_reply, preempts, time_to_preempt}

-- Process `p` is runnable and goes before one of priority `prio`, or with one where `same` is set.
abbrev pub Ahead : Policy → ℤ → Bool → Proc → Type 0
Ahead policy prio same p =
    (is_runnable p.state ≡ true)
    × ((ltb_ℤ (rank policy p) prio ≡ true) ⊎ ((rank policy p ≡ prio) × (same ≡ true)))

preempts→Ahead :
    (policy : Policy) (prio : ℤ) (same : Bool) (p : Proc)
    → preempts policy prio same p ≡ true
    → Ahead policy prio same p
unfolding preempts
preempts→Ahead Policy.mlfq prio same p h = ground arith
preempts→Ahead policy prio same p h = ground arith

Ahead→preempts :
    (policy : Policy) (prio : ℤ) (same : Bool) (p : Proc)
    → InRange p.alloted_q
    → Ahead policy prio same p
    → preempts policy prio same p ≡ true
unfolding preempts
Ahead→preempts Policy.mlfq prio same p v h = ground arith
Ahead→preempts policy prio same p v h = ground arith

reply-ne : (policy : Policy) (pid : ℕ) → pid ≢ 0 → preempt_reply policy pid ≢ 0
reply-ne Policy.mlfq pid h = h
reply-ne policy pid h = omega arith

module _ (policy : Policy) (prio : ℤ) (same : Bool) (k : Kernel) where
  abbrev search_test : ℕ → Bool
  search_test i = preempts policy prio same (k.procs i)

  zero_of_none : find_first search_test nproc 0 ≡ none → time_to_preempt policy prio same k ≡ 0
  unfolding time_to_preempt
  zero_of_none e = rw (e, time_to_preempt)

  some_ne_zero :
      (i : ℕ)
      → find_first search_test nproc 0 ≡ some i
      → (k.procs i).pid ≢ 0
      → time_to_preempt policy prio same k ≢ 0
  unfolding time_to_preempt
  some_ne_zero i e h = rw (e, time_to_preempt) (reply-ne policy (k.procs i).pid h)

  preempts_answer :
      (r : Option ℕ)
      → find_first search_test nproc 0 ≡ r
      → Found search_test 0 nproc r
      → IsValid k
      → ((i : ℕ) → i < nproc → is_runnable (k.procs i).state ≡ true → (k.procs i).pid ≢ 0)
      → (time_to_preempt policy prio same k ≢ 0)
        ↔ ((i : ℕ) × (i < nproc) × Ahead policy prio same (k.procs i))
  preempts_answer none e f v pids = (
    λ h. absurd (h (zero_of_none e)),
    λ (i, hi, a). absurd (
        true_ne_false (Ahead→preempts policy prio same (k.procs i) (v.alloted i) a)
          (f i (omega arith) hi)),
  )
    where
      true_ne_false : {b : Bool} → b ≡ true → b ≡ false → ⊥
      true_ne_false p q = cc
  preempts_answer (some i) e f v pids =
      (λ _. (i, f.1, ahead), λ _. some_ne_zero i e (pids i f.1 ahead.0))
    where
      ahead : Ahead policy prio same (k.procs i)
      ahead = preempts→Ahead policy prio same (k.procs i) f.2

  -- With valid queues, and a pid for each runnable process, `timeToPreempt` returns nonzero exactly if
  -- some runnable process of the table goes before one of the given priority (MLFQ ranks processes by
  -- their queues, the other schedulers by their priority), or with it where `checkSamePrio` is set.
  pub time_to_preempt_lem :
      IsValid k
      → ((i : ℕ) → i < nproc → is_runnable (k.procs i).state ≡ true → (k.procs i).pid ≢ 0)
      → (time_to_preempt policy prio same k ≢ 0)
        ↔ ((i : ℕ) × (i < nproc) × Ahead policy prio same (k.procs i))
  time_to_preempt_lem v pids =
      preempts_answer (find_first search_test nproc 0) refl
        (find_first-Found search_test nproc 0 nproc (omega arith)) v pids
