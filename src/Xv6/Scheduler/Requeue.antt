-- ===== src/Xv6/Scheduler/Requeue.antt =====
-- Where a process goes after its turn: `decPrio` and the end of `scheduler` in A5/xv6-public/proc.c.
use oscassignments.Base.{
  ℕ, zero, suc, ◌+◌, ◌-◌, ◌^◌, ◌<◌, ◌≡◌, refl, ap, sym, ◌∙◌, Bool, true, false, ◌||◌, ◌==◌,
  if◌then◌else◌, arith, inl, inr, ◌⊎◌, eq→==, List, [], ◌∷◌, ◌++◌, any, fun_ext,
}
use native.Mathlib.Nat.{pow-suc}
use oscassignments.Base.Int.{pos}
use oscassignments.Xv6.Types.{ok, nproc, pq_count, is_runnable, is_sleeping}
use oscassignments.Xv6.Ring.{Ring, holds_pid}
use oscassignments.Xv6.Ring.Refine.{Represents, append-Represents, holds_pid-eq-any}
use oscassignments.Xv6.Kernel.{Kernel, set_proc}
use oscassignments.Xv6.Mlfq.Invariant.{QueueOk, IsValid, QueueOk-size}
use oscassignments.Xv6.Mlfq.{get_ticks, push_back, push_new, dec_prio}
use oscassignments.Xv6.Scheduler.{after_switch}

-- The queue that the process moves to: its own, or one down, but not below the last.
abbrev pub dest : ℕ → Bool → ℕ
dest q retain = if q == (pq_count - 1) || retain then q else q + 1

-- Process `p` stands at the back of queue `q` behind `slots`, and its record says so.
pub record AtBack (k : Kernel) (p q : ℕ) (slots : List ℕ) : Type 0 where
  pub queue : (k.procs p).alloted_q ≡ pos q
  pub rep : Represents (k.queues q) (slots ++ (p ∷ []))
  pub stamp : (k.procs p).latest_q_time ≡ k.ticks

two_pow_pos : (n : ℕ) → 0 < 2 ^ n
two_pow_pos zero = omega arith
two_pow_pos (suc n) = omega (arith, two_pow_pos n, pow-suc 2 n)

push_absent :
    (q p : ℕ) (k : Kernel)
    → q < pq_count
    → holds_pid k.procs (k.queues q) (k.procs p).pid ≡ false
    → push_back (pos q) p k ≡ ok (push_new q p k)
unfolding push_back
push_absent q p k hq new = ground arith

dest-lt : (q : ℕ) (retain : Bool) → q < pq_count → dest q retain < pq_count
dest-lt q retain h = ground arith

restamp-holds_pid :
    (p t : ℕ) (k : Kernel) (r : Ring) (rep : QueueOk r)
    → holds_pid
        (set_proc p (record (k.procs p) { latest_q_time = t }) k).procs
        r
        ((set_proc p (record (k.procs p) { latest_q_time = t }) k).procs p).pid
      ≡ holds_pid k.procs r (k.procs p).pid
restamp-holds_pid p t k r rep =
    holds_pid-eq-any k1.procs r rep.slots (k1.procs p).pid rep.rep
    ∙ ap (λ (f : ℕ → ℕ). any (λ s. f s == f p) rep.slots) pids
    ∙ sym (holds_pid-eq-any k.procs r rep.slots (k.procs p).pid rep.rep)
  where
    k1 : Kernel
    k1 = set_proc p (record (k.procs p) { latest_q_time = t }) k

    pids : ◌≡◌ {A = ℕ → ℕ} (λ s. (k1.procs s).pid) (λ s. (k.procs s).pid)
    pids = fun_ext λ s. ground arith

-- What the process did in its turn: `retain` where it keeps its queue.
abbrev pub Turn : Kernel → ℕ → ℕ → Bool → Type 0
Turn k p q true =
    (is_sleeping (k.procs p).state ≡ true)
    ⊎ ((is_runnable (k.procs p).state ≡ true)
        × (n : ℕ) × (get_ticks k p ≡ pos n)
        × (0 < n)
        × (n < 2 ^ q))
Turn k p q false = (is_runnable (k.procs p).state ≡ true) × (get_ticks k p ≡ pos (2 ^ q))

abbrev pub Overrun : Kernel → ℕ → ℕ → Type 0
Overrun k p q = (n : ℕ) × (get_ticks k p ≡ pos n) × ((n ≡ 0) ⊎ (2 ^ q < n))

module _ (p q : ℕ) (k : Kernel) (v : IsValid k) (hp : p < nproc) (hq : q < pq_count)
    (own : (k.procs p).alloted_q ≡ pos q) where
  dec_prio_step :
      (retain : Bool)
      → dec_prio p retain k
        ≡ push_back
            (pos (dest q retain))
            p
            (set_proc p (record (k.procs p) { latest_q_time = k.ticks }) k)
  unfolding dec_prio
  dec_prio_step retain = ground arith

  -- A process with no entry of its pid on the queue goes to the back of it, and its clock starts anew.
  pub dec_prio_lem :
      (retain : Bool) (rep : QueueOk (k.queues (dest q retain)))
      → holds_pid k.procs (k.queues (dest q retain)) (k.procs p).pid ≡ false
      → (k' : Kernel) × (dec_prio p retain k ≡ ok k') × AtBack k' p (dest q retain) rep.slots
  unfolding dec_prio
  dec_prio_lem retain rep new = (
    push_new d p k1,
    on_queue,
    record {
      queue = rw (eq→== p p refl) refl;
      rep = rw (eq→== d d refl) (
          append-Represents (k.queues d) rep.slots p rep.rep
            (omega (arith, rep.rep.size_eq, QueueOk-size rep)));
      stamp = rw (eq→== p p refl) refl;
    },
  )
    where
      d : ℕ
      d = dest q retain

      k1 : Kernel
      k1 = set_proc p (record (k.procs p) { latest_q_time = k.ticks }) k

      on_queue : dec_prio p retain k ≡ ok (push_new d p k1)
      on_queue =
          dec_prio_step retain
          ∙ push_absent d p k1 (dest-lt q retain hq)
              (restamp-holds_pid p k.ticks k (k.queues d) rep ∙ new)

  after_switch-Turn : (retain : Bool) → Turn k p q retain → after_switch p k ≡ dec_prio p retain k
  unfolding after_switch
  after_switch-Turn true (inl asleep) = ground arith
  after_switch-Turn true (inr (run, n, e, lo, hi)) = ground arith
  after_switch-Turn false (run, e) = ground arith

  -- After a turn the process goes to the back of its own queue if it sleeps, or has run for at least a
  -- tick and less than its time slice of 2 ^ q ticks, and to the back of the next queue down if it has
  -- used the slice up exactly.
  pub after_switch_requeue :
      (retain : Bool) (rep : QueueOk (k.queues (dest q retain)))
      → holds_pid k.procs (k.queues (dest q retain)) (k.procs p).pid ≡ false
      → Turn k p q retain
      → (k' : Kernel) × (after_switch p k ≡ ok k') × AtBack k' p (dest q retain) rep.slots
  after_switch_requeue retain rep new turn =
      let (k', e, back) = dec_prio_lem retain rep new in
      (k', after_switch-Turn retain turn ∙ e, back)
