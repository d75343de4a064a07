-- ===== src/Xv6/Scheduler/Pick.antt =====
-- Which process the MLFQ part of `scheduler` (A5/xv6-public/proc.c) chooses.
use oscassignments.Base.{ℕ, zero, suc, ◌+◌, ◌≤◌, ◌<◌, ◌≡◌, refl, ◌∙◌, Option, none, some, arith}
use native.Mathlib.Decide.{ℕ_discrete}
use oscassignments.Xv6.Types.{ok, nproc, pq_count}
use oscassignments.Xv6.Kernel.{Kernel}
use oscassignments.Xv6.Mlfq.Invariant.{QueueOk, IsValid}
use oscassignments.Xv6.Table.Scan.{for_procs_inv}
use oscassignments.Xv6.Scheduler.{refill, first_live, pick_from, mlfq_pick}
use oscassignments.Xv6.Scheduler.Serve.{refill-IsValid, Best, Served, first_live-Served}

record Picked (n q : ℕ) (k : Kernel) (found : Option ℕ) (k' : Kernel) : Type 0 where
  valid : IsValid k'
  procs_same : k'.procs ≡ k.procs
  before : (j : ℕ) → j < q → k'.queues j ≡ k.queues j
  result : Best q (q + n) k' found

Picked-here : (n q p : ℕ) (k k1 : Kernel) → Served q k (some p) k1 → Picked (suc n) q k (some p) k1
Picked-here n q p k k1 s = record {
  valid = s.valid;
  procs_same = s.procs_same;
  before = λ j hj. s.others j (omega arith);
  result = (q, omega arith, omega arith, s.result, λ j lo up. absurd (omega arith));
}

Best-later :
    (n q : ℕ) (k : Kernel) (found : Option ℕ)
    → (k.queues q).size ≡ 0
    → Best (q + 1) (q + 1 + n) k found
    → Best q (q + suc n) k found
Best-later n q k none e b = λ j lo up. elim (ℕ_discrete j q) [
  | yes same ↦ rw same e
  | no other ↦ b j (omega arith) (omega arith)
]
Best-later n q k (some p) e (level, lo, up, front, below) = (
  level,
  omega arith,
  omega arith,
  front,
  λ j l u. elim (ℕ_discrete j q) [ yes same ↦ rw same e | no other ↦ below j (omega arith) u ],
)

Picked-later :
    (n q : ℕ) (k k1 k2 : Kernel) (found : Option ℕ)
    → Served q k none k1
    → Picked n (q + 1) k1 found k2
    → Picked (suc n) q k found k2
Picked-later n q k k1 k2 found s p = record {
  valid = p.valid;
  procs_same = p.procs_same ∙ s.procs_same;
  before = λ j hj. p.before j (omega arith) ∙ s.others j (omega arith);
  result = Best-later n q k2 found (rw (p.before q (omega arith)) s.result) p.result;
}

pick_from-Picked :
    (n q : ℕ) (k : Kernel)
    → IsValid k
    → q + n ≤ pq_count
    → (found : Option ℕ) × (k' : Kernel) × (pick_from n q k ≡ ok (found, k'))
      × Picked n q k found k'
unfolding pick_from
pick_from-Picked zero q k v h = (
  none,
  k,
  refl,
  record {
    valid = v;
    procs_same = refl;
    before = λ j hj. refl;
    result = λ j lo up. absurd (omega arith);
  },
)
pick_from-Picked (suc n) q k v h =
    let ok_q : QueueOk (k.queues q) = v.queue_ok q (omega arith) in
    let (found, k1, e, s) =
      first_live-Served ((k.queues q).size + 1) q k v (omega arith) ok_q.slots ok_q.rep
        ok_q.distinct ok_q.in_table (omega (arith, ok_q.rep.size_eq)) in
    go found k1 e s (pick_from-Picked n (q + 1))
  where
    go :
        (found : Option ℕ) (k1 : Kernel)
        → first_live ((k.queues q).size + 1) q k ≡ ok (found, k1)
        → Served q k found k1
        → ((k1 : Kernel)
            → IsValid k1
            → q + 1 + n ≤ pq_count
            → (found : Option ℕ) × (k' : Kernel) × (pick_from n (q + 1) k1 ≡ ok (found, k'))
              × Picked n (q + 1) k1 found k')
        → (found : Option ℕ) × (k' : Kernel) × (pick_from (suc n) q k ≡ ok (found, k'))
          × Picked (suc n) q k found k'
    go (some p) k1 e s ih = (some p, k1, rw e refl, Picked-here n q p k k1 s)
    go none k1 e s ih =
        let (found, k2, e2, p) = ih k1 s.valid (omega arith) in
        (found, k2, rw e e2, Picked-later n q k k1 k2 found s p)

-- From a valid state the MLFQ choice does not panic and keeps the invariant. Either all five queues
-- are empty afterwards, or the process chosen is runnable, not killed and has a pid, it stands at the
-- front of its queue, and the queues of higher priority are empty.
pub mlfq_pick_lem :
    (k : Kernel)
    → IsValid k
    → (found : Option ℕ) × (k' : Kernel) × (mlfq_pick k ≡ ok (found, k'))
      × IsValid k'
      × Best 0 pq_count k' found
unfolding mlfq_pick
mlfq_pick_lem k v =
    let (k1, e1, v1) =
      for_procs_inv (λ i k. IsValid k) refill nproc (λ i k hi v. refill-IsValid i k hi v) nproc 0 k
        (omega arith) v in
    let (found, k2, e2, p) = pick_from-Picked pq_count 0 k1 v1 (omega arith) in
    (found, k2, rw e1 e2, p.valid, p.result)
