-- ===== src/Xv6/Mlfq/Invariant.antt =====
-- The representation invariant of the five queues.
use oscassignments.Base.{ℕ, ◌≤◌, ◌<◌, List, All, Distinct, arith, length-le-bound}
use oscassignments.Base.Int.{ℤ, pos, negsuc}
use oscassignments.Xv6.Types.{nproc, pq_count}
use oscassignments.Xv6.Ring.{Ring}
use oscassignments.Xv6.Ring.Refine.{Represents}
use oscassignments.Xv6.Kernel.{Kernel}

-- The ring is sound, and holds slots of the table, none of them twice.
pub record QueueOk (r : Ring) : Type 0 where
  pub slots : List ℕ
  pub rep : Represents r slots
  pub distinct : Distinct slots
  pub in_table : All (λ s. s < nproc) slots

-- A value of `stat.allotedQ[0]` that names a queue.
abbrev pub InRange : ℤ → Type 0
InRange (pos q) = q < pq_count
InRange (negsuc _) = ⊥

pub record IsValid (k : Kernel) : Type 0 where
  pub queue_ok : (q : ℕ) → q < pq_count → QueueOk (k.queues q)
  pub alloted : (i : ℕ) → InRange ((k.procs i).alloted_q)

-- A queue never holds more than the table has slots, so a row of `prioQ` never fills up.
pub QueueOk-size : {r : Ring} → QueueOk r → r.size ≤ nproc
QueueOk-size {r} v =
    omega (arith, v.rep.size_eq, length-le-bound nproc v.slots v.distinct v.in_table)
