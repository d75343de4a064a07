-- ===== src/Xv6/Mlfq/Valid.antt =====
-- The queue functions keep the invariant and do not panic.
use oscassignments.Base.{
  ℕ, ◌+◌, ◌-◌, ◌<◌, ◌≡◌, ◌≢◌, refl, ap, sym, eq→==, ◌||◌, Bool, false, ◌==◌, if◌then◌else◌, List,
  [], ◌∷◌, ◌++◌, any, All, All-append, Distinct-append, arith, Bool-cases, inl, inr,
  length-le-bound,
}
use oscassignments.Base.Int.{ℤ, pos, negsuc}
use oscassignments.Xv6.Types.{Proc, ok, nproc, pq_count}
use oscassignments.Xv6.Ring.{Ring, holds_pid, append}
use oscassignments.Xv6.Ring.Refine.{holds_pid-eq-any, append-Represents}
use oscassignments.Xv6.Kernel.{Kernel, set_proc}
use oscassignments.Xv6.Mlfq.{push_back, push_new, dec_prio}
use oscassignments.Xv6.Mlfq.Invariant.{QueueOk, InRange, IsValid}

or-false : (a b : Bool) → (a || b) ≡ false → (a ≡ false) × (b ≡ false)
or-false a b h = ground arith

-- An entry that is the slot `p` has the pid of `p`.
any-false-ne :
    (procs : ℕ → Proc) (p : ℕ) (xs : List ℕ)
    → any (λ s. (procs s).pid == (procs p).pid) xs ≡ false
    → All (λ y. p ≢ y) xs
any-false-ne procs p [] h = tt
any-false-ne procs p (x ∷ xs) h =
    let hs : (((procs x).pid == (procs p).pid) ≡ false)
        × (any (λ s. (procs s).pid == (procs p).pid) xs ≡ false) =
      or-false _ _ h in
    (
      λ e. cc (eq→== (procs x).pid (procs p).pid (ap (λ (s : ℕ). (procs s).pid) (sym e)), hs.0),
      any-false-ne procs p xs hs.1,
    )

append-QueueOk :
    (procs : ℕ → Proc) (r : Ring) (p : ℕ) (v : QueueOk r)
    → p < nproc
    → holds_pid procs r (procs p).pid ≡ false
    → QueueOk (append r p)
append-QueueOk procs r p v hp new = record {
  slots = v.slots ++ (p ∷ []);
  rep =
      append-Represents r v.slots p v.rep
        (omega (arith, length-le-bound nproc v.slots v.distinct v.in_table));
  distinct = Distinct-append v.slots p v.distinct (
      any-false-ne procs p v.slots
        (rw (← holds_pid-eq-any procs r v.slots (procs p).pid v.rep) new));
  in_table = All-append (λ s. s < nproc) v.slots (p ∷ []) v.in_table (hp, tt);
}

pub push_new-IsValid :
    (q p : ℕ) (k : Kernel)
    → IsValid k
    → q < pq_count
    → p < nproc
    → holds_pid k.procs (k.queues q) (k.procs p).pid ≡ false
    → IsValid (push_new q p k)
push_new-IsValid q p k v hq hp new = record {
  queue_ok = λ j hj. elim (Bool-cases (j == q)) [
    | inl e ↦ rw e (append-QueueOk k.procs (k.queues q) p (v.queue_ok q hq) hp new)
    | inr e ↦ rw e (v.queue_ok j hj)
  ];
  alloted = λ i. elim (Bool-cases (i == p)) [ inl e ↦ rw e hq | inr e ↦ rw e (v.alloted i) ];
}

-- `pushBack` on one of the queues never panics and keeps the invariant.
pub push_back-IsValid :
    (q p : ℕ) (k : Kernel)
    → IsValid k
    → q < pq_count
    → p < nproc
    → (k' : Kernel) × (push_back (pos q) p k ≡ ok k') × IsValid k'
unfolding push_back
push_back-IsValid q p k v hq hp =
    elim (Bool-cases (holds_pid k.procs (k.queues q) (k.procs p).pid)) [
      | inl old ↦ (k, ground arith, v)
      | inr new ↦ (push_new q p k, ground arith, push_new-IsValid q p k v hq hp new)
    ]

-- Any change to a process that leaves its queue number alone.
pub set_proc-IsValid :
    (p : ℕ) (new : Proc) (k : Kernel)
    → new.alloted_q ≡ (k.procs p).alloted_q
    → IsValid k
    → IsValid (set_proc p new k)
set_proc-IsValid p new k same v = record {
  queue_ok = v.queue_ok;
  alloted = λ i. elim (Bool-cases (i == p)) [
    | inl e ↦ rw (e, same) (v.alloted p)
    | inr e ↦ rw e (v.alloted i)
  ];
}

dest-lt :
    (q : ℕ) (retain : Bool)
    → q < pq_count
    → (if q == (pq_count - 1) || retain then q else q + 1) < pq_count
dest-lt q retain h = ground arith

pub InRange-pos : (z : ℤ) → InRange z → (q : ℕ) × (z ≡ pos q) × (q < pq_count)
InRange-pos (pos q) h = (q, refl, h)
InRange-pos (negsuc n) h = absurd h

-- `decPrio` never panics and keeps the invariant.
pub dec_prio-IsValid :
    (p : ℕ) (retain : Bool) (k : Kernel)
    → IsValid k
    → p < nproc
    → (k' : Kernel) × (dec_prio p retain k ≡ ok k') × IsValid k'
unfolding dec_prio
dec_prio-IsValid p retain k v hp =
    let (q, e, hq) = InRange-pos ((k.procs p).alloted_q) (v.alloted p) in
    rw (e, dec_prio)
      (push_back-IsValid (if q == (pq_count - 1) || retain then q else q + 1) p
        (set_proc p (record (k.procs p) { latest_q_time = k.ticks }) k)
        (set_proc-IsValid p _ k refl v) (dest-lt q retain hq) hp)
