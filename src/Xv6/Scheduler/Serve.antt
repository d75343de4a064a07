-- ===== src/Xv6/Scheduler/Serve.antt =====
-- The front of one row of `prioQ` in the scheduler of A5/xv6-public/proc.c: dead processes are dropped.
use oscassignments.Base.{
  ℕ, zero, suc, ◌≤◌, ◌<◌, ◌≡◌, ◌≢◌, refl, ◌∙◌, true, false, Option, none, some, List, [], ◌∷◌, All,
  Distinct, length, ◌==◌, ne→==, eq→==, leb, update, arith, Bool-cases, inl, inr,
}
use oscassignments.Base.Int.{pos}
use oscassignments.Xv6.Types.{ok, nproc, pq_count, is_runnable}
use oscassignments.Xv6.Ring.{Ring, get_front, pop_front}
use oscassignments.Xv6.Ring.Refine.{Represents, get_front_lem, pop_front_lem}
use oscassignments.Xv6.Kernel.{Kernel}
use oscassignments.Xv6.Mlfq.{pop_queue}
use oscassignments.Xv6.Mlfq.Invariant.{QueueOk, IsValid}
use oscassignments.Xv6.Mlfq.Valid.{push_back-IsValid, InRange-pos}
use oscassignments.Xv6.Scheduler.{proc_is_dead, refill, first_live, Proc}

pub refill-IsValid :
    (i : ℕ) (k : Kernel) → i < nproc → IsValid k → (k' : Kernel) × (refill i k ≡ ok k') × IsValid k'
unfolding refill
refill-IsValid i k hi v = elim (Bool-cases (is_runnable (k.procs i).state)) [
  | inr rest ↦ (k, rw rest, v)
  | inl run ↦
      let (q, e, hq) = InRange-pos ((k.procs i).alloted_q) (v.alloted i) in
      let row : leb pq_count q ≡ false = ground arith in
      elim (Bool-cases ((k.queues q).size == 0)) [
        | inl empty ↦ rw (run, e, refill, row, empty) (push_back-IsValid q i k v hq hi)
        | inr full ↦ (k, rw (run, e, refill, row, full), v)
      ]
]

-- A runnable process that is not killed and has a pid.
abbrev pub Live : Proc → Type 0
Live q = (is_runnable q.state ≡ true) × (q.killed ≡ false) × (q.pid ≢ 0)

pub not_dead : (k : Kernel) (p : ℕ) → proc_is_dead k (some p) ≡ false → Live (k.procs p)
unfolding proc_is_dead
not_dead k p e = (ground arith, ground arith, ground arith)

-- Row `q` has nothing left, or a live process of the table at its front.
abbrev pub AtFront : ℕ → Kernel → Option ℕ → Type 0
AtFront q k none = (k.queues q).size ≡ 0
AtFront q k (some p) =
    Live (k.procs p)
    × (p < nproc)
    × ((k.queues q).size ≢ 0)
    × ((k.queues q).cells (k.queues q).start ≡ some p)

-- The queues from `q` up to `hi` are empty, or the process chosen stands at the front of the first
-- of them that is not.
abbrev pub Best : (q hi : ℕ) → Kernel → Option ℕ → Type 0
Best q hi k none = (j : ℕ) → q ≤ j → j < hi → (k.queues j).size ≡ 0
Best q hi k (some p) =
    (level : ℕ) × (q ≤ level)
    × (level < hi)
    × AtFront level k (some p)
    × ((j : ℕ) → q ≤ j → j < level → (k.queues j).size ≡ 0)

pub record Served (q : ℕ) (k : Kernel) (found : Option ℕ) (k' : Kernel) : Type 0 where
  pub valid : IsValid k'
  pub procs_same : k'.procs ≡ k.procs
  pub others : (j : ℕ) → j ≢ q → k'.queues j ≡ k.queues j
  pub result : AtFront q k' found

pub set_queue-IsValid :
    (q : ℕ) (r : Ring) (k : Kernel)
    → IsValid k
    → QueueOk r
    → IsValid (record k { queues = update k.queues q r })
set_queue-IsValid q r k v vr = record {
  queue_ok =
      λ j hj. elim (Bool-cases (j == q)) [ inl e ↦ rw e vr | inr e ↦ rw e (v.queue_ok j hj) ];
  alloted = v.alloted;
}

pub pop_queue_lem :
    (q : ℕ) (k : Kernel)
    → q < pq_count
    → {a : Option ℕ} {r' : Ring} → pop_front (k.queues q) ≡ ok (a, r')
    → pop_queue (pos q) k ≡ ok (a, record k { queues = update k.queues q r' })
unfolding pop_queue
pop_queue_lem q k hq e = let row : leb pq_count q ≡ false = ground arith in rw (row, e)

pub keep_live :
    (f q : ℕ) (k : Kernel) {fr : Option ℕ}
    → ((k.queues q).size == 0) ≡ false
    → get_front (k.queues q) ≡ ok fr
    → proc_is_dead k fr ≡ false
    → first_live (suc f) q k ≡ ok (fr, k)
unfolding first_live
keep_live f q k some_left front live = ground arith

pub drop_dead :
    (f q : ℕ) (k : Kernel) {fr a : Option ℕ} {k1 : Kernel}
    → ((k.queues q).size == 0) ≡ false
    → get_front (k.queues q) ≡ ok fr
    → proc_is_dead k fr ≡ true
    → pop_queue (pos q) k ≡ ok (a, k1)
    → first_live (suc f) q k ≡ first_live f q k1
unfolding first_live
drop_dead f q k {fr} {a} {k1} some_left front dead pop = ground arith

pub first_live-Served :
    (f q : ℕ) (k : Kernel)
    → IsValid k
    → (hq : q < pq_count) → (xs : List ℕ) → Represents (k.queues q) xs
    → Distinct xs
    → All (λ s. s < nproc) xs
    → length xs < f
    → (found : Option ℕ) × (k' : Kernel) × (first_live f q k ≡ ok (found, k')) × Served q k found k'
unfolding first_live
first_live-Served zero q k v hq xs rep d t hf = absurd (omega arith)
first_live-Served (suc f) q k v hq [] rep d t hf = (
  none,
  k,
  rw (eq→== (k.queues q).size 0 rep.size_eq),
  record { valid = v; procs_same = refl; others = λ j h. refl; result = rep.size_eq },
)
first_live-Served (suc f) q k v hq (x ∷ xs) rep d t hf =
    elim (Bool-cases (proc_is_dead k (some x))) [
      | inr live ↦ (
        some x,
        k,
        keep_live f q k some_left front live,
        record {
          valid = v;
          procs_same = refl;
          others = λ j h. refl;
          result = (not_dead k x live, t.0, omega (arith, rep.size_eq), rep.seg.0);
        },
      )
      | inl dead ↦
          let (r', e, rep') = pop_front_lem (k.queues q) x xs rep in
          let k1 : Kernel = record k { queues = update k.queues q r' } in
          let v1 : IsValid k1 =
            set_queue-IsValid q r' k v
              (record { slots = xs; rep = rep'; distinct = d.1; in_table = t.1 }) in
          let (found, k', go, s) =
            first_live-Served f q k1 v1 hq xs (rw (eq→== q q refl) rep') d.1 t.1 (omega arith) in
          (
            found,
            k',
            drop_dead f q k some_left front dead (pop_queue_lem q k hq e) ∙ go,
            record {
              valid = s.valid;
              procs_same = s.procs_same;
              others = λ j h. s.others j h ∙ rw (ne→== j q h) refl;
              result = s.result;
            },
          )
    ]
  where
    some_left : ((k.queues q).size == 0) ≡ false
    some_left = ne→== (k.queues q).size 0 (omega (arith, rep.size_eq))

    front : get_front (k.queues q) ≡ ok (some x)
    front = get_front_lem (k.queues q) x xs rep
