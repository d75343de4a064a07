-- ===== src/Xv6/Mlfq/Promote.antt =====
-- `deleteIdx` and `incPrio` of A5/xv6-public/proc.c on a process that stands where `stat.allotedQ`
-- says.
use oscassignments.Base.{
  ℕ, ◌+◌, ◌-◌, ◌%◌, ◌<◌, ◌≡◌, refl, false, ◌==◌, eq→==, leb, if◌then◌else◌, update, List, [], ◌∷◌,
  ◌++◌, All, All-drop, Distinct, Distinct-drop, length, arith, Bool-cases, inl, inr, ◌||◌,
}
use oscassignments.Base.Int.{pos}
use oscassignments.Xv6.Types.{Proc, ok, nproc, pq_count}
use oscassignments.Xv6.Ring.{max_proc_count, next_index, set_pos}
use oscassignments.Xv6.Ring.Refine.{Represents}
use oscassignments.Xv6.Ring.Delete.{deleted, moved, delete_idx_lem, deleted-Represents}
use oscassignments.Xv6.Kernel.{Kernel}
use oscassignments.Xv6.Mlfq.{push_back, inc_prio, delete_queue}
use oscassignments.Xv6.Mlfq.Invariant.{IsValid}
use oscassignments.Xv6.Mlfq.Valid.{push_back-IsValid}

-- The move tells each process its new position, and changes no other field.
pub moved-alloted_q :
    (zs : List ℕ) (procs : ℕ → Proc) (i s : ℕ)
    → (moved zs procs i s).alloted_q ≡ (procs s).alloted_q
moved-alloted_q [] procs i s = refl
moved-alloted_q (z ∷ zs) procs i s =
    ground (arith, moved-alloted_q zs (set_pos procs z i) (next_index i) s)

-- Process `p` of queue `q` has `ys` before it and `zs` behind it, and its `stat` says so.
pub record Stands (k : Kernel) (p q : ℕ) (ys zs : List ℕ) : Type 0 where
  pub in_range : q < pq_count
  pub queue : (k.procs p).alloted_q ≡ pos q
  pub place : (k.procs p).alloted_pos ≡ pos (((k.queues q).start + length ys) % max_proc_count)
  pub rep : Represents (k.queues q) (ys ++ (p ∷ zs))
  pub distinct : Distinct (ys ++ (p ∷ zs))
  pub in_table : All (λ s. s < nproc) (ys ++ (p ∷ zs))

module _ (k : Kernel) (p q : ℕ) (ys zs : List ℕ) (v : IsValid k) (st : Stands k p q ys zs) where
  abbrev place_of : ℕ
  place_of = ((k.queues q).start + length ys) % max_proc_count

  -- the state after `deleteIdx`
  abbrev pub without : Kernel
  without = record k {
    queues = update k.queues q (deleted (k.queues q) place_of zs);
    procs = moved zs k.procs place_of;
  }

  -- `deleteIdx` takes out just that entry, and the others keep their order.
  pub delete_queue_lem :
      (delete_queue q place_of k ≡ ok without) × Represents (without.queues q) (ys ++ zs)
  unfolding delete_queue
  delete_queue_lem = (
    rw (guard, delete_idx_lem (k.queues q) k.procs ys zs p place_of st.rep refl) refl,
    rw (eq→== q q refl) (deleted-Represents (k.queues q) k.procs ys zs p place_of st.rep refl),
  )
    where
      guard : (leb pq_count q || leb max_proc_count place_of) ≡ false
      guard = ground (arith, st.in_range)

  pub without-IsValid : IsValid without
  without-IsValid = record {
    queue_ok = λ j hj. elim (Bool-cases (j == q)) [
      | inl e ↦ rw e (record {
        slots = ys ++ zs;
        rep = deleted-Represents (k.queues q) k.procs ys zs p place_of st.rep refl;
        distinct = Distinct-drop ys zs p st.distinct;
        in_table = All-drop (λ s. s < nproc) ys zs p st.in_table;
      })
      | inr e ↦ rw e (v.queue_ok j hj)
    ];
    alloted = λ i. rw (moved-alloted_q zs k.procs place_of i) (v.alloted i);
  }

  -- `incPrio` of such a process does not panic, keeps the invariant, and pushes the process on the
  -- queue one level up, or at the back of its own at the highest level.
  pub inc_prio_lem :
      p < nproc
      → (k' : Kernel) × (inc_prio p k ≡ ok k')
        × (push_back (pos (if q == 0 then q else q - 1)) p without ≡ ok k')
        × IsValid k'
  unfolding inc_prio
  inc_prio_lem hp =
      let (k', e, v') =
        push_back-IsValid (if q == 0 then q else q - 1) p without without-IsValid (dest-lt) hp in
      (k', rw (st.queue, st.place, inc_prio, delete_queue_lem.0) e, e, v')
    where
      dest-lt : (if q == 0 then q else q - 1) < pq_count
      dest-lt = ground (arith, st.in_range)
