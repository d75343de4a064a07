-- ===== src/Xv6/Mlfq/Frame.antt =====
-- What `pushBack` of A5/xv6-public/proc.c leaves alone: everything but the rows and `stat.allotedQ`.
use oscassignments.Base.{
  ℕ, ◌<◌, ◌≡◌, refl, Bool, Option, ◌==◌, arith, Bool-cases, inl, inr, ◌∙◌, ap, sym, ==→eq,
}
use oscassignments.Base.Int.{pos}
use oscassignments.Xv6.Types.{Proc, Procstate, Chan, ok, nproc, pq_count}
use oscassignments.Xv6.Ring.{holds_pid}
use oscassignments.Xv6.Kernel.{Kernel, set_proc}
use oscassignments.Xv6.Mlfq.{push_back, push_new}
use oscassignments.Xv6.Mlfq.Invariant.{IsValid}
use oscassignments.Xv6.Mlfq.Valid.{push_new-IsValid}

-- The part of a process that says who it is and what it does: state, pid, parent, channel, killed and
-- kernel stack.
abbrev pub Core : Type 0
Core = Procstate × ℕ × Option ℕ × Chan × Bool × Option ℕ

abbrev pub core : Proc → Core
core p = (p.state, p.pid, p.parent, p.chan, p.killed, p.kstack)

pub record SameRest (k k' : Kernel) : Type 0 where
  pub cores : (j : ℕ) → core (k'.procs j) ≡ core (k.procs j)
  pub nextpid_same : k'.nextpid ≡ k.nextpid
  pub ticks_same : k'.ticks ≡ k.ticks
  pub init_same : k'.initproc ≡ k.initproc
  pub freelist_same : k'.freelist ≡ k.freelist
  pub end_same : k'.kernel_end ≡ k.kernel_end

pub SameRest-refl : (k : Kernel) → SameRest k k
SameRest-refl k = record {
  cores = λ j. refl;
  nextpid_same = refl;
  ticks_same = refl;
  init_same = refl;
  freelist_same = refl;
  end_same = refl;
}

pub SameRest-trans : {a b c : Kernel} → SameRest a b → SameRest b c → SameRest a c
SameRest-trans s t = record {
  cores = λ j. t.cores j ∙ s.cores j;
  nextpid_same = t.nextpid_same ∙ s.nextpid_same;
  ticks_same = t.ticks_same ∙ s.ticks_same;
  init_same = t.init_same ∙ s.init_same;
  freelist_same = t.freelist_same ∙ s.freelist_same;
  end_same = t.end_same ∙ s.end_same;
}

pub set_proc-SameRest :
    (p : ℕ) (new : Proc) (k : Kernel) → core new ≡ core (k.procs p) → SameRest k (set_proc p new k)
set_proc-SameRest p new k same = record {
  cores = λ j. elim (Bool-cases (j == p)) [
    | inl e ↦ rw e (same ∙ ap (λ (i : ℕ). core (k.procs i)) (sym (==→eq j p e)))
    | inr e ↦ rw e refl
  ];
  nextpid_same = refl;
  ticks_same = refl;
  init_same = refl;
  freelist_same = refl;
  end_same = refl;
}

push_new-SameRest : (q p : ℕ) (k : Kernel) → SameRest k (push_new q p k)
push_new-SameRest q p k = record {
  cores = λ j. elim (Bool-cases (j == p)) [ inl e ↦ ground arith | inr e ↦ ground arith ];
  nextpid_same = refl;
  ticks_same = refl;
  init_same = refl;
  freelist_same = refl;
  end_same = refl;
}

-- `pushBack` on one of the queues never panics, keeps the invariant, and changes no process but in
-- its place in the queues.
pub push_back_sound :
    (q p : ℕ) (k : Kernel)
    → IsValid k
    → q < pq_count
    → p < nproc
    → (k' : Kernel) × (push_back (pos q) p k ≡ ok k') × IsValid k' × SameRest k k'
unfolding push_back
push_back_sound q p k v hq hp = elim (Bool-cases (holds_pid k.procs (k.queues q) (k.procs p).pid)) [
  | inl old ↦ (k, ground arith, v, SameRest-refl k)
  | inr new ↦
      (push_new q p k, ground arith, push_new-IsValid q p k v hq hp new, push_new-SameRest q p k)
]
