-- ===== src/Xv6/Table/Reparent.antt =====
-- The loop of `exit` in A5/xv6-public/proc.c that hands children to `init`.
use oscassignments.Base.{
  ℕ, ◌+◌, ◌≤◌, ◌<◌, ◌≡◌, refl, ap, sym, ◌∙◌, true, false, Option, ◌==◌, if◌then◌else◌, arith,
  Bool-cases, inl, inr, eq→==, ne→==, ==→eq,
}
use native.Mathlib.Decide.{ℕ_discrete, dec_lt}
use oscassignments.Xv6.Types.{Proc, Chan, ok, nproc, is_sleeping, is_zombie}
use oscassignments.Xv6.Kernel.{Kernel, set_proc, Policy}
use oscassignments.Xv6.Mlfq.Invariant.{IsValid}
use oscassignments.Xv6.Mlfq.Valid.{set_proc-IsValid}
use oscassignments.Xv6.Mlfq.Frame.{Core, core}
use oscassignments.Xv6.Table.Wake.{woken, WokenTo, wakeup1_lem}
use oscassignments.Xv6.Table.{has_parent, chan_of, reparent, parent_is}

-- the parent of `p` once the children of `cur` belong to `init`
abbrev pub new_parent : Kernel → ℕ → Proc → Option ℕ
new_parent k cur p = if has_parent p cur then k.initproc else p.parent

-- No process falls asleep, and none changes its pid.
pub record Quieter (k0 k : Kernel) : Type 0 where
  pub pid_same : (j : ℕ) → (k.procs j).pid ≡ (k0.procs j).pid
  pub awake :
      (j : ℕ) → is_sleeping (k0.procs j).state ≡ false → is_sleeping (k.procs j).state ≡ false
  pub init_same : k.initproc ≡ k0.initproc

-- The slots below `i` have been looked at.
pub record ReparentedTo (cur : ℕ) (k0 : Kernel) (i : ℕ) (k : Kernel) : Type 0 where
  pub valid : IsValid k
  pub quiet : Quieter k0 k
  pub done : (j : ℕ) → j < i → (k.procs j).parent ≡ new_parent k0 cur (k0.procs j)
  pub ahead : (j : ℕ) → i ≤ j → (k.procs j).parent ≡ (k0.procs j).parent

pub not_sleeping_woken :
    (chan : Chan) (c : Core) → is_sleeping c.0 ≡ false → is_sleeping (woken chan c).0 ≡ false
not_sleeping_woken chan c h = ground arith

-- `wakeup1` keeps parents, and makes nobody sleep.
pub woken-core :
    (chan : Chan) (k k' : Kernel)
    → WokenTo chan k nproc k'
    → (j : ℕ)
    → ((k'.procs j).parent ≡ (k.procs j).parent)
      × ((k'.procs j).pid ≡ (k.procs j).pid)
      × (is_sleeping (k.procs j).state ≡ false → is_sleeping (k'.procs j).state ≡ false)
woken-core chan k k' w j = elim (dec_lt j nproc) [
  | yes h ↦ of_eq (w.done j h)
  | no h ↦
      let e : core (k'.procs j) ≡ core (k.procs j) = w.ahead j (omega arith) in
      (
        ap (λ (c : Core). c.2) e,
        ap (λ (c : Core). c.1) e,
        λ q. rw (ap (λ (c : Core). is_sleeping c.0) e) q,
      )
]
  where
    of_eq :
        core (k'.procs j) ≡ woken chan (core (k.procs j))
        → ((k'.procs j).parent ≡ (k.procs j).parent)
          × ((k'.procs j).pid ≡ (k.procs j).pid)
          × (is_sleeping (k.procs j).state ≡ false → is_sleeping (k'.procs j).state ≡ false)
    of_eq e = (
      ap (λ (c : Core). c.2) e,
      ap (λ (c : Core). c.1) e,
      λ q. ap (λ (c : Core). is_sleeping c.0) e ∙ not_sleeping_woken chan (core (k.procs j)) q,
    )

pub handed_over : ℕ → Kernel → Kernel
handed_over i k = set_proc i (record (k.procs i) { parent = k.initproc }) k

pub child_done :
    (cur : ℕ) (k0 k : Kernel) (i : ℕ)
    → ReparentedTo cur k0 i k
    → has_parent (k.procs i) cur ≡ true
    → ReparentedTo cur k0 (i + 1) (handed_over i k)
unfolding handed_over
child_done cur k0 k i r child = record {
  valid = set_proc-IsValid i _ k refl r.valid;
  quiet = record {
    pid_same = λ j. elim (Bool-cases (j == i)) [
      | inl e ↦ rw e (r.quiet.pid_same i ∙ ap (λ (m : ℕ). (k0.procs m).pid) (sym (==→eq j i e)))
      | inr e ↦ rw e (r.quiet.pid_same j)
    ];
    awake = λ j h. elim (Bool-cases (j == i)) [
      | inl e ↦
          rw e (
            r.quiet.awake i
              (ap (λ (m : ℕ). is_sleeping (k0.procs m).state) (sym (==→eq j i e)) ∙ h))
      | inr e ↦ rw e (r.quiet.awake j h)
    ];
    init_same = r.quiet.init_same;
  };
  done = λ j hj. elim (ℕ_discrete j i) [
    | yes same ↦
        rw (same, eq→== i i refl)
          (r.quiet.init_same
            ∙ sym (adopted (ap (λ q. parent_is q cur) (sym (r.ahead i (omega arith))) ∙ child)))
    | no other ↦ rw (ne→== j i other) (r.done j (omega arith))
  ];
  ahead = λ j hj. rw (ne→== j i (omega arith)) (r.ahead j (omega arith));
}
  where
    adopted : has_parent (k0.procs i) cur ≡ true → new_parent k0 cur (k0.procs i) ≡ k0.initproc
    adopted e = rw e refl

pub other_done :
    (cur : ℕ) (k0 k : Kernel) (i : ℕ)
    → ReparentedTo cur k0 i k
    → has_parent (k.procs i) cur ≡ false
    → ReparentedTo cur k0 (i + 1) k
other_done cur k0 k i r other = record {
  valid = r.valid;
  quiet = r.quiet;
  done = λ j hj. elim (ℕ_discrete j i) [
    | yes same ↦ rw same (
        r.ahead i (omega arith)
        ∙ sym (left (ap (λ q. parent_is q cur) (sym (r.ahead i (omega arith))) ∙ other)))
    | no ne ↦ r.done j (omega arith)
  ];
  ahead = λ j hj. r.ahead j (omega arith);
}
  where
    left :
        has_parent (k0.procs i) cur ≡ false → new_parent k0 cur (k0.procs i) ≡ (k0.procs i).parent
    left e = rw e refl

pub woken_done :
    (cur : ℕ) (chan : Chan) (k0 k k' : Kernel) (i : ℕ)
    → ReparentedTo cur k0 i k
    → WokenTo chan k nproc k'
    → ReparentedTo cur k0 i k'
woken_done cur chan k0 k k' i r w = record {
  valid = w.valid;
  quiet = record {
    pid_same = λ j. (woken-core chan k k' w j).1 ∙ r.quiet.pid_same j;
    awake = λ j h. (woken-core chan k k' w j).2 (r.quiet.awake j h);
    init_same = w.init_same ∙ r.quiet.init_same;
  };
  done = λ j hj. (woken-core chan k k' w j).0 ∙ r.done j hj;
  ahead = λ j hj. (woken-core chan k k' w j).0 ∙ r.ahead j hj;
}

pub reparent-ReparentedTo :
    (policy : Policy) (cur : ℕ) (k0 : Kernel) (i : ℕ) (k : Kernel)
    → i < nproc
    → ReparentedTo cur k0 i k
    → (k' : Kernel) × (reparent policy cur i k ≡ ok k') × ReparentedTo cur k0 (i + 1) k'
unfolding reparent handed_over
reparent-ReparentedTo policy cur k0 i k hi r = elim (Bool-cases (has_parent (k.procs i) cur)) [
  | inr other ↦ (k, rw other, other_done cur k0 k i r other)
  | inl child ↦ elim (Bool-cases (is_zombie (k.procs i).state)) [
    | inr alive ↦ (handed_over i k, rw (child, alive), child_done cur k0 k i r child)
    | inl dead ↦
        let (k', e, w) =
          wakeup1_lem policy (chan_of k.initproc) (handed_over i k)
            (child_done cur k0 k i r child).valid in
        (
          k',
          rw (child, dead) e,
          woken_done cur (chan_of k.initproc) k0 (handed_over i k) k' (i + 1)
              (child_done cur k0 k i r child) w,
        )
  ]
]
