-- ===== src/Xv6/Table/Wake.antt =====
-- `wakeup1` and `kill` of A5/xv6-public/proc.c.
use oscassignments.Base.{
  ℕ, ◌+◌, ◌≤◌, ◌<◌, ◌≡◌, refl, ◌∙◌, true, false, ◌&&◌, if◌then◌else◌, arith, Bool-cases, inl, inr,
  eq→==, ne→==, ap,
}
use native.Mathlib.Decide.{ℕ_discrete}
use oscassignments.Base.Int.{pos}
use oscassignments.Xv6.Types.{Proc, Procstate, Chan, chan_eq, ok, nproc, is_sleeping}
use oscassignments.Xv6.Kernel.{Kernel, Policy}
use oscassignments.Xv6.Mlfq.{push_back}
use oscassignments.Xv6.Mlfq.Invariant.{IsValid}
use oscassignments.Xv6.Mlfq.Valid.{InRange-pos, set_proc-IsValid}
use oscassignments.Xv6.Mlfq.Frame.{Core, core, SameRest, SameRest-refl, push_back_sound}
use oscassignments.Xv6.Table.Scan.{for_procs_inv}
use oscassignments.Xv6.Table.{wake, wakeup1, set_state}

-- a process after `wakeup1 chan`
abbrev pub woken : Chan → Core → Core
woken chan (st, pid, parent, ch, killed, stack) = (
  if is_sleeping st && chan_eq ch chan then Procstate.runnable else st,
  pid,
  parent,
  ch,
  killed,
  stack,
)

-- The slots below `i` have been woken, the others are as they were.
pub record WokenTo (chan : Chan) (k0 : Kernel) (i : ℕ) (k : Kernel) : Type 0 where
  pub valid : IsValid k
  pub done : (j : ℕ) → j < i → core (k.procs j) ≡ woken chan (core (k0.procs j))
  pub ahead : (j : ℕ) → i ≤ j → core (k.procs j) ≡ core (k0.procs j)
  pub nextpid_same : k.nextpid ≡ k0.nextpid
  pub ticks_same : k.ticks ≡ k0.ticks
  pub init_same : k.initproc ≡ k0.initproc
  pub freelist_same : k.freelist ≡ k0.freelist
  pub end_same : k.kernel_end ≡ k0.kernel_end

woken-core :
    (chan : Chan) (p1 p p0 : Proc)
    → core p1 ≡ core p
    → core p ≡ core p0
    → (is_sleeping p.state && chan_eq p.chan chan) ≡ true
    → core (record p1 { state = Procstate.runnable }) ≡ woken chan (core p0)
woken-core chan p1 p p0 e1 e0 t =
    ap
      (λ (c : Core).
        let (st, pid, parent, ch, killed, stack) = c in
        (Procstate.runnable, pid, parent, ch, killed, stack))
      e1
    ∙ marked
    ∙ ap (woken chan) e0
  where
    marked :
        ◌≡◌ {A = Core}
          (Procstate.runnable, p.pid, p.parent, p.chan, p.killed, p.kstack)
          (woken chan (core p))
    marked = rw t refl

untouched_core :
    (chan : Chan) (p p0 : Proc)
    → core p ≡ core p0
    → (is_sleeping p.state && chan_eq p.chan chan) ≡ false
    → core p ≡ woken chan (core p0)
untouched_core chan p p0 e0 t = unmarked ∙ ap (woken chan) e0
  where
    unmarked : core p ≡ woken chan (core p)
    unmarked = rw t refl

-- The state in which slot `i` is marked runnable, after any change to the queues.
wake_step :
    (chan : Chan) (k0 k k1 : Kernel) (i : ℕ)
    → WokenTo chan k0 i k
    → IsValid k1
    → SameRest k k1
    → (is_sleeping (k.procs i).state && chan_eq (k.procs i).chan chan) ≡ true
    → WokenTo chan k0 (i + 1) (set_state i Procstate.runnable k1)
wake_step chan k0 k k1 i w v1 s e = record {
  valid = set_proc-IsValid i _ k1 refl v1;
  done = λ j hj. elim (ℕ_discrete j i) [
    | yes same ↦
        rw (same, eq→== i i refl)
          (woken-core chan (k1.procs i) (k.procs i) (k0.procs i) (s.cores i)
            (w.ahead i (omega arith)) e)
    | no other ↦ rw (ne→== j i other) (s.cores j ∙ w.done j (omega arith))
  ];
  ahead = λ j hj. rw (ne→== j i (omega arith)) (s.cores j ∙ w.ahead j (omega arith));
  nextpid_same = s.nextpid_same ∙ w.nextpid_same;
  ticks_same = s.ticks_same ∙ w.ticks_same;
  init_same = s.init_same ∙ w.init_same;
  freelist_same = s.freelist_same ∙ w.freelist_same;
  end_same = s.end_same ∙ w.end_same;
}

not_woken :
    (chan : Chan) (k0 k : Kernel) (i : ℕ)
    → WokenTo chan k0 i k
    → (is_sleeping (k.procs i).state && chan_eq (k.procs i).chan chan) ≡ false
    → WokenTo chan k0 (i + 1) k
not_woken chan k0 k i w e = record {
  valid = w.valid;
  done = λ j hj. elim (ℕ_discrete j i) [
    | yes same ↦ rw same (untouched_core chan (k.procs i) (k0.procs i) (w.ahead i (omega arith)) e)
    | no other ↦ w.done j (omega arith)
  ];
  ahead = λ j hj. w.ahead j (omega arith);
  nextpid_same = w.nextpid_same;
  ticks_same = w.ticks_same;
  init_same = w.init_same;
  freelist_same = w.freelist_same;
  end_same = w.end_same;
}

wake-WokenTo :
    (policy : Policy) (chan : Chan) (k0 : Kernel) (i : ℕ) (k : Kernel)
    → i < nproc
    → WokenTo chan k0 i k
    → (k' : Kernel) × (wake policy chan i k ≡ ok k') × WokenTo chan k0 (i + 1) k'
unfolding wake
wake-WokenTo policy chan k0 i k hi w =
    elim (Bool-cases (is_sleeping (k.procs i).state && chan_eq (k.procs i).chan chan)) [
      | inr no_wake ↦ (k, rw no_wake, not_woken chan k0 k i w no_wake)
      | inl up ↦
          let (q, e, hq) = InRange-pos ((k.procs i).alloted_q) (w.valid.alloted i) in
          let (k1, e1, v1, s) = push_back_sound q i k w.valid hq hi in
          on_policy policy q k1 up e e1 v1 s
    ]
  where
    on_policy :
        (policy : Policy) (q : ℕ) (k1 : Kernel)
        → (is_sleeping (k.procs i).state && chan_eq (k.procs i).chan chan) ≡ true
        → (k.procs i).alloted_q ≡ pos q
        → push_back (pos q) i k ≡ ok k1
        → IsValid k1
        → SameRest k k1
        → (k' : Kernel) × (wake policy chan i k ≡ ok k') × WokenTo chan k0 (i + 1) k'
    on_policy Policy.mlfq q k1 up e e1 v1 s =
        (set_state i Procstate.runnable k1, rw (up, e, e1), wake_step chan k0 k k1 i w v1 s up)
    on_policy _ q k1 up e e1 v1 s = (
      set_state i Procstate.runnable k,
      rw up,
      wake_step chan k0 k k i w w.valid (SameRest-refl k) up,
    )

-- `wakeup1` never panics and keeps the queues valid. Exactly the processes that slept on the channel
-- become runnable; no process changes in any other part of its core, and no other part of the state.
pub wakeup1_lem :
    (policy : Policy) (chan : Chan) (k : Kernel)
    → IsValid k
    → (k' : Kernel) × (wakeup1 policy chan k ≡ ok k') × WokenTo chan k nproc k'
unfolding wakeup1
wakeup1_lem policy chan k v =
    for_procs_inv (WokenTo chan k) (wake policy chan) nproc (wake-WokenTo policy chan k) nproc 0 k
      (omega arith)
      (record {
        valid = v;
        done = λ j hj. absurd (omega arith);
        ahead = λ j hj. refl;
        nextpid_same = refl;
        ticks_same = refl;
        init_same = refl;
        freelist_same = refl;
        end_same = refl;
      })
