-- ===== src/Xv6/Table/Exit.antt =====
-- `exit` of A5/xv6-public/proc.c: the parent is woken, and the children go to `init`.
use oscassignments.Base.{
  ℕ, ◌<◌, ◌≡◌, ◌≢◌, refl, ap, sym, ◌∙◌, true, false, Option, some, if◌then◌else◌, arith, Bool-cases,
  inl, inr, eq→==, ne→==, ap₂,
}
use oscassignments.Xv6.Types.{Proc, Chan, ok, nproc, is_sleeping, is_zombie}
use oscassignments.Xv6.Kernel.{Kernel, set_proc, Policy}
use oscassignments.Xv6.Mlfq.Invariant.{IsValid}
use oscassignments.Xv6.Mlfq.Valid.{set_proc-IsValid}
use oscassignments.Xv6.Mlfq.Frame.{Core, core, set_proc-SameRest}
use oscassignments.Xv6.Table.Scan.{for_procs_inv}
use mathlib.Core.Path.{subst}
use oscassignments.Xv6.Table.Wake.{woken, WokenTo, wakeup1_lem}
use oscassignments.Xv6.Table.{
  has_parent, chan_of, reparent, parent_is, is_init, set_state, exit, Procstate, signed32,
}
use oscassignments.Xv6.Table.Reparent.{new_parent, ReparentedTo, woken-core, reparent-ReparentedTo}

-- What `exit` leaves behind when `cur` is not `init`: `cur` is a zombie, its children are those of
-- `init`, all other parents are as before, no pid has changed, and who was awake but `cur` still is.
pub record Exited (cur : ℕ) (k k' : Kernel) : Type 0 where
  pub valid : IsValid k'
  pub zombie : is_zombie (k'.procs cur).state ≡ true
  pub parents : (j : ℕ) → j < nproc → (k'.procs j).parent ≡ new_parent k cur (k.procs j)
  pub orphans : (j : ℕ) → j < nproc → has_parent (k'.procs j) cur ≡ false
  pub pids : (j : ℕ) → (k'.procs j).pid ≡ (k.procs j).pid
  pub parent_awake :
      (j : ℕ)
      → j < nproc
      → j ≢ cur
      → (k.procs cur).parent ≡ some j
      → (k.procs j).chan ≡ Chan.on_proc j
      → is_sleeping (k'.procs j).state ≡ false

reparent_start : (cur : ℕ) (k : Kernel) → IsValid k → ReparentedTo cur k 0 k
reparent_start cur k v = record {
  valid = v;
  quiet = record { pid_same = λ j. refl; awake = λ j h. h; init_same = refl };
  done = λ j hj. absurd (omega arith);
  ahead = λ j hj. refl;
}

new_parent-same :
    (cur : ℕ) (k k' : Kernel) (p p' : Proc)
    → k'.initproc ≡ k.initproc
    → p'.parent ≡ p.parent
    → new_parent k' cur p' ≡ new_parent k cur p
new_parent-same cur k k' p p' e1 e2 =
    ap₂ (λ (init par : Option ℕ). if parent_is par cur then init else par) e1 e2

new_parent-ne :
    (cur : ℕ) (k : Kernel) (p : Proc)
    → is_init k cur ≡ false
    → parent_is (new_parent k cur p) cur ≡ false
new_parent-ne cur k p h = elim (Bool-cases (has_parent p cur)) [ inl e ↦ rw e h | inr e ↦ rw e e ]

on_own_chan :
    (j : ℕ) (c : Core) → c.3 ≡ Chan.on_proc j → is_sleeping (woken (Chan.on_proc j) c).0 ≡ false
on_own_chan j c e = ground arith

after_zombie :
    (cur : ℕ) (k : Kernel) (j : ℕ)
    → (((set_state cur Procstate.zombie k).procs j).parent ≡ (k.procs j).parent)
      × (((set_state cur Procstate.zombie k).procs j).pid ≡ (k.procs j).pid)
after_zombie cur k j = (ground arith, ground arith)

module _ (policy : Policy) (cur : ℕ) (k : Kernel) (v : IsValid k)
    (not_init : is_init k cur ≡ false) where
  -- with `etime` set
  abbrev ended : Kernel
  ended = set_proc cur (record (k.procs cur) { etime = signed32 k.ticks }) k

  ended_core : (j : ℕ) → core (ended.procs j) ≡ core (k.procs j)
  ended_core = (set_proc-SameRest cur _ k refl).cores

  exited :
      (chan : Chan) (k2 k3 : Kernel)
      → chan_of (ended.procs cur).parent ≡ chan
      → WokenTo chan ended nproc k2
      → ReparentedTo cur k2 nproc k3
      → Exited cur k (set_state cur Procstate.zombie k3)
  exited chan k2 k3 e_chan w r = record {
    valid = set_proc-IsValid cur _ k3 refl r.valid;
    zombie = rw (eq→== cur cur refl) refl;
    parents = parents_done;
    orphans = λ j hj.
        ap (λ q. parent_is q cur) (parents_done j hj) ∙ new_parent-ne cur k (k.procs j) not_init;
    pids = λ j.
        (after_zombie cur k3 j).1
        ∙ r.quiet.pid_same j
        ∙ (woken-core chan ended k2 w j).1
        ∙ ap (λ (c : Core). c.1) (ended_core j);
    parent_awake =
        λ j hj ne par own. rw (ne→== j cur ne) (r.quiet.awake j (parent_up j hj par own));
  }
    where
      parent_up :
          (j : ℕ)
          → j < nproc
          → (k.procs cur).parent ≡ some j
          → (k.procs j).chan ≡ Chan.on_proc j
          → is_sleeping (k2.procs j).state ≡ false
      parent_up j hj par own =
          ap (λ (c : Core). is_sleeping c.0) (w.done j hj)
          ∙ subst (λ ch. is_sleeping (woken ch (core (ended.procs j))).0 ≡ false)
              (sym (ap chan_of (ap (λ (c : Core). c.2) (ended_core cur) ∙ par)) ∙ e_chan)
              (on_own_chan j (core (ended.procs j)) (ap (λ (c : Core). c.3) (ended_core j) ∙ own))

      parents_done :
          (j : ℕ)
          → j < nproc
          → ((set_state cur Procstate.zombie k3).procs j).parent ≡ new_parent k cur (k.procs j)
      parents_done j hj =
          (after_zombie cur k3 j).0
          ∙ r.done j hj
          ∙ new_parent-same cur k k2 (k.procs j) (k2.procs j) w.init_same
              ((woken-core chan ended k2 w j).0 ∙ ap (λ (c : Core). c.2) (ended_core j))

  -- `exit` of a process other than `init` does not panic and keeps the queues valid; the process is a
  -- zombie then, its children are those of `init`, a parent asleep on its own address is woken, and no
  -- pid and no other parent has changed.
  pub exit_lem : (k' : Kernel) × (exit policy cur k ≡ ok k') × Exited cur k k'
  unfolding exit
  exit_lem =
      let (k2, e2, w) =
        wakeup1_lem policy (chan_of (ended.procs cur).parent) ended
          (set_proc-IsValid cur _ k refl v) in
      let (k3, e3, r) =
        for_procs_inv (ReparentedTo cur k2) (reparent policy cur) nproc
          (reparent-ReparentedTo policy cur k2) nproc 0 k2 (omega arith)
          (reparent_start cur k2 w.valid) in
      (
        set_state cur Procstate.zombie k3,
        rw (not_init, e2) (rw e3 refl),
        exited (chan_of (ended.procs cur).parent) k2 k3 refl w r,
      )
