-- ===== src/Xv6/Table/Fork.antt =====
-- `fork` of A5/xv6-public/proc.c.
use oscassignments.Base.{
  ℕ, ◌<◌, ◌≡◌, ◌≢◌, refl, ap, true, false, Option, none, some, arith, inl, inr, ◌⊎◌, eq→==, ne→==,
  List, [], ◌∷◌,
}
use oscassignments.Base.Int.{ℤ, pos}
use oscassignments.Xv6.Types.{
  Panic, Result, panic, Proc, Procstate, ok, nproc, is_unused, is_runnable,
}
use mathlib.Core.Path.{subst}
use oscassignments.Xv6.Kalloc.{kfree, bad_page}
use oscassignments.Xv6.Kernel.{Kernel, set_proc, Policy}
use oscassignments.Xv6.Mlfq.Invariant.{IsValid}
use oscassignments.Xv6.Mlfq.Valid.{set_proc-IsValid}
use oscassignments.Xv6.Mlfq.Frame.{Core, core}
use oscassignments.Xv6.Table.Alloc.{PidsOk, PidsOk-same, Allocated, allocproc_lem}
use oscassignments.Xv6.Table.{minus_one, allocproc, fork, child_of, Copyuvm, Result}

-- The page that `kalloc` would hand out next may be given back.
abbrev pub GoodFree : Kernel → List ℕ → Type 0
GoodFree k [] = Unit
GoodFree k (page ∷ rest) = bad_page k.kernel_end page ≡ false

-- Slot `np` was unused, and is a runnable child of `cur` with a pid that no process has had and the
-- address space that was copied.
pub record Child (cur : ℕ) (k k' : Kernel) (np pgdir : ℕ) : Type 0 where
  pub in_table : np < nproc
  pub was_unused : is_unused (k.procs np).state ≡ true
  pub pid_fresh : (k'.procs np).pid ≡ k.nextpid
  pub parent : (k'.procs np).parent ≡ some cur
  pub runnable : is_runnable (k'.procs np).state ≡ true
  pub memory : (k'.procs np).pgdir ≡ some pgdir
  pub others : (j : ℕ) → j ≢ np → core (k'.procs j) ≡ core (k.procs j)

abbrev NoRoom : Kernel → Type 0
NoRoom k = ((i : ℕ) → i < nproc → is_unused (k.procs i).state ≡ false) ⊎ (k.freelist ≡ [])

-- The three ways of `fork` to return: no slot or no page for the stack; no memory for the address
-- space, where the stack goes back on the list that `copyuvm` has left; and a child.
abbrev pub Returned : ℕ → Copyuvm → Kernel → ℤ → Kernel → Type 0
Returned cur copyuvm k r k' =
    ((r ≡ minus_one) × (k'.freelist ≡ k.freelist) × NoRoom k)
    ⊎ ((stack : ℕ) × (rest left : List ℕ) × (k.freelist ≡ stack ∷ rest)
        × (((copyuvm rest ≡ ok (none, left)) × (r ≡ minus_one) × (k'.freelist ≡ stack ∷ left))
            ⊎ ((pgdir : ℕ) × (copyuvm rest ≡ ok (some pgdir, left))
                × (r ≡ pos k.nextpid)
                × (k'.freelist ≡ left)
                × (np : ℕ) × Child cur k k' np pgdir)))

abbrev pub Forked : ℕ → Copyuvm → Kernel → Result (ℤ × Kernel) → Type 0
Forked cur copyuvm k (ok q) = IsValid q.1 × PidsOk q.1 × Returned cur copyuvm k q.0 q.1
Forked cur copyuvm k (panic e) =
    (stack : ℕ) × (rest : List ℕ) × (k.freelist ≡ stack ∷ rest) × (copyuvm rest ≡ panic e)

pid-set :
    (np : ℕ) (new : Proc) (k1 : Kernel)
    → new.pid ≡ (k1.procs np).pid
    → (j : ℕ) → ((set_proc np new k1).procs j).pid ≡ (k1.procs j).pid
pid-set np new k1 e j = ground arith

module _ (policy : Policy) (cur : ℕ) (copyuvm : Copyuvm) (k : Kernel) where
  got_none :
      (k1 : Kernel)
      → allocproc policy k ≡ ok (none, k1)
      → fork policy cur copyuvm k ≡ ok (minus_one, k1)
  unfolding fork
  got_none k1 e = rw e refl

  -- a slot and a stack are there
  module _ (k1 : Kernel) (np : ℕ) (e : allocproc policy k ≡ ok (some np, k1)) (v1 : IsValid k1)
      (p1 : PidsOk k1) (a : Allocated k (some np) k1) (good : GoodFree k k.freelist) where
    with_list : List ℕ → Kernel
    with_list l = record k1 { freelist = l }

    with_list-IsValid : (l : List ℕ) → IsValid (with_list l)
    unfolding with_list
    with_list-IsValid l = record { queue_ok = v1.queue_ok; alloted = v1.alloted }

    got_child :
        (pgdir : ℕ) (left : List ℕ)
        → copyuvm k1.freelist ≡ ok (some pgdir, left)
        → fork policy cur copyuvm k
          ≡ ok (
            pos (k1.procs np).pid,
            set_proc np (child_of policy cur np pgdir (with_list left)) (with_list left),
          )
    unfolding fork with_list
    got_child pgdir left c = rw e (rw c refl)

    -- no memory for the address space
    given_back :
        (page : ℕ) (left : List ℕ)
        → (k1.procs np).kstack ≡ some page
        → bad_page k1.kernel_end page ≡ false
        → copyuvm k1.freelist ≡ ok (none, left)
        → fork policy cur copyuvm k
          ≡ ok (
            minus_one,
            set_proc np
                (record (k1.procs np) { pgdir = none; kstack = none; state = Procstate.unused })
                (with_list (page ∷ left)),
          )
    unfolding fork kfree with_list
    given_back page left es ok_page c = rw e (rw c (rw es (rw ok_page refl)))

    copy_panics : (x : Panic) → copyuvm k1.freelist ≡ panic x → fork policy cur copyuvm k ≡ panic x
    unfolding fork
    copy_panics x c = rw e (rw c refl)

    forked :
        (c : Result (Option ℕ × List ℕ))
        → copyuvm k1.freelist ≡ c
        → Forked cur copyuvm k (fork policy cur copyuvm k)
    unfolding with_list
    forked (panic x) c =
        let (hp, unused, n_same, end_same, page, fl, own, others) = a in
        rw (copy_panics x c) (page, k1.freelist, fl, c)
    forked (ok (some pgdir, left)) c =
        let (hp, unused, n_same, end_same, page, fl, own, others) = a in
        rw (got_child pgdir left c) (
          set_proc-IsValid np (child_of policy cur np pgdir (with_list left)) (with_list left) refl
              (with_list-IsValid left),
          PidsOk-same k1
              (set_proc np (child_of policy cur np pgdir (with_list left)) (with_list left))
              (pid-set np (child_of policy cur np pgdir (with_list left)) (with_list left) refl)
              refl p1,
          inr (
            page,
            k1.freelist,
            left,
            fl,
            inr (
              pgdir,
              c,
              ap (λ (c : Core). pos c.1) own,
              refl,
              np,
              record {
                in_table = hp;
                was_unused = unused;
                pid_fresh = rw (eq→== np np refl) (ap (λ (c : Core). c.1) own);
                parent = rw (eq→== np np refl) refl;
                runnable = rw (eq→== np np refl) refl;
                memory = rw (eq→== np np refl) refl;
                others = λ j h. rw (ne→== j np h) (others j h);
              },
            ),
          ),
        )
    forked (ok (none, left)) c =
        let (hp, unused, n_same, end_same, page, fl, own, others) = a in
        let free : bad_page k1.kernel_end page ≡ false =
          rw end_same (let g : GoodFree k (page ∷ k1.freelist) = subst (GoodFree k) fl good in g) in
        let back : Proc = record (k1.procs np) {
          pgdir = none;
          kstack = none;
          state = Procstate.unused;
        } in
        rw (given_back page left (ap (λ (c : Core). c.5) own) free c) (
          set_proc-IsValid np back (with_list (page ∷ left)) refl (with_list-IsValid (page ∷ left)),
          PidsOk-same k1 (set_proc np back (with_list (page ∷ left)))
              (pid-set np back (with_list (page ∷ left)) refl) refl p1,
          inr (page, k1.freelist, left, fl, inl (c, refl, refl)),
        )

  -- With valid queues, unique pids and a free list whose first page may be freed, `fork` panics only
  -- where `copyuvm` does, and otherwise keeps the queues valid and the pids unique. It returns -1 and
  -- leaves the free list as it was where there is no unused slot or no page for a stack. Otherwise
  -- `copyuvm` runs on the rest of the list: where it fails, `fork` returns -1, with the stack put back
  -- on what `copyuvm` left of the list; where it copies the address space, `fork` returns the pid of a
  -- runnable child of the caller with that address space, in a slot that was unused, with a pid that
  -- no process has had, the list is what `copyuvm` left of it, and no other process changes in its
  -- core.
  pub fork_lem :
      IsValid k
      → PidsOk k
      → GoodFree k k.freelist
      → Forked cur copyuvm k (fork policy cur copyuvm k)
  fork_lem v pids good =
      let (got, k1, e, v1, p1, a) = allocproc_lem policy k v pids in go got k1 e v1 p1 a
    where
      go :
          (got : Option ℕ) (k1 : Kernel)
          → allocproc policy k ≡ ok (got, k1)
          → IsValid k1
          → PidsOk k1
          → Allocated k got k1
          → Forked cur copyuvm k (fork policy cur copyuvm k)
      go none k1 e v1 p1 a = rw (got_none k1 e) (v1, p1, inl (refl, a.1, a.0))
      go (some np) k1 e v1 p1 a = forked k1 np e v1 p1 a good (copyuvm k1.freelist) refl
