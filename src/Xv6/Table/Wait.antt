-- ===== src/Xv6/Table/Wait.antt =====
-- `wait` and `waitx` of A5/xv6-public/proc.c, one turn of the loop.
use oscassignments.Base.{
  List, [], All, ℕ, ◌^◌, ◌<◌, ◌≡◌, ◌≢◌, refl, Bool, true, false, ◌&&◌, Option, none, some, arith,
  Bool-cases, inl, inr, ◌⊎◌, eq→==, ne→==, ◌∷◌, Found, find_first-Found, find_first,
}
use oscassignments.Xv6.Types.{Proc, ok, nproc, is_unused, is_zombie, add32, sub32}
use oscassignments.Xv6.Kalloc.{kfree, bad_page}
use oscassignments.Xv6.Kernel.{Kernel, set_proc}
use oscassignments.Xv6.Table.{
  has_parent, Waited, reaped, gives_up, sleeps, freed, waitx, PagesOf, free_each, freevm,
}

abbrev pub GoodPage : Kernel → ℕ → Type 0
GoodPage k page = bad_page k.kernel_end page ≡ false

-- The process has a stack and an address space, and `kfree` accepts all their pages.
pub record Freeable (pages : PagesOf) (k : Kernel) (p : Proc) : Type 0 where
  pub stack : ℕ
  pub pgdir : ℕ
  pub has_stack : p.kstack ≡ some stack
  pub has_pgdir : p.pgdir ≡ some pgdir
  pub good_stack : GoodPage k stack
  pub good_pgdir : GoodPage k pgdir
  pub good_pages : All (GoodPage k) (pages pgdir)

abbrev pub zombie_child : ℕ → Proc → Bool
zombie_child cur p = has_parent p cur && is_zombie p.state

-- The list with these pages put in front, one after the other.
abbrev pub push_all : List ℕ → List ℕ → List ℕ
push_all [] l = l
push_all (v ∷ vs) l = push_all vs (v ∷ l)

-- The free list has a process's stack, then the pages of its address space, then its page directory.
abbrev pub Released : PagesOf → Proc → (before after : List ℕ) → Type 0
Released pages p before after =
    (stack pgdir : ℕ) × (p.kstack ≡ some stack)
    × (p.pgdir ≡ some pgdir)
    × (after ≡ pgdir ∷ push_all (pages pgdir) (stack ∷ before))

-- Slot `i` held a zombie child; it is unused now, the pages of its stack and its address space are on
-- the free list, and its run and wait times with its creation time give the clock.
pub record Reaped (pages : PagesOf) (cur : ℕ) (k k' : Kernel) (pid wtime rtime : ℕ) (i : ℕ)
    : Type 0 where
  pub in_table : i < nproc
  pub child : has_parent (k.procs i) cur ≡ true
  pub zombie : is_zombie (k.procs i).state ≡ true
  pub own_pid : pid ≡ (k.procs i).pid
  pub own_rtime : rtime ≡ (k.procs i).rtime
  pub clock :
      (k.procs i).rtime < 2 ^ 32
      → (k.procs i).ctime < 2 ^ 32
      → k.ticks < 2 ^ 32
      → add32 (add32 (k.procs i).ctime wtime) rtime ≡ k.ticks
  pub slot_free : is_unused (k'.procs i).state ≡ true
  pub pid_gone : (k'.procs i).pid ≡ 0
  pub parent_gone : (k'.procs i).parent ≡ none
  pub released : Released pages (k.procs i) k.freelist k'.freelist
  pub others : (j : ℕ) → j ≢ i → k'.procs j ≡ k.procs j

abbrev pub Outcome : PagesOf → ℕ → Kernel → Waited → Kernel → Type 0
Outcome pages cur k (reaped pid wtime rtime) k' = (i : ℕ) × Reaped pages cur k k' pid wtime rtime i
Outcome pages cur k gives_up k' =
    (k' ≡ k)
    × ((i : ℕ) → i < nproc → zombie_child cur (k.procs i) ≡ false)
    × (((i : ℕ) → i < nproc → has_parent (k.procs i) cur ≡ false) ⊎ ((k.procs cur).killed ≡ true))
Outcome pages cur k sleeps k' =
    (k' ≡ k)
    × ((i : ℕ) → i < nproc → zombie_child cur (k.procs i) ≡ false)
    × (i : ℕ) × (i < nproc)
    × (has_parent (k.procs i) cur ≡ true)
    × ((k.procs cur).killed ≡ false)

and-true : (a b : Bool) → (a && b) ≡ true → (a ≡ true) × (b ≡ true)
and-true a b h = ground arith

times :
    (t c r : ℕ) → r < 2 ^ 32 → c < 2 ^ 32 → t < 2 ^ 32 → add32 (add32 c (sub32 (sub32 t c) r)) r ≡ t
times t c r hr hc ht = omega arith

free_each-push_all :
    (k : Kernel) (vs l : List ℕ)
    → All (GoodPage k) vs
    → free_each k.kernel_end vs l ≡ ok (push_all vs l)
unfolding free_each kfree
free_each-push_all k [] l good = refl
free_each-push_all k (v ∷ vs) l good = rw (good.0) (free_each-push_all k vs (v ∷ l) good.1)

module _ (pages : PagesOf) (cur : ℕ) (k : Kernel) where
  released : (p : Proc) → Freeable pages k p → List ℕ
  released p f = f.pgdir ∷ push_all (pages f.pgdir) (f.stack ∷ k.freelist)

  freevm-good :
      (p : Proc) (f : Freeable pages k p)
      → freevm pages k.kernel_end p.pgdir (f.stack ∷ k.freelist) ≡ ok (released p f)
  unfolding freevm kfree released
  freevm-good p f = rw (f.has_pgdir) (
      rw (free_each-push_all k (pages f.pgdir) (f.stack ∷ k.freelist) f.good_pages)
        (rw (f.good_pgdir) refl))

  kfree-good :
      (p : Proc) (f : Freeable pages k p)
      → kfree k.kernel_end f.stack k.freelist ≡ ok (f.stack ∷ k.freelist)
  unfolding kfree
  kfree-good p f = rw (f.good_stack) refl

  reaps :
      (i : ℕ) (f : Freeable pages k (k.procs i))
      → find_first (λ j. zombie_child cur (k.procs j)) nproc 0 ≡ some i
      → waitx pages cur k
        ≡ ok (
          reaped
              (k.procs i).pid
              (sub32 (sub32 k.ticks (k.procs i).ctime) (k.procs i).rtime)
              (k.procs i).rtime,
          set_proc i (freed k (k.procs i)) (record k { freelist = released (k.procs i) f }),
        )
  unfolding waitx
  reaps i f e =
      rw (e, waitx)
        (rw (f.has_stack) (rw (kfree-good (k.procs i) f) (rw (freevm-good (k.procs i) f) refl)))

  reap :
      (i : ℕ)
      → find_first (λ j. zombie_child cur (k.procs j)) nproc 0 ≡ some i
      → Found (λ j. zombie_child cur (k.procs j)) 0 nproc (some i)
      → Freeable pages k (k.procs i)
      → (w : Waited) × (k' : Kernel) × (waitx pages cur k ≡ ok (w, k')) × Outcome pages cur k w k'
  unfolding released
  reap i e f good =
      let (child, zombie) =
        and-true (has_parent (k.procs i) cur) (is_zombie (k.procs i).state) f.2 in
      (
        reaped (k.procs i).pid (sub32 (sub32 k.ticks (k.procs i).ctime) (k.procs i).rtime)
            (k.procs i).rtime,
        set_proc i (freed k (k.procs i)) (record k { freelist = released (k.procs i) good }),
        reaps i good e,
        (
          i,
          record {
            in_table = f.1;
            child = child;
            zombie = zombie;
            own_pid = refl;
            own_rtime = refl;
            clock = λ hr hc ht. times k.ticks (k.procs i).ctime (k.procs i).rtime hr hc ht;
            slot_free = rw (eq→== i i refl) refl;
            pid_gone = rw (eq→== i i refl) refl;
            parent_gone = rw (eq→== i i refl) refl;
            released = (good.stack, good.pgdir, good.has_stack, good.has_pgdir, refl);
            others = λ j h. rw (ne→== j i h) refl;
          },
        ),
      )

  no_zombie :
      (r : Option ℕ)
      → find_first (λ j. zombie_child cur (k.procs j)) nproc 0 ≡ none
      → ((i : ℕ) → i < nproc → zombie_child cur (k.procs i) ≡ false)
      → find_first (λ j. has_parent (k.procs j) cur) nproc 0 ≡ r
      → Found (λ j. has_parent (k.procs j) cur) 0 nproc r
      → (w : Waited) × (k' : Kernel) × (waitx pages cur k ≡ ok (w, k')) × Outcome pages cur k w k'
  unfolding waitx
  no_zombie none e none_z e2 f =
      (gives_up, k, rw (e, waitx) (rw e2 refl), (refl, none_z, inl (λ i hi. f i (omega arith) hi)))
  no_zombie (some i) e none_z e2 f = elim (Bool-cases (k.procs cur).killed) [
    | inl dead ↦ (gives_up, k, rw (e, waitx) (rw e2 (rw dead refl)), (refl, none_z, inr dead))
    | inr alive ↦
        (sleeps, k, rw (e, waitx) (rw e2 (rw alive refl)), (refl, none_z, i, f.1, f.2, alive))
  ]

  -- If the zombie children of the caller have stacks and address spaces whose pages may be freed, one
  -- turn of `waitx` comes to a result: it reaps a zombie child, frees its slot, puts its stack, the
  -- pages of its address space and its page directory on the free list, changes no other slot, and
  -- hands out its pid and times, where creation, wait and run time add up to the clock; or it gives
  -- up, since there is no child, or none is a zombie and the caller is killed; or it sleeps, since a
  -- child is still alive.
  pub waitx_lem :
      ((i : ℕ) → zombie_child cur (k.procs i) ≡ true → Freeable pages k (k.procs i))
      → (w : Waited) × (k' : Kernel) × (waitx pages cur k ≡ ok (w, k')) × Outcome pages cur k w k'
  waitx_lem good =
      go (find_first (λ j. zombie_child cur (k.procs j)) nproc 0) refl
        (find_first-Found (λ j. zombie_child cur (k.procs j)) nproc 0 nproc (omega arith))
    where
      go :
          (r : Option ℕ)
          → find_first (λ j. zombie_child cur (k.procs j)) nproc 0 ≡ r
          → Found (λ j. zombie_child cur (k.procs j)) 0 nproc r
          → (w : Waited) × (k' : Kernel) × (waitx pages cur k ≡ ok (w, k'))
            × Outcome pages cur k w k'
      go none e f =
          no_zombie (find_first (λ j. has_parent (k.procs j) cur) nproc 0) e
            (λ i hi. f i (omega arith) hi) refl
            (find_first-Found (λ j. has_parent (k.procs j) cur) nproc 0 nproc (omega arith))
      go (some i) e f = reap i e f (good i f.2)
