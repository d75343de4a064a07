-- ===== src/Xv6/Table/Alloc.antt =====
-- `allocproc` of A5/xv6-public/proc.c: fresh pids, and what is taken.
use oscassignments.Base.{
  ℕ, ◌+◌, ◌<◌, ◌≡◌, ◌≢◌, refl, ap, sym, ◌∙◌, true, false, Option, none, some, ◌==◌, arith,
  Bool-cases, inl, inr, ◌⊎◌, List, [], ◌∷◌, eq→==, ne→==, Found, find_first-Found, find_first,
}
use oscassignments.Base.Int.{pos}
use oscassignments.Xv6.Types.{Procstate, ok, nproc, is_unused}
use oscassignments.Xv6.Kalloc.{kalloc}
use oscassignments.Xv6.Kernel.{Kernel, set_proc, Policy}
use oscassignments.Xv6.Mlfq.Invariant.{IsValid}
use oscassignments.Xv6.Mlfq.Valid.{set_proc-IsValid}
use oscassignments.Xv6.Mlfq.Frame.{
  Core, core, SameRest, SameRest-refl, SameRest-trans, set_proc-SameRest, push_back_sound,
}
use oscassignments.Xv6.Table.{
  init_proc_my_style, allocproc, claimed, with_stack, restamped, stamped, set_state,
}
use oscassignments.Xv6.Mlfq.{push_back}

-- No pid is given twice, and `nextpid` is above all of them.
pub record PidsOk (k : Kernel) : Type 0 where
  pub fresh : (i : ℕ) → (k.procs i).pid < k.nextpid
  pub unique : (i j : ℕ) → (k.procs i).pid ≢ 0 → (k.procs i).pid ≡ (k.procs j).pid → i ≡ j

pub init_proc_my_style_lem :
    (policy : Policy) (p : ℕ) (k : Kernel)
    → IsValid k
    → p < nproc
    → (k' : Kernel) × (init_proc_my_style policy p k ≡ ok k') × IsValid k' × SameRest k k'
unfolding init_proc_my_style
init_proc_my_style_lem policy p k v hp = elim (Bool-cases ((k.procs p).pid == 0)) [
  | inl no_pid ↦ (k, rw no_pid, v, SameRest-refl k)
  | inr has_pid ↦ on_policy policy has_pid (push_back_sound 0 p k v (omega arith) hp)
]
  where
    stamp :
        (k1 : Kernel)
        → IsValid k1
        → SameRest k k1
        → IsValid (stamped p k1) × SameRest k (stamped p k1)
    stamp k1 v1 s =
        (set_proc-IsValid p _ k1 refl v1, SameRest-trans s (set_proc-SameRest p _ k1 refl))

    on_policy :
        (policy : Policy)
        → ((k.procs p).pid == 0) ≡ false
        → (k1 : Kernel) × (push_back (pos 0) p k ≡ ok k1) × IsValid k1 × SameRest k k1
        → (k' : Kernel) × (init_proc_my_style policy p k ≡ ok k') × IsValid k' × SameRest k k'
    on_policy Policy.mlfq e (k1, e1, v1, s) =
        let k2 : Kernel = restamped p k1 in
        let (v3, s3) =
          stamp k2 (set_proc-IsValid p _ k1 refl v1)
            (SameRest-trans s (set_proc-SameRest p _ k1 refl)) in
        (stamped p k2, rw (e, e1), v3, s3)
    on_policy _ e found = let (v', s') = stamp k v (SameRest-refl k) in (stamped p k, rw e, v', s')

-- What `allocproc` did: there was no slot or no page to be had, or slot `p` was unused and is an
-- embryo with the next pid and the first free page for its stack, and no other process has changed in
-- its core.
abbrev pub Allocated : Kernel → Option ℕ → Kernel → Type 0
Allocated k none k' =
    (((i : ℕ) → i < nproc → is_unused (k.procs i).state ≡ false) ⊎ (k.freelist ≡ []))
    × (k'.freelist ≡ k.freelist)
Allocated k (some p) k' =
    (p < nproc)
    × (is_unused (k.procs p).state ≡ true)
    × (k'.nextpid ≡ k.nextpid + 1)
    × (k'.kernel_end ≡ k.kernel_end)
    × (page : ℕ) × (k.freelist ≡ page ∷ k'.freelist)
    × (core (k'.procs p) ≡ (
      Procstate.embryo,
      k.nextpid,
      (k.procs p).parent,
      (k.procs p).chan,
      (k.procs p).killed,
      some page,
    ))
    × ((j : ℕ) → j ≢ p → core (k'.procs j) ≡ core (k.procs j))

claim-PidsOk : (p : ℕ) (k : Kernel) → PidsOk k → PidsOk (claimed p k)
claim-PidsOk p k v = record {
  fresh = λ i. elim (Bool-cases (i == p)) [
    | inl e ↦ rw e (omega arith)
    | inr e ↦ rw e (omega (arith, v.fresh i))
  ];
  unique = λ i j h e. ground (arith, v.unique i j, v.fresh i, v.fresh j);
}

-- Unique pids are a matter of the cores and `nextpid`.
pub PidsOk-same :
    (k k' : Kernel)
    → ((j : ℕ) → (k'.procs j).pid ≡ (k.procs j).pid)
    → k'.nextpid ≡ k.nextpid
    → PidsOk k
    → PidsOk k'
PidsOk-same k k' s n v = record {
  fresh = λ i. omega (arith, s i, n, v.fresh i);
  unique = λ i j h e. v.unique i j (λ z. h (s i ∙ z)) (sym (s i) ∙ e ∙ s j);
}

claimed-IsValid : (p : ℕ) (k : Kernel) → IsValid k → IsValid (claimed p k)
claimed-IsValid p k v =
    let v' : IsValid
        (set_proc p (record (k.procs p) { state = Procstate.embryo; pid = k.nextpid }) k) =
      set_proc-IsValid p _ k refl v in
    record { queue_ok = v'.queue_ok; alloted = v'.alloted }

stacked-IsValid :
    (policy : Policy) (p page : ℕ) (rest : List ℕ) (k : Kernel)
    → IsValid k
    → IsValid (with_stack policy p page (record (claimed p k) { freelist = rest }))
stacked-IsValid policy p page rest k v =
    let c : IsValid (claimed p k) = claimed-IsValid p k v in
    set_proc-IsValid p _ (record (claimed p k) { freelist = rest }) refl
      (record { queue_ok = c.queue_ok; alloted = c.alloted })

pid-set_state :
    (p : ℕ) (st : Procstate) (k : Kernel) (j : ℕ)
    → ((set_state p st k).procs j).pid ≡ (k.procs j).pid
pid-set_state p st k j = ground arith

pid-with_stack :
    (policy : Policy) (p page : ℕ) (rest : List ℕ) (k : Kernel) (j : ℕ)
    → ((with_stack policy p page (record (claimed p k) { freelist = rest })).procs j).pid
      ≡ ((claimed p k).procs j).pid
pid-with_stack policy p page rest k j = ground arith

-- `allocproc` does not panic, keeps the queues valid and the pids unique, and either finds no slot or
-- no page, or hands out a slot that was unused with a pid that no process has had.
pub allocproc_lem :
    (policy : Policy) (k : Kernel)
    → IsValid k
    → PidsOk k
    → (r : Option ℕ) × (k' : Kernel) × (allocproc policy k ≡ ok (r, k'))
      × IsValid k'
      × PidsOk k'
      × Allocated k r k'
unfolding allocproc kalloc
allocproc_lem policy k v pids =
    go (find_first (λ i. is_unused (k.procs i).state) nproc 0) refl
      (find_first-Found (λ i. is_unused (k.procs i).state) nproc 0 nproc (omega arith))
  where
    no_page :
        (p : ℕ)
        → find_first (λ i. is_unused (k.procs i).state) nproc 0 ≡ some p
        → kalloc k.freelist ≡ (none, [])
        → allocproc policy k ≡ ok (none, set_state p Procstate.unused (claimed p k))
    no_page p e e1 = ground arith

    got_page :
        (p page : ℕ) (rest : List ℕ) (k3 : Kernel)
        → find_first (λ i. is_unused (k.procs i).state) nproc 0 ≡ some p
        → kalloc k.freelist ≡ (some page, rest)
        → init_proc_my_style policy p
            (with_stack policy p page (record (claimed p k) { freelist = rest }))
          ≡ ok k3
        → allocproc policy k ≡ ok (some p, k3)
    got_page p page rest k3 e e1 e2 = ground arith

    with_page :
        (p : ℕ) (freelist : List ℕ)
        → k.freelist ≡ freelist
        → find_first (λ i. is_unused (k.procs i).state) nproc 0 ≡ some p
        → Found (λ i. is_unused (k.procs i).state) 0 nproc (some p)
        → (r : Option ℕ) × (k' : Kernel) × (allocproc policy k ≡ ok (r, k'))
          × IsValid k'
          × PidsOk k'
          × Allocated k r k'
    with_page p [] e_list e f = (
      none,
      set_state p Procstate.unused (claimed p k),
      no_page p e (rw e_list refl),
      set_proc-IsValid p _ (claimed p k) refl (claimed-IsValid p k v),
      PidsOk-same (claimed p k) (set_state p Procstate.unused (claimed p k))
          (pid-set_state p Procstate.unused (claimed p k)) refl (claim-PidsOk p k pids),
      (inr e_list, refl),
    )
    with_page p (page ∷ rest) e_list e f =
        let k2 : Kernel = with_stack policy p page (record (claimed p k) { freelist = rest }) in
        let (k3, e3, v3, s3) =
          init_proc_my_style_lem policy p k2 (stacked-IsValid policy p page rest k v) f.1 in
        (
          some p,
          k3,
          got_page p page rest k3 e (rw e_list refl) e3,
          v3,
          PidsOk-same (claimed p k) k3
              (λ j. ap (λ (c : Core). c.1) (s3.cores j) ∙ pid-with_stack policy p page rest k j)
              s3.nextpid_same (claim-PidsOk p k pids),
          (
            f.1,
            f.2,
            s3.nextpid_same,
            s3.end_same,
            page,
            rw s3.freelist_same e_list,
            s3.cores p ∙ rw (eq→== p p refl) refl,
            λ j h. s3.cores j ∙ rw (ne→== j p h) refl,
          ),
        )

    go :
        (r : Option ℕ)
        → find_first (λ i. is_unused (k.procs i).state) nproc 0 ≡ r
        → Found (λ i. is_unused (k.procs i).state) 0 nproc r
        → (r : Option ℕ) × (k' : Kernel) × (allocproc policy k ≡ ok (r, k'))
          × IsValid k'
          × PidsOk k'
          × Allocated k r k'
    go none e f = (none, k, rw (e, allocproc), v, pids, (inl (λ i hi. f i (omega arith) hi), refl))
    go (some p) e f = with_page p k.freelist refl e f
