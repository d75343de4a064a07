-- ===== src/Cabs/Pay/Kept.antt =====
-- What the payments of a run of A4/q3 keep.
use oscassignments.Base.{
  ltb, ltb→lt, ◌+◌, ◌≤◌, some, ◌⊎◌, ℕ, ◌-◌, ◌≡◌, ◌≢◌, refl, ◌==◌, List, [], ◌∷◌, ◌++◌, length,
  arith, Bool-cases, inl, inr, ap,
}
use mathlib.Core.Path.{subst}
use mathlib.Core.List.{Perm, perm_middle}
use mathlib.Core.List.Perm
use oscassignments.Cabs.Types.{Desk}
use oscassignments.Cabs.Pay.{
  Served, add_payment, blocks, closes, serves, fault, take_payment, serve, Day, opens, posts, adds,
  takes, ends, leaves,
}
use oscassignments.Cabs.Pay.Pile.{
  Pile, added_to, add_payment-Pile, add_payment-some, taken, take_top, take_none,
}

-- A server who gets through the semaphore takes the top of the pile, or ends.
data Turned (riders : ℕ) (d : Desk) : List ℕ → Served → Type 0 where
  is_blocked : (xs : List ℕ) → Turned riders d xs blocks
  has_ended : (xs : List ℕ) (d' : Desk) → Pile riders d' xs → Turned riders d xs (closes d')
  has_served :
      (x : ℕ) (xs : List ℕ) (d' : Desk) → Pile riders d' xs → Turned riders d (x ∷ xs) (serves x d')

abbrev waited : Desk → Desk
waited d = record d { servers_open = d.servers_open - 1 }

waited-Pile : (riders : ℕ) (d : Desk) (xs : List ℕ) → Pile riders d xs → Pile riders (waited d) xs
waited-Pile riders d xs h = record {
  cells = h.cells;
  within = h.within;
  left = h.left;
  count = h.count;
  piled = h.piled;
  clear = h.clear;
}

take-Turned :
    (riders : ℕ) (d : Desk) (xs : List ℕ)
    → 1 ≤ riders
    → Pile riders (waited d) xs
    → Turned riders d xs (take_payment (waited d))
take-Turned riders d [] some_cells h =
    rw (take_none riders (waited d) some_cells h) (has_ended [] (waited d) h)
take-Turned riders d (x ∷ xs) some_cells h =
    let (e, p) = take_top riders x xs (waited d) h in
    rw e (has_served x xs (taken (waited d) (length xs)) p)

serve-Turned :
    (riders : ℕ) (d : Desk) (xs : List ℕ) → Pile riders d xs → Turned riders d xs (serve d)
unfolding serve
serve-Turned riders d xs h = elim (Bool-cases (d.servers_open == 0)) [
  | inl none_posted ↦ rw none_posted (is_blocked xs)
  | inr posted ↦ elim (Bool-cases (d.riders_left_to_exit == 0)) [
    | inl all_left ↦ rw (posted, all_left) (has_ended xs (waited d) (waited-Pile riders d xs h))
    | inr some_left ↦
        rw (posted, some_left)
          (take-Turned riders d xs (ground (arith, h.left)) (waited-Pile riders d xs h))
  ]
]

-- The riders on the desk: a pile that, with those served, makes up all who have put themselves down.
pub record Kept (riders : ℕ) (d : Desk) (added served : List ℕ) : Type 0 where
  pub pile : List ℕ
  pub is_pile : Pile riders d pile
  pub all_there : Perm (served ++ pile) added
  pub all_counted : length added ≡ length served + length pile

abbrev after_close : Desk → Served → Desk
after_close d (closes d') = d'
after_close d (serves r d') = d'
after_close d _ = d

abbrev who : ℕ → Served → ℕ
who n (serves r d') = r
who n _ = n

abbrev kind : Served → ℕ
kind blocks = 0
kind (closes d) = 1
kind (serves r d) = 2
kind fault = 3

Turned-closes :
    (riders : ℕ) (d d' : Desk) (xs : List ℕ) (s : Served)
    → Turned riders d xs s
    → s ≡ closes d'
    → Pile riders d' xs
Turned-closes riders d d' _ _ (is_blocked xs) e = absurd (let x = ap kind e in ground arith)
Turned-closes riders d d' _ _ (has_ended xs d1 h) e =
    subst (λ z. Pile riders z xs) (ap (after_close d) e) h
Turned-closes riders d d' _ _ (has_served x xs d1 h) e = absurd (let y = ap kind e in ground arith)

Turned-serves :
    (riders : ℕ) (d d' : Desk) (r : ℕ) (xs : List ℕ) (s : Served)
    → Turned riders d xs s
    → s ≡ serves r d'
    → (ys : List ℕ) × (xs ≡ r ∷ ys) × Pile riders d' ys
Turned-serves riders d d' r _ _ (is_blocked xs) e = absurd (let x = ap kind e in ground arith)
Turned-serves riders d d' r _ _ (has_ended xs d1 h) e = absurd (let x = ap kind e in ground arith)
Turned-serves riders d d' r _ _ (has_served x xs d1 h) e =
    (xs, ap (λ z. z ∷ xs) (ap (who r) e), subst (λ z. Pile riders z xs) (ap (after_close d) e) h)

no_fault : (riders : ℕ) (d : Desk) (xs : List ℕ) (s : Served) → Turned riders d xs s → s ≢ fault
no_fault riders d _ _ (is_blocked xs) e = let x = ap kind e in ground arith
no_fault riders d _ _ (has_ended xs d1 h) e = let x = ap kind e in ground arith
no_fault riders d _ _ (has_served x xs d1 h) e = let y = ap kind e in ground arith

-- On a day's run nobody who has put himself down is lost or served twice: those served and those
-- in `ridersPaying` are together the ones who have put themselves down.
pub Day-Kept :
    (riders : ℕ) (d : Desk) (added served : List ℕ)
    → Day riders d added served
    → Kept riders d added served
Day-Kept riders _ _ _ opens = record {
  pile = [];
  is_pile = record {
    cells = refl;
    within = omega arith;
    left = omega arith;
    count = refl;
    piled = tt;
    clear = λ i le. refl;
  };
  all_there = Perm.refl [];
  all_counted = refl;
}
Day-Kept riders _ added served (posts d _ _ day) =
    let k = Day-Kept riders d added served day in
    record {
      pile = k.pile;
      is_pile = record {
        cells = k.is_pile.cells;
        within = k.is_pile.within;
        left = k.is_pile.left;
        count = k.is_pile.count;
        piled = k.is_pile.piled;
        clear = k.is_pile.clear;
      };
      all_there = k.all_there;
      all_counted = k.all_counted;
    }
Day-Kept riders _ _ served (adds d d' added _ r day e) =
    let k = Day-Kept riders d added served day in
    record {
      pile = r ∷ k.pile;
      is_pile = add_payment-Pile riders r d d' k.pile k.is_pile e;
      all_there = Perm.trans (perm_middle served k.pile) (Perm.cons' refl k.all_there);
      all_counted = omega (arith, k.all_counted);
    }
Day-Kept riders _ added _ (takes d d' _ served r day e) =
    let k = Day-Kept riders d added served day in
    let (ys, split, p) =
      Turned-serves riders d d' r k.pile (serve d) (serve-Turned riders d k.pile k.is_pile) e in
    record {
      pile = ys;
      is_pile = p;
      all_there =
          Perm.trans (Perm.symm (perm_middle served ys))
            (subst (λ zs. Perm (served ++ zs) added) split k.all_there);
      all_counted = omega (arith, k.all_counted, ap length split);
    }
Day-Kept riders _ added served (ends d d' _ _ day e) =
    let k = Day-Kept riders d added served day in
    record {
      pile = k.pile;
      is_pile =
          Turned-closes riders d d' k.pile (serve d) (serve-Turned riders d k.pile k.is_pile) e;
      all_there = k.all_there;
      all_counted = k.all_counted;
    }
Day-Kept riders _ added served (leaves d _ _ day some_left) =
    let k = Day-Kept riders d added served day in
    record {
      pile = k.pile;
      is_pile = record {
        cells = k.is_pile.cells;
        within = k.is_pile.within;
        left = (let l = k.is_pile.left in omega arith);
        count = k.is_pile.count;
        piled = k.is_pile.piled;
        clear = k.is_pile.clear;
      };
      all_there = k.all_there;
      all_counted = k.all_counted;
    }

-- No server of a day's run follows a null pointer or reads outside `ridersPaying`, which has a cell
-- for each rider; and as long as fewer riders than these have put themselves down, the next one finds a
-- cell.
pub serve_never_faults :
    (riders : ℕ) (d : Desk) (added served : List ℕ)
    → Day riders d added served
    → (serve d ≢ fault)
      × ((r : ℕ) → (riders ≤ length added) ⊎ ((d' : Desk) × (add_payment r d ≡ some d')))
serve_never_faults riders d added served day =
    let k = Day-Kept riders d added served day in
    (
      no_fault riders d k.pile (serve d) (serve-Turned riders d k.pile k.is_pile),
      λ r. elim (Bool-cases (ltb (length added) riders)) [
        | inr all_down ↦ inl (ground arith)
        | inl fewer ↦ inr (
          added_to r d,
          add_payment-some riders r d k.pile k.is_pile
              (let lt = ltb→lt (length added) riders fewer in omega (arith, k.all_counted)),
        )
      ],
    )
