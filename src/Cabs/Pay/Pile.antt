-- ===== src/Cabs/Pay/Pile.antt =====
-- `ridersPaying` of A4/q3 as a pile of riders, and what a day's payments leave of it.
use mathlib.Core.Path.{◌∙◌, sym, ap, subst}
use oscassignments.Base.{
  ltb, true, Bool-cases, inl, inr, ◌<◌, ◌+◌, ℕ, ◌≤◌, ◌≡◌, refl, Option, none, some, update, List,
  [], ◌∷◌, length, arith,
}
use oscassignments.Cabs.Types.{Desk}
use oscassignments.Cabs.Pay.{closes, serves, add_payment, take_payment}

-- The cells hold these riders, the top first.
abbrev pub Piled : (ℕ → Option ℕ) → List ℕ → Type 0
Piled cells [] = Unit
Piled cells (x ∷ xs) = (cells (length xs) ≡ some x) × Piled cells xs

-- `ridersPaying` has a cell for each of the riders, and the lowest cells hold these, the top first.
pub record Pile (riders : ℕ) (d : Desk) (xs : List ℕ) : Type 0 where
  pub cells : d.riders_count ≡ riders
  pub within : length xs ≤ riders
  pub left : d.riders_left_to_exit ≤ riders
  pub count : d.riders_paying_count ≡ length xs
  pub piled : Piled d.riders_paying xs
  pub clear : (i : ℕ) → length xs ≤ i → d.riders_paying i ≡ none

Piled-update :
    (xs : List ℕ) (cells : ℕ → Option ℕ) (i : ℕ) (v : Option ℕ)
    → length xs ≤ i
    → Piled cells xs
    → Piled (update cells i v) xs
Piled-update [] cells i v h p = tt
Piled-update (x ∷ xs) cells i v h p = (ground arith, Piled-update xs cells i v (omega arith) p.1)

abbrev pub added_to : ℕ → Desk → Desk
added_to r d = record d {
  riders_paying = update d.riders_paying d.riders_paying_count (some r);
  riders_paying_count = d.riders_paying_count + 1;
}

pub added_to-Pile :
    (riders r : ℕ) (d : Desk) (xs : List ℕ)
    → Pile riders d xs
    → length xs < riders
    → Pile riders (added_to r d) (r ∷ xs)
added_to-Pile riders r d xs h room = record {
  cells = h.cells;
  within = room;
  left = h.left;
  count = omega (arith, h.count);
  piled = (
    ground (arith, h.count),
    Piled-update xs d.riders_paying d.riders_paying_count (some r) (omega (arith, h.count)) h.piled,
  );
  clear = λ i le. ground (arith, h.count, h.clear i (omega arith));
}

pub add_payment-some :
    (riders r : ℕ) (d : Desk) (xs : List ℕ)
    → Pile riders d xs
    → length xs < riders
    → add_payment r d ≡ some (added_to r d)
unfolding add_payment
add_payment-some riders r d xs h room =
    let e : ltb d.riders_paying_count d.riders_count ≡ true = ground (arith, h.count, h.cells) in
    rw e refl

or_desk : Desk → Option Desk → Desk
or_desk d none = d
or_desk d (some d') = d'

-- Where a rider has been put down, there was a cell for him.
pub add_payment-Pile :
    (riders r : ℕ) (d d' : Desk) (xs : List ℕ)
    → Pile riders d xs
    → add_payment r d ≡ some d'
    → Pile riders d' (r ∷ xs)
unfolding add_payment or_desk
add_payment-Pile riders r d d' xs h e =
    elim (Bool-cases (ltb d.riders_paying_count d.riders_count)) [
      | inl room ↦
          let lt : length xs < riders = ground (arith, h.count, h.cells) in
          subst (λ z. Pile riders z (r ∷ xs))
            (ap (or_desk d) (sym (add_payment-some riders r d xs h lt) ∙ e))
            (added_to-Pile riders r d xs h lt)
      | inr full ↦
          absurd
            (let f : add_payment r d ≡ none = rw full refl in let g = sym f ∙ e in ground arith)
    ]

bottom :
    (x : ℕ) (xs : List ℕ) (cells : ℕ → Option ℕ)
    → Piled cells (x ∷ xs)
    → (y : ℕ) × (cells 0 ≡ some y)
bottom x [] cells p = (x, p.0)
bottom x (y ∷ xs) cells p = bottom y xs cells p.1

abbrev pub taken : Desk → ℕ → Desk
taken d n = record d { riders_paying = update d.riders_paying n none; riders_paying_count = n }

pub take_top :
    (riders x : ℕ) (xs : List ℕ) (d : Desk)
    → Pile riders d (x ∷ xs)
    → (take_payment d ≡ serves x (taken d (length xs))) × Pile riders (taken d (length xs)) xs
unfolding take_payment
take_top riders x xs d h =
    let (y, e) = bottom x xs d.riders_paying h.piled in
    let w = h.within in
    let first : ltb 0 d.riders_count ≡ true = ground (arith, h.cells) in
    let top : ltb (length xs) d.riders_count ≡ true = ground (arith, h.cells) in
    (
      rw (first, e, take_payment, h.count, top, h.piled.0) refl,
      record {
        cells = h.cells;
        within = omega arith;
        left = h.left;
        count = refl;
        piled = Piled-update xs d.riders_paying (length xs) none (omega arith) h.piled.1;
        clear = λ i le. ground (arith, h.clear i);
      },
    )

pub take_none : (riders : ℕ) (d : Desk) → 1 ≤ riders → Pile riders d [] → take_payment d ≡ closes d
unfolding take_payment
take_none riders d some_cells h =
    let first : ltb 0 d.riders_count ≡ true = ground (arith, h.cells) in
    rw (first, h.clear 0 (omega arith), take_payment) refl
