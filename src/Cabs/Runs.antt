-- ===== src/Cabs/Runs.antt =====
-- Every run of A4/q3: the count of open cabs, the crews, and the assertions of `findCab` and
-- `endRide`.
use oscassignments.Base.{
  ℕ, ◌≡◌, inl, inr, Option, some, none, refl, ap, arith, sym, ◌∙◌, true, false, Bool, zero, suc,
}
use mathlib.Core.Path.{subst}
use oscassignments.Cabs.Types.{RideType, CabState, City}
use oscassignments.Cabs.Ride.{Booked, waits, stop_waiting}
use oscassignments.Cabs.System.{
  System, Step, Reachable, about_to_book, waiting, riding, has_left, gave_up, go_on, books,
  begins_to_wait, wakes, times_out, ends, begin, next,
}
use oscassignments.Cabs.Load.{load}
use oscassignments.Cabs.Seats.{busy}
use oscassignments.Cabs.Invariant.{In, Consistent}
use oscassignments.Cabs.Moves.{
  took, book_cab_cases, acquired-inj, end_ride_busy, books-Consistent, ends-Consistent,
  waits-Consistent,
}

abbrev is_wait : Booked → Bool
is_wait (waits c) = true
is_wait _ = false

abbrev queue_of : City → Booked → City
queue_of d (waits c) = c
queue_of d _ = d

abbrev pub result : City → Option (Option ℕ × City) → City
result d none = d
result d (some (j, c)) = c

Step-Consistent : (s t : System) → Consistent s → Step s t → Consistent t
unfolding stop_waiting
Step-Consistent _ _ h (books s r i c lt e b) = elim (book_cab_cases r s.city h.count) [
  | inl (i0, cab, e0, some_open, lt0, boards) ↦
      let (same_i, same_c) = acquired-inj i0 i (took i0 cab s.city) c (sym e0 ∙ b) in
      subst (λ d. Consistent (go_on d s.phase r (riding i))) same_c
        (subst (λ j. Consistent (go_on (took i0 cab s.city) s.phase r (riding j))) same_i
          (books-Consistent s r i0 cab h e some_open lt0 boards))
  | inr (e0, closed) ↦ absurd (let x = ap is_wait (sym e0 ∙ b) in ground arith)
]
Step-Consistent _ _ h (begins_to_wait s r c lt e b) = elim (book_cab_cases r s.city h.count) [
  | inl (i0, cab, e0, some_open, lt0, boards) ↦
      absurd (let x = ap is_wait (sym e0 ∙ b) in ground arith)
  | inr (e0, closed) ↦
      subst (λ d. Consistent (go_on d s.phase r waiting)) (ap (queue_of c) (sym e0 ∙ b))
        (waits-Consistent s r waiting (some (s.city.cab_type r)) h (λ i x. ground arith)
          (λ i x. ground arith) refl)
]
Step-Consistent _ _ h (wakes s r e) =
    waits-Consistent s r about_to_book none h (λ i x. ground arith) (λ i x. ground arith) refl
Step-Consistent _ _ h (times_out s r e) =
    waits-Consistent s r gave_up none h (λ i x. ground arith) (λ i x. ground arith) refl
Step-Consistent _ _ h (ends s r i signalled c e b) =
    let lt = h.in_taxis r i e in
    let not_free = busy s.city.cab_type (In s.phase i) r (s.city.taxis i) e (h.crews i lt) in
    subst (λ d. Consistent (go_on d s.phase r has_left))
      (ap (result c) (sym (end_ride_busy i r s.city not_free) ∙ b)) (ends-Consistent s r i h e)

load_initial :
    (n : ℕ) → load n (λ i. record { state = CabState.wait_state; rider1 = none; rider2 = none }) ≡ 0
load_initial zero = refl
load_initial (suc n) = omega (arith, load_initial n)

-- In every state that the program comes to, the table agrees with the threads: each cab's state and
-- riders are those of the threads that ride in it, `isWaiting` is set exactly for those that wait,
-- and `totalCabsOpen` is `cabsCount` less the rides under way.
pub Reachable-Consistent :
    (cabs riders : ℕ) (types : ℕ → RideType) (s : System)
    → Reachable cabs riders types s
    → Consistent s
Reachable-Consistent cabs riders types _ begin = record {
  crews = λ i lt r x. ground arith;
  in_taxis = λ r i x. ground arith;
  wishes = λ r. refl;
  count = omega (arith, load_initial cabs);
}
Reachable-Consistent cabs riders types t (next s _ reach step) =
    Step-Consistent s t (Reachable-Consistent cabs riders types s reach) step
