-- ===== src/Cabs/Promise.antt =====
-- What a run of A4/q3 promises to riders: no failed assertion, no Crew-Company for a premier rider, and a
-- cab for the rider that is signalled.
use oscassignments.Base.{ℕ, ◌≡◌, ◌≢◌, ◌⊎◌, inl, inr, Option, some, ap, arith, sym, ◌∙◌, false, none}
use mathlib.Core.Path.{subst}
use oscassignments.Cabs.Types.{RideType, CabState, City, is_free, premier}
use oscassignments.Cabs.Ride.{Booked, acquired, waits, aborts, book_cab, stop_waiting, end_ride}
use oscassignments.Cabs.System.{System, Reachable, riding}
use oscassignments.Cabs.Crew.{Crew}
use oscassignments.Cabs.Seats.{busy}
use oscassignments.Cabs.Invariant.{In, Consistent}
use oscassignments.Cabs.Moves.{book_cab_cases, after_ride, end_ride_busy, ends-Consistent}
use oscassignments.Cabs.Runs.{result, Reachable-Consistent}

abbrev goes_through : Booked → Option ℕ
goes_through aborts = none
goes_through (acquired i c) = some i
goes_through (waits c) = some 0

-- The Crew-Company in a cab: a premier rider sits alone, and of three riders two are the same.
abbrev Company : (ℕ → RideType) → (a b c : ℕ) → Type 0
Company types a b c = (types a ≡ RideType.premier → b ≡ a) × ((a ≡ b) ⊎ ((b ≡ c) ⊎ (a ≡ c)))

module _ (cabs riders : ℕ) (types : ℕ → RideType) (s : System)
    (reach : Reachable cabs riders types s) where
  agrees : Consistent s
  agrees = Reachable-Consistent cabs riders types s reach

  rider_busy : (r i : ℕ) → s.phase r ≡ riding i → is_free (s.city.taxis i).state ≡ false
  rider_busy r i e =
      busy s.city.cab_type (In s.phase i) r (s.city.taxis i) e
        (agrees.crews i (agrees.in_taxis r i e))

  -- In every state that the program comes to no call of `bookCab` reaches an `assert(0)`.
  pub book_cab_never_aborts : (r : ℕ) → book_cab r s.city ≢ aborts
  book_cab_never_aborts r e = elim (book_cab_cases r s.city agrees.count) [
    | inl (i, cab, e0, some_open, lt, boards) ↦ let x = ap goes_through (sym e0 ∙ e) in ground arith
    | inr (e0, closed) ↦ let x = ap goes_through (sym e0 ∙ e) in ground arith
  ]

  -- In every state that the program comes to, `endRide` of a rider and the cab he sits in passes its
  -- assertion.
  pub end_ride_passes :
      (r i : ℕ)
      → s.phase r ≡ riding i
      → (signalled : Option ℕ) × (c : City) × (end_ride i r s.city ≡ some (signalled, c))
  end_ride_passes r i e = (_, _, end_ride_busy i r s.city (rider_busy r i e))

  one_alike : (p a b c : ℕ) → a ≡ p → b ≡ p → Company s.city.cab_type a b c
  one_alike p a b c x y = (λ e. y ∙ sym x, inl (x ∙ sym y))

  not_premier : (a p : ℕ) → a ≡ p → s.city.cab_type p ≡ RideType.pool → s.city.cab_type a ≢ premier
  not_premier a p e t x =
      let y : RideType.pool ≡ RideType.premier = sym t ∙ ap s.city.cab_type (sym e) ∙ x in
      ground arith

  two_alike :
      (p q a b c : ℕ)
      → (a ≡ p) ⊎ (a ≡ q)
      → (b ≡ p) ⊎ (b ≡ q)
      → (c ≡ p) ⊎ (c ≡ q)
      → (a ≡ b) ⊎ ((b ≡ c) ⊎ (a ≡ c))
  two_alike p q a b c (inl u) (inl v) w = inl (u ∙ sym v)
  two_alike p q a b c (inr u) (inr v) w = inl (u ∙ sym v)
  two_alike p q a b c (inl u) (inr v) (inl w) = inr (inr (u ∙ sym w))
  two_alike p q a b c (inl u) (inr v) (inr w) = inr (inl (v ∙ sym w))
  two_alike p q a b c (inr u) (inl v) (inl w) = inr (inl (v ∙ sym w))
  two_alike p q a b c (inr u) (inl v) (inr w) = inr (inr (u ∙ sym w))

  two_in_cab :
      (p q a b c : ℕ)
      → s.city.cab_type p ≡ RideType.pool
      → s.city.cab_type q ≡ RideType.pool
      → (a ≡ p) ⊎ (a ≡ q)
      → (b ≡ p) ⊎ (b ≡ q)
      → (c ≡ p) ⊎ (c ≡ q)
      → Company s.city.cab_type a b c
  two_in_cab p q a b c t t' x y z = (
    λ e. absurd (elim x [ inl u ↦ not_premier a p u t e | inr u ↦ not_premier a q u t' e ]),
    two_alike p q a b c x y z,
  )

  Crew-Company :
      (st : CabState) (r1 r2 : Option ℕ) (on : ℕ → Type 0)
      → Crew s.city.cab_type on st r1 r2
      → (a b c : ℕ) → on a
      → on b
      → on c
      → Company s.city.cab_type a b c
  Crew-Company CabState.wait_state r1 r2 on h a b c x y z = absurd (h a x)
  Crew-Company CabState.on_ride_pool_one r1 r2 on (p, e, t, o, only) a b c x y z =
      one_alike p a b c (only a x) (only b y)
  Crew-Company CabState.on_ride_premier r1 r2 on (p, e, t, o, only) a b c x y z =
      one_alike p a b c (only a x) (only b y)
  Crew-Company CabState.on_ride_pool_full r1 r2 on (p, q, e, e', ne, t, t', o, o', only) a b c x y
        z =
      two_in_cab p q a b c t t' (only a x) (only b y) (only c z)

  riders_in_cab :
      (i a b c : ℕ)
      → s.phase a ≡ riding i
      → s.phase b ≡ riding i
      → s.phase c ≡ riding i
      → Company s.city.cab_type a b c
  riders_in_cab i a b c x y z =
      let cab = s.city.taxis i in
      Crew-Company cab.state cab.rider1 cab.rider2 (In s.phase i)
        (agrees.crews i (agrees.in_taxis a i x)) a b c x y z

  -- In every state that the program comes to, nobody else sits in the cab of a premier rider.
  pub premier_alone :
      (i a b : ℕ)
      → s.phase a ≡ riding i
      → s.city.cab_type a ≡ RideType.premier
      → b ≢ a
      → s.phase b ≢ riding i
  premier_alone i a b x e other y = other ((riders_in_cab i a b b x y y).0 e)

  -- In every state that the program comes to, nobody else sits in a cab with two riders.
  pub two_at_most :
      (i a b c : ℕ)
      → s.phase a ≡ riding i
      → s.phase b ≡ riding i
      → a ≢ b
      → c ≢ a
      → c ≢ b
      → s.phase c ≢ riding i
  two_at_most i a b c x y ab ca cb z = elim ((riders_in_cab i a b c x y z).1) [
    | inl e ↦ ab e
    | inr e ↦ elim e [ inl e' ↦ cb (sym e') | inr e' ↦ ca (sym e') ]
  ]

  -- If `endRide` signals a rider and he is the next to take the lock, his `bookCab` gets a cab.
  pub signalled_gets_cab :
      (r i j : ℕ) (c : City)
      → s.phase r ≡ riding i
      → end_ride i r s.city ≡ some (some j, c)
      → (k : ℕ) × (c' : City) × (book_cab j (stop_waiting j c) ≡ acquired k c')
  unfolding stop_waiting
  signalled_gets_cab r i j c e b =
      let same : after_ride i r s.city ≡ c =
        ap (result c) (sym (end_ride_busy i r s.city (rider_busy r i e)) ∙ b) in
      let count = (ends-Consistent s r i agrees e).count in
      subst (λ d. (k : ℕ) × (c' : City) × (book_cab j (stop_waiting j d) ≡ acquired k c')) same
        (elim (book_cab_cases j (stop_waiting j (after_ride i r s.city)) count) [
          | inl (k, cab, e0, some_open, lt, boards) ↦ (k, _, e0)
          | inr (e0, closed) ↦ absurd (omega arith)
        ])
