-- ===== src/Cabs/Crew.antt =====
-- Who sits in a cab of A4/q3, against the state and the riders that the cab records.
use oscassignments.Base.{ℕ, ◌≡◌, ◌≢◌, ◌⊎◌, Option, some}
use oscassignments.Cabs.Types.{RideType, CabState}

-- `on r` says that rider `r` sits in the cab.
module _ (types : ℕ → RideType) where
  abbrev pub Crew : (ℕ → Type 0) → CabState → Option ℕ → Option ℕ → Type 0
  Crew on CabState.wait_state r1 r2 = (r : ℕ) → ¬ on r
  Crew on CabState.on_ride_pool_one r1 r2 =
      (a : ℕ) × (r1 ≡ some a) × (types a ≡ RideType.pool) × on a × ((r : ℕ) → on r → r ≡ a)
  Crew on CabState.on_ride_pool_full r1 r2 =
      (a : ℕ) × (b : ℕ) × (r1 ≡ some a)
      × (r2 ≡ some b)
      × (a ≢ b)
      × (types a ≡ RideType.pool)
      × (types b ≡ RideType.pool)
      × on a
      × on b
      × ((r : ℕ) → on r → (r ≡ a) ⊎ (r ≡ b))
  Crew on CabState.on_ride_premier r1 r2 =
      (a : ℕ) × (r1 ≡ some a) × (types a ≡ RideType.premier) × on a × ((r : ℕ) → on r → r ≡ a)

  -- The same riders make the same crew.
  pub Crew-same :
      (on on' : ℕ → Type 0)
      → ((r : ℕ) → on r → on' r)
      → ((r : ℕ) → on' r → on r)
      → (st : CabState) (r1 r2 : Option ℕ) → Crew on st r1 r2
      → Crew on' st r1 r2
  Crew-same on on' f g CabState.wait_state r1 r2 h = λ r o. h r (g r o)
  Crew-same on on' f g CabState.on_ride_pool_one r1 r2 (a, e, t, o, only) =
      (a, e, t, f a o, λ r p. only r (g r p))
  Crew-same on on' f g CabState.on_ride_pool_full r1 r2 (a, b, e, e', ne, t, t', o, o', only) =
      (a, b, e, e', ne, t, t', f a o, f b o', λ r p. only r (g r p))
  Crew-same on on' f g CabState.on_ride_premier r1 r2 (a, e, t, o, only) =
      (a, e, t, f a o, λ r p. only r (g r p))
