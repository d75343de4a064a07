-- ===== src/Cabs/Board.antt =====
-- What `findCab` of A4/q3/rider.c finds while `totalCabsOpen` is positive.
use oscassignments.Base.{
  ℕ, ◌+◌, ◌≤◌, ◌<◌, ◌≡◌, refl, Bool, true, Option, none, some, arith, Found, find_first-Found,
}
use oscassignments.Cabs.Types.{RideType, CabState, Cab, City, is_free, is_pool_one}
use oscassignments.Cabs.Ride.{find_cab, with_state, set_cab}
use oscassignments.Cabs.Load.{rides, load, load_busy}

-- The ways into a cab: as the second of a pool, as the first of one, and alone.
pub data Boards (rider : ℕ) (old : Cab) : RideType → Cab → Type 0 where
  shares :
      old.state ≡ CabState.on_ride_pool_one
      → Boards rider old RideType.pool
          (record old { state = CabState.on_ride_pool_full; rider2 = some rider })
  opens_pool :
      old.state ≡ CabState.wait_state
      → Boards rider old RideType.pool
          (record old { state = CabState.on_ride_pool_one; rider1 = some rider })
  goes_alone :
      old.state ≡ CabState.wait_state
      → Boards rider old RideType.premier
          (record old { state = CabState.on_ride_premier; rider1 = some rider })

pub Boards-rides :
    (rider : ℕ) (old new : Cab) (type : RideType)
    → Boards rider old type new
    → rides new.state ≡ rides old.state + 1
Boards-rides rider old _ _ (shares e) = rw e refl
Boards-rides rider old _ _ (opens_pool e) = rw e refl
Boards-rides rider old _ _ (goes_alone e) = rw e refl

is_free→wait : (st : CabState) → is_free st ≡ true → st ≡ CabState.wait_state
is_free→wait CabState.wait_state e = refl
is_free→wait CabState.on_ride_pool_one e = ground arith
is_free→wait CabState.on_ride_pool_full e = ground arith
is_free→wait CabState.on_ride_premier e = ground arith

is_pool_one→one : (st : CabState) → is_pool_one st ≡ true → st ≡ CabState.on_ride_pool_one
is_pool_one→one CabState.wait_state e = ground arith
is_pool_one→one CabState.on_ride_pool_one e = refl
is_pool_one→one CabState.on_ride_pool_full e = ground arith
is_pool_one→one CabState.on_ride_premier e = ground arith

module _ (c : City) where
  abbrev in_state : (CabState → Bool) → ℕ → Bool
  in_state test i = test (c.taxis i).state

  abbrev FreeCab : Type 0
  FreeCab =
      (i : ℕ) × (with_state is_free c ≡ some i)
      × (i < c.cabs_count)
      × ((c.taxis i).state ≡ CabState.wait_state)

  free_of_search :
      1 ≤ c.total_cabs_open
      → c.total_cabs_open + load c.cabs_count c.taxis ≡ c.cabs_count
      → (r : Option ℕ) → with_state is_free c ≡ r
      → Found (in_state is_free) 0 c.cabs_count r
      → FreeCab
  free_of_search some_open count none e f =
      absurd (omega (arith, load_busy c.cabs_count c.taxis (λ i lt. f i (omega arith) lt)))
  free_of_search some_open count (some i) e f = (i, e, f.1, is_free→wait (c.taxis i).state f.2)

  -- If a cab is open, one of them is free.
  free_cab :
      1 ≤ c.total_cabs_open → c.total_cabs_open + load c.cabs_count c.taxis ≡ c.cabs_count → FreeCab
  free_cab some_open count =
      free_of_search some_open count (with_state is_free c) refl
        (find_first-Found (in_state is_free) c.cabs_count 0 c.cabs_count (omega arith))

  module _ (rider : ℕ) where
    abbrev pub Boarded : RideType → Type 0
    Boarded type =
        (i : ℕ) × (cab : Cab) × (find_cab rider c ≡ some (i, set_cab i cab c))
        × (i < c.cabs_count)
        × Boards rider (c.taxis i) type cab

    board_premier : c.cab_type rider ≡ RideType.premier → FreeCab → Boarded RideType.premier
    unfolding find_cab
    board_premier ty (i, e, lt, st) = (
      i,
      record (c.taxis i) { state = CabState.on_ride_premier; rider1 = some rider },
      rw (ty, e, find_cab) refl,
      lt,
      goes_alone st,
    )

    board_pool :
        c.cab_type rider ≡ RideType.pool
        → FreeCab
        → (r : Option ℕ) → with_state is_pool_one c ≡ r
        → Found (in_state is_pool_one) 0 c.cabs_count r
        → Boarded RideType.pool
    unfolding find_cab
    board_pool ty (i, e, lt, st) none e1 f = (
      i,
      record (c.taxis i) { state = CabState.on_ride_pool_one; rider1 = some rider },
      rw (ty, e1, e, find_cab) refl,
      lt,
      opens_pool st,
    )
    board_pool ty free (some i) e1 f = (
      i,
      record (c.taxis i) { state = CabState.on_ride_pool_full; rider2 = some rider },
      rw (ty, e1, find_cab) refl,
      f.1,
      shares (is_pool_one→one (c.taxis i).state f.2),
    )

    -- If a cab is open, `findCab` does not fail its assertion.
    pub find_cab-Boarded :
        1 ≤ c.total_cabs_open
        → c.total_cabs_open + load c.cabs_count c.taxis ≡ c.cabs_count
        → Boarded (c.cab_type rider)
    find_cab-Boarded some_open count = by_type (c.cab_type rider) refl
      where
        by_type : (type : RideType) → c.cab_type rider ≡ type → Boarded type
        by_type RideType.pool ty =
            board_pool ty (free_cab some_open count) (with_state is_pool_one c) refl
              (find_first-Found (in_state is_pool_one) c.cabs_count 0 c.cabs_count (omega arith))
        by_type RideType.premier ty = board_premier ty (free_cab some_open count)
