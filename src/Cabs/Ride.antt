-- ===== src/Cabs/Ride.antt =====
-- `findCab`, the part of `bookCab` under the lock, and `endRide` of A4/q3.
use oscassignments.Base.{
  ℕ, zero, suc, ◌+◌, ◌-◌, ◌%◌, Bool, true, false, Option, none, some, ◌==◌, ltb, if◌then◌else◌,
  update, find_first,
}
use oscassignments.Cabs.Types.{RideType, CabState, Cab, City, is_free, is_pool_one, useful_cab}

-- A rider who has a cab goes by car, one without waits; `aborts` is a failed `assert`.
pub data Booked : Type 0 where
  acquired : ℕ → City → Booked
  waits : City → Booked
  aborts : Booked

abbrev pub set_cab : ℕ → Cab → City → City
set_cab i cab c = record c { taxis = update c.taxis i cab }

abbrev pub with_state : (CabState → Bool) → City → Option ℕ
with_state test c = find_first (λ i. test (c.taxis i).state) c.cabs_count 0

-- `usedCab` and the table, or none where `assert(0)` is reached.
unfoldable pub find_cab : ℕ → City → Option (ℕ × City)
find_cab rider c = elim (c.cab_type rider) [
  | RideType.pool ↦ elim (with_state is_pool_one c) [
    | some i ↦ some (
      i,
      set_cab i (record (c.taxis i) { state = CabState.on_ride_pool_full; rider2 = some rider }) c,
    )
    | none ↦ elim (with_state is_free c) [
      | some i ↦ some (
        i,
        set_cab i (record (c.taxis i) { state = CabState.on_ride_pool_one; rider1 = some rider }) c,
      )
      | none ↦ none
    ]
  ]
  | RideType.premier ↦ elim (with_state is_free c) [
    | some i ↦ some (
      i,
      set_cab i (record (c.taxis i) { state = CabState.on_ride_premier; rider1 = some rider }) c,
    )
    | none ↦ none
  ]
]

-- `bookCab` from taking the lock to giving it up: at its end, or in `pthread_cond_timedwait`.
unfoldable pub book_cab : ℕ → City → Booked
book_cab rider c =
    if ltb 0 c.total_cabs_open
    then elim (find_cab rider c) [
      | none ↦ aborts
      | some (i, c1) ↦ acquired i (record c1 { total_cabs_open = c1.total_cabs_open - 1 })
    ]
    else waits (record c { is_waiting = update c.is_waiting rider (some (c.cab_type rider)) })

-- `bookCab` after `pthread_cond_timedwait` has returned, for whatever reason.
unfoldable pub stop_waiting : ℕ → City → City
stop_waiting rider c = record c { is_waiting = update c.is_waiting rider none }

-- The cab after a ride of `rider`.
unfoldable pub left_cab : ℕ → Cab → Cab
left_cab rider cab = elim cab.state [
  | CabState.wait_state ↦ cab
  | CabState.on_ride_pool_full ↦
      if elim cab.rider1 [ none ↦ false | some r ↦ r == rider ]
      then record cab { state = CabState.on_ride_pool_one; rider1 = cab.rider2; rider2 = none }
      else record cab { state = CabState.on_ride_pool_one; rider2 = none }
  | _ ↦ record cab { state = CabState.wait_state; rider1 = none; rider2 = none }
]

-- The loop of `endRide` over the other riders, from `j` on.
unfoldable pub next_waiting : ℕ → City → CabState → (rider j : ℕ) → Option ℕ
next_waiting zero c st rider j = none
next_waiting (suc f) c st rider j =
    if j == rider then none else elim (useful_cab (c.is_waiting j) st) [
      | true ↦ some j
      | false ↦ next_waiting f c st rider ((j + 1) % c.riders_count)
    ]

-- `endRide`: the rider that is signalled, if one is, and the table; none if its `assert` fails.
unfoldable pub end_ride : (cab rider : ℕ) → City → Option (Option ℕ × City)
end_ride cab rider c =
    if is_free (c.taxis cab).state
    then none
    else (let c1 = record (set_cab cab (left_cab rider (c.taxis cab)) c) {
      total_cabs_open = c.total_cabs_open + 1;
    } in
        some (
          next_waiting (c.riders_count + 1) c1 (c1.taxis cab).state rider
              ((rider + 1) % c.riders_count),
          c1,
        ))

-- `main`: every cab waits, and no rider waits yet.
abbrev pub initial : (cabs riders : ℕ) → (ℕ → RideType) → City
initial cabs riders types = record {
  cabs_count = cabs;
  riders_count = riders;
  taxis = λ i. record { state = CabState.wait_state; rider1 = none; rider2 = none };
  cab_type = types;
  is_waiting = λ r. none;
  total_cabs_open = cabs;
}
