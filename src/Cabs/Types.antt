-- ===== src/Cabs/Types.antt =====
-- The data of A4/q3/common.h and cab.h, and the tests on a cab's state.
use oscassignments.Base.{ℕ, Bool, true, false, Option, none, some}

-- `POOL_CAB` and `PREMIER_CAB`
pub data RideType : Type 0 where
  pool premier : RideType

-- `enum cabStates`
pub data CabState : Type 0 where
  wait_state on_ride_pool_one on_ride_pool_full on_ride_premier : CabState

-- `struct cab`; the id is its index in `taxis`, and `none` stands for the rider -1.
pub record Cab : Type 0 where
  pub state : CabState
  pub rider1 : Option ℕ
  pub rider2 : Option ℕ

-- The global variables that `checkCab` guards, and of each rider the type of cab he wants
-- (`cabType`) and the one he waits for (`isWaiting`, `none` for -1). `total_cabs_open` is an int in
-- the source; the code lowers it only where it is positive.
pub record City : Type 0 where
  pub cabs_count : ℕ
  pub riders_count : ℕ
  pub taxis : ℕ → Cab
  pub cab_type : ℕ → RideType
  pub is_waiting : ℕ → Option RideType
  pub total_cabs_open : ℕ

abbrev pub is_free : CabState → Bool
is_free CabState.wait_state = true
is_free _ = false

abbrev pub is_pool_one : CabState → Bool
is_pool_one CabState.on_ride_pool_one = true
is_pool_one _ = false

-- `usefulCab`
abbrev pub useful_cab : Option RideType → CabState → Bool
useful_cab none st = false
useful_cab (some RideType.pool) CabState.wait_state = true
useful_cab (some RideType.pool) CabState.on_ride_pool_one = true
useful_cab (some RideType.pool) _ = false
useful_cab (some RideType.premier) st = is_free st

-- The variables that `checkPayment` guards, and the semaphore `serversOpen`: `riders_paying` with
-- `ridersPayingCount` entries in use, and `ridersLeftToExit`.
pub record Desk : Type 0 where
  pub servers_open : ℕ
  pub riders_count : ℕ
  pub riders_paying : ℕ → Option ℕ
  pub riders_paying_count : ℕ
  pub riders_left_to_exit : ℕ
