-- ===== src/Cabs/Load.antt =====
-- How many rides the cabs of A4/q3 are on, which `totalCabsOpen` counts down from `cabsCount`.
use oscassignments.Base.{
  ℕ, zero, suc, ◌+◌, ◌≤◌, ◌<◌, ◌≡◌, false, arith, update, update_self, update_ne,
}
use native.Mathlib.Decide.{ℕ_discrete}
use oscassignments.Cabs.Types.{CabState, Cab, is_free}

abbrev pub rides : CabState → ℕ
rides CabState.wait_state = 0
rides CabState.on_ride_pool_one = 1
rides CabState.on_ride_pool_full = 2
rides CabState.on_ride_premier = 1

-- the rides of the first `n` cabs
abbrev pub load : ℕ → (ℕ → Cab) → ℕ
load zero taxis = 0
load (suc n) taxis = load n taxis + rides (taxis n).state

load-above :
    (n : ℕ) (taxis : ℕ → Cab) (i : ℕ) (cab : Cab)
    → n ≤ i
    → load n (update taxis i cab) ≡ load n taxis
load-above zero taxis i cab h = omega arith
load-above (suc n) taxis i cab h =
    rw (update_ne taxis i cab n (omega arith))
      (omega (arith, load-above n taxis i cab (omega arith)))

-- A change of one cab changes the load by the change of its rides.
pub load-update :
    (n : ℕ) (taxis : ℕ → Cab) (i : ℕ) (cab : Cab)
    → i < n
    → load n (update taxis i cab) + rides (taxis i).state ≡ load n taxis + rides cab.state
load-update zero taxis i cab h = absurd (omega arith)
load-update (suc n) taxis i cab h = elim (ℕ_discrete n i) [
  | yes same ↦
      rw same (rw (update_self taxis i cab) (omega (arith, load-above i taxis i cab (omega arith))))
  | no other ↦
      rw (update_ne taxis i cab n other) (omega (arith, load-update n taxis i cab (omega arith)))
]

rides_busy : (st : CabState) → is_free st ≡ false → 1 ≤ rides st
rides_busy CabState.wait_state e = ground arith
rides_busy CabState.on_ride_pool_one e = omega arith
rides_busy CabState.on_ride_pool_full e = omega arith
rides_busy CabState.on_ride_premier e = omega arith

-- If no cab is free there are at least as many rides as cabs.
pub load_busy :
    (n : ℕ) (taxis : ℕ → Cab)
    → ((i : ℕ) → i < n → is_free (taxis i).state ≡ false)
    → n ≤ load n taxis
load_busy zero taxis h = omega arith
load_busy (suc n) taxis h = omega (
  arith,
  load_busy n taxis (λ i lt. h i (omega arith)),
  rides_busy (taxis n).state (h n (omega arith)),
)
