-- ===== src/Cabs/System.antt =====
-- The riders' threads of A4/q3 as steps: each step is what one thread does while it holds
-- `checkCab`.
use oscassignments.Base.{ℕ, ◌<◌, ◌≡◌, Option, some, update}
use oscassignments.Cabs.Types.{RideType, City}
use oscassignments.Cabs.Ride.{Booked, book_cab, stop_waiting, end_ride, initial}

-- Where a rider's thread stands: before `bookCab`, in `pthread_cond_timedwait`, between the booking
-- of `usedCab` and its `endRide`, after the ride, or after a wait that timed out.
pub data Phase : Type 0 where
  about_to_book : Phase
  waiting : Phase
  riding : ℕ → Phase
  has_left : Phase
  gave_up : Phase

pub record System : Type 0 where
  pub city : City
  pub phase : ℕ → Phase

abbrev pub go_on : City → (ℕ → Phase) → ℕ → Phase → System
go_on c phase r p = record { city = c; phase = update phase r p }

pub data Step : System → System → Type 0 where
  books :
      (s : System) (r i : ℕ) (c : City)
      → r < s.city.riders_count
      → s.phase r ≡ about_to_book
      → book_cab r s.city ≡ Booked.acquired i c
      → Step s (go_on c s.phase r (riding i))
  begins_to_wait :
      (s : System) (r : ℕ) (c : City)
      → r < s.city.riders_count
      → s.phase r ≡ about_to_book
      → book_cab r s.city ≡ Booked.waits c
      → Step s (go_on c s.phase r waiting)
  wakes :
      (s : System) (r : ℕ)
      → s.phase r ≡ waiting
      → Step s (go_on (stop_waiting r s.city) s.phase r about_to_book)
  times_out :
      (s : System) (r : ℕ)
      → s.phase r ≡ waiting
      → Step s (go_on (stop_waiting r s.city) s.phase r gave_up)
  ends :
      (s : System) (r i : ℕ) (signalled : Option ℕ) (c : City)
      → s.phase r ≡ riding i
      → end_ride i r s.city ≡ some (signalled, c)
      → Step s (go_on c s.phase r has_left)

-- The states that the program comes to from `main`.
pub data Reachable (cabs riders : ℕ) (types : ℕ → RideType) : System → Type 0 where
  begin :
      Reachable cabs riders types
        (record { city = initial cabs riders types; phase = λ r. about_to_book })
  next : (s t : System) → Reachable cabs riders types s → Step s t → Reachable cabs riders types t
