-- ===== src/Cabs/Tests.antt =====
-- The theorems on A4/q3 at a concrete run: three cabs, and four riders, of whom the first and the
-- last want to go alone.
use oscassignments.Base.{
  ◌||◌, ℕ, ◌≡◌, ◌≢◌, Option, some, none, refl, arith, ◌==◌, if◌then◌else◌, find_first,
}
use oscassignments.Cabs.Types.{RideType, pool, premier, City}
use oscassignments.Cabs.Ride.{
  Booked, acquired, waits, aborts, book_cab, find_cab, stop_waiting, left_cab, next_waiting,
  end_ride, initial,
}
use oscassignments.Cabs.System.{
  System, Reachable, about_to_book, waiting, riding, go_on, books, begins_to_wait, begin, next,
}
use oscassignments.Cabs.Invariant.{Consistent}
use oscassignments.Cabs.Runs.{Reachable-Consistent}
use oscassignments.Cabs.Promise.{book_cab_never_aborts, signalled_gets_cab}

abbrev types : ℕ → RideType
types r = if r == 0 || r == 3 then premier else pool

abbrev start : System
start = record { city = initial 3 4 types; phase = λ r. about_to_book }

-- What a rider's booking makes of a state.
abbrev city_after : City → Booked → City
city_after d (acquired i c) = c
city_after d (waits c) = c
city_after d aborts = d

abbrev first : Booked
unfolding book_cab find_cab find_first
first = book_cab 0 start.city

abbrev one_rides : System
one_rides = go_on (city_after start.city first) start.phase 0 (riding 0)

one_books : book_cab 0 start.city ≡ acquired 0 one_rides.city
unfolding book_cab find_cab find_first
one_books = refl

abbrev second : Booked
unfolding book_cab find_cab find_first
second = book_cab 1 one_rides.city

abbrev two_ride : System
two_ride = go_on (city_after one_rides.city second) one_rides.phase 1 (riding 1)

two_books : book_cab 1 one_rides.city ≡ acquired 1 two_ride.city
unfolding book_cab find_cab find_first
two_books = refl

abbrev third : Booked
unfolding book_cab find_cab find_first
third = book_cab 2 two_ride.city

abbrev three_ride : System
three_ride = go_on (city_after two_ride.city third) two_ride.phase 2 (riding 1)

-- The third rider shares the cab of the second.
three_books : book_cab 2 two_ride.city ≡ acquired 1 three_ride.city
unfolding book_cab find_cab find_first
three_books = refl

abbrev fourth : Booked
unfolding book_cab find_cab find_first
fourth = book_cab 3 three_ride.city

abbrev one_waits : System
one_waits = go_on (city_after three_ride.city fourth) three_ride.phase 3 waiting

-- Three rides are under way, so the fourth rider waits, though the third cab is free.
four_waits : book_cab 3 three_ride.city ≡ waits one_waits.city
unfolding book_cab find_cab find_first
four_waits = refl

one_waits-Reachable : Reachable 3 4 types one_waits
unfolding first second third
one_waits-Reachable =
    next three_ride one_waits
      (next two_ride three_ride
        (next one_rides two_ride
          (next start one_rides begin (books start 0 0 one_rides.city (omega arith) refl one_books))
          (books one_rides 1 1 two_ride.city (omega arith) refl two_books))
        (books two_ride 2 1 three_ride.city (omega arith) refl three_books))
      (begins_to_wait three_ride 3 one_waits.city (omega arith) refl four_waits)

reachable_example : Consistent one_waits
reachable_example = Reachable-Consistent 3 4 types one_waits one_waits-Reachable

book_cab_example : book_cab 3 one_waits.city ≢ aborts
book_cab_example = book_cab_never_aborts 3 4 types one_waits one_waits-Reachable 3

abbrev city_of : Option (Option ℕ × City) → City
city_of none = one_waits.city
city_of (some (j, c)) = c

abbrev ended : Option (Option ℕ × City)
unfolding end_ride next_waiting left_cab fourth third second first
ended = end_ride 0 0 one_waits.city

-- The end of the premier ride signals the rider who waits.
ended_eq : end_ride 0 0 one_waits.city ≡ some (some 3, city_of ended)
unfolding end_ride next_waiting left_cab fourth third second first
ended_eq = refl

abbrev signalled_by : Option (Option ℕ × City) → Option ℕ
signalled_by none = none
signalled_by (some (j, c)) = j

-- The end of a pool ride signals nobody, though a cab is open then and the third cab is free.
nobody_signalled : signalled_by (end_ride 1 1 one_waits.city) ≡ none
unfolding end_ride next_waiting left_cab fourth third second first
nobody_signalled = refl

signalled_example :
    (k : ℕ) × (c' : City) × (book_cab 3 (stop_waiting 3 (city_of ended)) ≡ acquired k c')
signalled_example =
    signalled_gets_cab 3 4 types one_waits one_waits-Reachable 0 0 3 (city_of ended) refl ended_eq
