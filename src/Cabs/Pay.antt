-- ===== src/Cabs/Pay.antt =====
-- Payments of A4/q3: `makePayment` and `madePayment` of rider.c, and the loop of `initServer` in
-- server.c.
pub mod Pile
pub mod Kept
pub mod Tests
use oscassignments.Base.{
  ltb, not, ℕ, zero, suc, ◌+◌, ◌-◌, ◌≤◌, ◌≡◌, Option, none, some, ◌==◌, if◌then◌else◌, update, List,
  [], ◌∷◌,
}
use oscassignments.Cabs.Types.{Desk}

-- A round of a server's loop: he waits at the semaphore, ends, or takes a rider's payment.
-- `fault` is a null pointer followed, or an index out of the array.
pub data Served : Type 0 where
  blocks : Served
  closes : Desk → Served
  serves : ℕ → Desk → Served
  fault : Served

-- `makePayment` up to its lock, and under it.
abbrev pub post : Desk → Desk
post d = record d { servers_open = d.servers_open + 1 }

-- A write outside the array is `none`.
unfoldable pub add_payment : ℕ → Desk → Option Desk
add_payment rider d =
    if ltb d.riders_paying_count d.riders_count
    then some (record d {
      riders_paying = update d.riders_paying d.riders_paying_count (some rider);
      riders_paying_count = d.riders_paying_count + 1;
    })
    else none

-- `madePayment`
abbrev pub made_payment : Desk → Desk
made_payment d = record d { riders_left_to_exit = d.riders_left_to_exit - 1 }

-- The part of the server's loop under `checkPayment`.
unfoldable pub take_payment : Desk → Served
take_payment d = if not (ltb 0 d.riders_count) then fault else elim (d.riders_paying 0) [
  | none ↦ closes d
  | some _ ↦ elim (d.riders_paying_count) [
    | zero ↦ fault
    | suc n ↦ if not (ltb n d.riders_count) then fault else elim (d.riders_paying n) [
      | none ↦ fault
      | some r ↦
          serves r
            (record d { riders_paying = update d.riders_paying n none; riders_paying_count = n })
    ]
  ]
]

unfoldable pub serve : Desk → Served
serve d =
    if d.servers_open == 0
    then blocks
    else (let d1 = record d { servers_open = d.servers_open - 1 } in
        if d.riders_left_to_exit == 0 then closes d1 else take_payment d1)

-- The state that `main` sets up.
abbrev pub empty_desk : ℕ → Desk
empty_desk riders = record {
  servers_open = 0;
  riders_count = riders;
  riders_paying = λ i. none;
  riders_paying_count = 0;
  riders_left_to_exit = riders;
}

-- What the threads of riders and servers, and `main` at its end, make of the desk, with the riders
-- that have put themselves down for payment and those that have been served, the last one first.
-- Each of the riders leaves once, so the count of those left does not go below zero.
-- A server between two rounds, and a rider who is served, hold no lock: their moves come in any order.
pub data Day (riders : ℕ) : Desk → List ℕ → List ℕ → Type 0 where
  opens : Day riders (empty_desk riders) [] []
  posts :
      (d : Desk) (added served : List ℕ)
      → Day riders d added served
      → Day riders (post d) added served
  adds :
      (d d' : Desk) (added served : List ℕ) (r : ℕ)
      → Day riders d added served
      → add_payment r d ≡ some d'
      → Day riders d' (r ∷ added) served
  takes :
      (d d' : Desk) (added served : List ℕ) (r : ℕ)
      → Day riders d added served
      → serve d ≡ serves r d'
      → Day riders d' added (r ∷ served)
  ends :
      (d d' : Desk) (added served : List ℕ)
      → Day riders d added served
      → serve d ≡ closes d'
      → Day riders d' added served
  leaves :
      (d : Desk) (added served : List ℕ)
      → Day riders d added served
      → 1 ≤ d.riders_left_to_exit
      → Day riders (made_payment d) added served
