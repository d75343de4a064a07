-- ===== src/Cabs/Pay/Tests.antt =====
-- The theorems on payments at a concrete run: one rider, who is served.
use oscassignments.Base.{ℕ, ◌≤◌, length, ◌⊎◌, Option, none, some, ◌≡◌, ◌≢◌, refl, [], ◌∷◌}
use oscassignments.Cabs.Types.{Desk}
use oscassignments.Cabs.Pay.{
  Served, closes, serves, fault, post, add_payment, take_payment, serve, empty_desk, Day, opens,
  posts, adds, takes,
}
use oscassignments.Cabs.Pay.Kept.{Kept, Day-Kept, serve_never_faults}

abbrev or_start : Option Desk → Desk
or_start none = empty_desk 1
or_start (some d) = d

abbrev waiting_desk : Desk
unfolding add_payment
waiting_desk = or_start (add_payment 0 (post (empty_desk 1)))

abbrev desk_after : Desk → Served → Desk
desk_after d (serves r d') = d'
desk_after d (closes d') = d'
desk_after d _ = d

abbrev served_desk : Desk
unfolding serve take_payment waiting_desk
served_desk = desk_after waiting_desk (serve waiting_desk)

serves_rider : serve waiting_desk ≡ serves 0 served_desk
unfolding serve take_payment waiting_desk
serves_rider = refl

-- A rider who has posted, and has not put himself down yet, makes a server end.
ends_early : serve (post (empty_desk 1)) ≡ closes (empty_desk 1)
unfolding serve take_payment
ends_early = refl

one_served : Day 1 served_desk (0 ∷ []) (0 ∷ [])
unfolding waiting_desk add_payment
one_served =
    takes waiting_desk served_desk (0 ∷ []) [] 0
      (adds (post (empty_desk 1)) waiting_desk [] [] 0 (posts (empty_desk 1) [] [] opens) refl)
      serves_rider

day_example : Kept 1 served_desk (0 ∷ []) (0 ∷ [])
day_example = Day-Kept 1 served_desk (0 ∷ []) (0 ∷ []) one_served

serve_example :
    (serve served_desk ≢ fault)
    × ((r : ℕ)
        → (1 ≤ length {A = ℕ} (0 ∷ [])) ⊎ ((d' : Desk) × (add_payment r served_desk ≡ some d')))
serve_example = serve_never_faults 1 served_desk (0 ∷ []) (0 ∷ []) one_served
