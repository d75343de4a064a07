-- ===== src/Cabs/Seats.antt =====
-- A crew of A4/q3 before and after a rider boards the cab or leaves it.
use oscassignments.Base.{ℕ, ◌≡◌, ◌≢◌, ◌⊎◌, inl, inr, refl, sym, ◌∙◌, false, eq→==, ne→==}
use mathlib.Core.Path.{subst}
use native.Mathlib.Decide.{ℕ_discrete}
use oscassignments.Cabs.Types.{RideType, CabState, Cab, is_free}
use oscassignments.Cabs.Ride.{left_cab}
use oscassignments.Cabs.Crew.{Crew}
use oscassignments.Cabs.Board.{Boards, shares, opens_pool, goes_alone}

module _ (types : ℕ → RideType) where
  abbrev pub CabCrew : (ℕ → Type 0) → Cab → Type 0
  CabCrew on cab = Crew types on cab.state cab.rider1 cab.rider2

  -- A rider who boards joins the crew.
  pub Crew-Boards :
      (on on' : ℕ → Type 0) (rider : ℕ) (old new : Cab) (type : RideType)
      → types rider ≡ type
      → ¬ on rider
      → on' rider
      → ((r : ℕ) → on r → on' r)
      → ((r : ℕ) → on' r → on r ⊎ (r ≡ rider))
      → Boards rider old type new
      → CabCrew on old
      → CabCrew on' new
  Crew-Boards on on' rider old _ _ ty off here f g (shares e) h =
      let (a, r1, t, o, only) = subst (λ st. Crew types on st old.rider1 old.rider2) e h in
      (
        a,
        rider,
        r1,
        refl,
        (λ same. off (subst on same o)),
        t,
        ty,
        f a o,
        here,
        λ r p. elim (g r p) [ inl q ↦ inl (only r q) | inr q ↦ inr q ],
      )
  Crew-Boards on on' rider old _ _ ty off here f g (opens_pool e) h =
      let nobody = subst (λ st. Crew types on st old.rider1 old.rider2) e h in
      (rider, refl, ty, here, λ r p. elim (g r p) [ inl q ↦ absurd (nobody r q) | inr q ↦ q ])
  Crew-Boards on on' rider old _ _ ty off here f g (goes_alone e) h =
      let nobody = subst (λ st. Crew types on st old.rider1 old.rider2) e h in
      (rider, refl, ty, here, λ r p. elim (g r p) [ inl q ↦ absurd (nobody r q) | inr q ↦ q ])

  module _ (on on' : ℕ → Type 0) (rider : ℕ) (was_on : on rider) (is_off : ¬ on' rider)
      (f : (r : ℕ) → on r → on' r ⊎ (r ≡ rider)) (g : (r : ℕ) → on' r → on r) where
    -- Nobody is left of a crew of one.
    nobody_left : (a : ℕ) → ((r : ℕ) → on r → r ≡ a) → (r : ℕ) → ¬ on' r
    nobody_left a only r p = is_off (subst on' (only r (g r p) ∙ sym (only rider was_on)) p)

    -- Of a crew of two the other one is left.
    other_left :
        (a b : ℕ)
        → a ≢ b
        → b ≡ rider
        → on a
        → ((r : ℕ) → on r → (r ≡ a) ⊎ (r ≡ b))
        → on' a × ((r : ℕ) → on' r → r ≡ a)
    other_left a b ne same o only = (
      elim (f a o) [ inl p ↦ p | inr e ↦ absurd (ne (e ∙ sym same)) ],
      λ r p. elim (only r (g r p)) [ inl e ↦ e | inr e ↦ absurd (is_off (subst on' (e ∙ same) p)) ],
    )

    left_state :
        (st : CabState) (cab : Cab)
        → cab.state ≡ st
        → Crew types on st cab.rider1 cab.rider2
        → CabCrew on' (left_cab rider cab)
    unfolding left_cab
    left_state CabState.wait_state cab e h = absurd (h rider was_on)
    left_state CabState.on_ride_pool_one cab e (a, r1, t, o, only) =
        rw (e, left_cab) (nobody_left a only)
    left_state CabState.on_ride_premier cab e (a, r1, t, o, only) =
        rw (e, left_cab) (nobody_left a only)
    left_state CabState.on_ride_pool_full cab e (a, b, r1, r2, ne, t, t', o, o', only) =
        elim (ℕ_discrete a rider) [
          | yes same ↦
              let (p, q) =
                other_left b a (λ s. ne (sym s)) same o'
                  (λ r x. elim (only r x) [ inl y ↦ inr y | inr y ↦ inl y ]) in
              rw (e, r1, eq→== a rider same, left_cab) (b, r2, t', p, q)
          | no other ↦
              let b_is : b ≡ rider = elim (only rider was_on) [
                | inl y ↦ absurd (other (sym y))
                | inr y ↦ sym y
              ] in
              let (p, q) = other_left a b ne b_is o only in
              rw (e, r1, ne→== a rider other, left_cab) (a, refl, t, p, q)
        ]

    -- A rider who leaves is out of the crew.
    pub Crew-leaves : (cab : Cab) → CabCrew on cab → CabCrew on' (left_cab rider cab)
    Crew-leaves cab h = left_state cab.state cab refl h

  -- A cab with somebody in it is not free.
  pub busy :
      (on : ℕ → Type 0) (rider : ℕ) (cab : Cab)
      → on rider
      → CabCrew on cab
      → is_free cab.state ≡ false
  busy on rider cab o h = by_state cab.state h
    where
      by_state : (st : CabState) → Crew types on st cab.rider1 cab.rider2 → is_free st ≡ false
      by_state CabState.wait_state k = absurd (k rider o)
      by_state CabState.on_ride_pool_one k = refl
      by_state CabState.on_ride_pool_full k = refl
      by_state CabState.on_ride_premier k = refl
