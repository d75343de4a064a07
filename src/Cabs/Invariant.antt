-- ===== src/Cabs/Invariant.antt =====
-- When the table of A4/q3 agrees with the threads of its riders, and what a move of one thread leaves
-- as it is.
use oscassignments.Base.{
  ℕ, ◌+◌, ◌<◌, ◌≡◌, ◌≢◌, ◌⊎◌, inl, inr, Option, some, none, sym, ◌∙◌, update, update_self,
  update_ne,
}
use mathlib.Core.Path.{subst}
use native.Mathlib.Decide.{ℕ_discrete}
use oscassignments.Cabs.Types.{RideType}
use oscassignments.Cabs.System.{Phase, System, riding}
use oscassignments.Cabs.Load.{load}
use oscassignments.Cabs.Seats.{CabCrew}
use oscassignments.Cabs.Crew.{Crew-same}

abbrev pub In : (ℕ → Phase) → ℕ → ℕ → Type 0
In phase i r = phase r ≡ riding i

-- What a rider waits for in each phase.
abbrev pub wish : RideType → Phase → Option RideType
wish type Phase.waiting = some type
wish type _ = none

-- The table agrees with the threads: each cab's state and riders with those who sit in it,
-- `isWaiting` with those who wait, and `totalCabsOpen` with the rides.
pub record Consistent (s : System) : Type 0 where
  pub crews :
      (i : ℕ) → i < s.city.cabs_count → CabCrew s.city.cab_type (In s.phase i) (s.city.taxis i)
  pub in_taxis : (r i : ℕ) → In s.phase i r → i < s.city.cabs_count
  pub wishes : (r : ℕ) → s.city.is_waiting r ≡ wish (s.city.cab_type r) (s.phase r)
  pub count : s.city.total_cabs_open + load s.city.cabs_count s.city.taxis ≡ s.city.cabs_count

module _ (phase : ℕ → Phase) (r : ℕ) (p : Phase) (i : ℕ) where
  pub stays : phase r ≢ riding i → (q : ℕ) → In phase i q → In (update phase r p) i q
  stays off q h = elim (ℕ_discrete q r) [
    | yes same ↦ absurd (off (subst (In phase i) same h))
    | no other ↦ update_ne phase r p q other ∙ h
  ]

  pub was_riding : p ≢ riding i → (q : ℕ) → In (update phase r p) i q → In phase i q
  was_riding off q h = elim (ℕ_discrete q r) [
    | yes same ↦ absurd (off (sym (update_self phase r p) ∙ subst (In (update phase r p) i) same h))
    | no other ↦ sym (update_ne phase r p q other) ∙ h
  ]

  pub was_riding_or : (q : ℕ) → In (update phase r p) i q → In phase i q ⊎ (q ≡ r)
  was_riding_or q h = elim (ℕ_discrete q r) [
    | yes same ↦ inr same
    | no other ↦ inl (sym (update_ne phase r p q other) ∙ h)
  ]

  pub riding_or : (q : ℕ) → In phase i q → In (update phase r p) i q ⊎ (q ≡ r)
  riding_or q h = elim (ℕ_discrete q r) [
    | yes same ↦ inr same
    | no other ↦ inl (update_ne phase r p q other ∙ h)
  ]

-- Where a thread neither boards nor leaves a cab the crews are the same.
module _ (s : System) (h : Consistent s) (r : ℕ) (p : Phase) where
  pub crews_same :
      ((i : ℕ) → s.phase r ≢ riding i)
      → ((i : ℕ) → p ≢ riding i)
      → (i : ℕ) → i < s.city.cabs_count
      → CabCrew s.city.cab_type (In (update s.phase r p) i) (s.city.taxis i)
  crews_same off off' i lt =
      let cab = s.city.taxis i in
      Crew-same s.city.cab_type (In s.phase i) (In (update s.phase r p) i)
        (stays s.phase r p i (off i)) (was_riding s.phase r p i (off' i)) cab.state cab.rider1
        cab.rider2 (h.crews i lt)

  -- `isWaiting` of the thread that moves is set to its wish.
  pub wishes_same :
      (w : Option RideType)
      → w ≡ wish (s.city.cab_type r) p
      → (q : ℕ) → update s.city.is_waiting r w q ≡ wish (s.city.cab_type q) (update s.phase r p q)
  wishes_same w e q = elim (ℕ_discrete q r) [
    | yes same ↦ rw (same, update_self s.city.is_waiting r w, update_self s.phase r p) e
    | no other ↦
        rw (update_ne s.city.is_waiting r w q other, update_ne s.phase r p q other) (h.wishes q)
  ]

  -- The wish is none before and after.
  pub wishes_none :
      wish (s.city.cab_type r) (s.phase r) ≡ none
      → wish (s.city.cab_type r) p ≡ none
      → (q : ℕ) → s.city.is_waiting q ≡ wish (s.city.cab_type q) (update s.phase r p q)
  wishes_none e e' q = elim (ℕ_discrete q r) [
    | yes same ↦ rw (same, update_self s.phase r p) (h.wishes r ∙ e ∙ sym e')
    | no other ↦ rw (update_ne s.phase r p q other) (h.wishes q)
  ]
