-- ===== src/Cabs/Search.antt =====
-- The search of `endRide` in A4/q3/cab.c for a rider who waits for such a cab.
use oscassignments.Base.{
  ℕ, zero, suc, ◌+◌, ◌%◌, ◌≤◌, ◌<◌, ◌≡◌, ◌≢◌, ◌⊎◌, inl, inr, Option, some, none, arith, true, false,
  ◌==◌, if◌then◌else◌, Bool-cases, ne→==, eq→==, ltb, ltb→lt,
}
use native.Mathlib.Decide.{ℕ_discrete}
use native.Mathlib.Nat.{mod_self, mod-eq_of_lt}
use oscassignments.Cabs.Types.{CabState, City, useful_cab}
use oscassignments.Cabs.Ride.{next_waiting}

-- one step round the riders
round : (j n : ℕ) → j < n → (j + 1) % n ≡ (if (j + 1) == n then 0 else j + 1)
round j n lt = elim (ℕ_discrete (j + 1) n) [
  | yes last ↦ rw (eq→== (j + 1) n last, last) (mod_self n)
  | no more ↦ rw (ne→== (j + 1) n more) (mod-eq_of_lt (omega arith))
]

module _ (c : City) (st : CabState) (rider : ℕ) where
  -- Another rider who waits for such a cab, or that there is none among those of the given range.
  abbrev pub Search : (ℕ → Type 0) → Option ℕ → Type 0
  Search range none = (m : ℕ) → range m → useful_cab (c.is_waiting m) st ≡ false
  Search range (some j) =
      (j < c.riders_count) × (j ≢ rider) × (useful_cab (c.is_waiting j) st ≡ true)

  abbrev pub Others : ℕ → Type 0
  Others m = (m < c.riders_count) × (m ≢ rider)

  abbrev From : ℕ → ℕ → Type 0
  From j m = (j ≤ m) × (m < rider)

  scan_weaken :
      (P Q : ℕ → Type 0)
      → (j : ℕ) → useful_cab (c.is_waiting j) st ≡ false
      → ((m : ℕ) → Q m → (m ≡ j) ⊎ P m)
      → (r : Option ℕ) → Search P r
      → Search Q r
  scan_weaken P Q j e f none h = λ m q. elim (f m q) [ inl same ↦ rw same e | inr p ↦ h m p ]
  scan_weaken P Q j e f (some k) h = h

  module _ (lt : rider < c.riders_count) where
    -- from a number below the rider's
    scan_below :
        (f j : ℕ) → j ≤ rider → rider < f + j → Search (From j) (next_waiting f c st rider j)
    unfolding next_waiting
    scan_below zero j le h = absurd (omega arith)
    scan_below (suc f) j le h = elim (ℕ_discrete j rider) [
      | yes same ↦ rw (eq→== j rider same, next_waiting) (λ m q. absurd (omega arith))
      | no other ↦ elim (Bool-cases (useful_cab (c.is_waiting j) st)) [
        | inl e ↦ rw (ne→== j rider other, e, next_waiting) (omega arith, other, e)
        | inr e ↦
            let step : (j + 1) % c.riders_count ≡ j + 1 = mod-eq_of_lt (omega arith) in
            rw (ne→== j rider other, e, step, next_waiting)
              (scan_weaken (From (j + 1)) (From j) j e
                (λ m q. elim (ℕ_discrete m j) [ yes s ↦ inl s | no o ↦ inr (omega arith, q.1) ])
                (next_waiting f c st rider (j + 1))
                (scan_below f (j + 1) (omega arith) (omega arith)))
      ]
    ]

    abbrev Around : ℕ → ℕ → Type 0
    Around j m = ((j ≤ m) × (m < c.riders_count)) ⊎ (m < rider)

    -- from a number above it, round to it
    scan_above :
        (f j : ℕ)
        → rider < j
        → j < c.riders_count
        → c.riders_count + rider < f + j
        → Search (Around j) (next_waiting f c st rider j)
    unfolding next_waiting
    scan_above zero j gt le h = absurd (omega arith)
    scan_above (suc f) j gt le h =
        let other : j ≢ rider = λ same. omega arith in
        elim (Bool-cases (useful_cab (c.is_waiting j) st)) [
          | inl e ↦ rw (ne→== j rider other, e, next_waiting) (le, other, e)
          | inr e ↦ elim (ℕ_discrete (j + 1) c.riders_count) [
            | yes last ↦
                let step : (j + 1) % c.riders_count ≡ 0 = rw last (mod_self c.riders_count) in
                rw (ne→== j rider other, e, step, next_waiting)
                  (scan_weaken (From 0) (Around j) j e
                    (λ m q. elim q [
                      | inl (lo, hi) ↦ inl (omega arith)
                      | inr lo ↦ inr (omega arith, lo)
                    ])
                    (next_waiting f c st rider 0) (scan_below f 0 (omega arith) (omega arith)))
            | no more ↦
                let step : (j + 1) % c.riders_count ≡ j + 1 = mod-eq_of_lt (omega arith) in
                rw (ne→== j rider other, e, step, next_waiting)
                  (scan_weaken (Around (j + 1)) (Around j) j e
                    (λ m q. elim (ℕ_discrete m j) [
                      | yes s ↦ inl s
                      | no o ↦ elim q [
                        | inl (lo, hi) ↦ inr (inl (omega arith, hi))
                        | inr lo ↦ inr (inr lo)
                      ]
                    ])
                    (next_waiting f c st rider (j + 1))
                    (scan_above f (j + 1) (omega arith) (omega arith) (omega arith)))
          ]
        ]

    scan_sub : (P Q : ℕ → Type 0) → ((m : ℕ) → Q m → P m) → (r : Option ℕ) → Search P r → Search Q r
    scan_sub P Q f none h = λ m q. h m (f m q)
    scan_sub P Q f (some j) h = h

    -- The search ends with another rider who waits for such a cab, or with none if no other rider does.
    pub next_waiting_lem :
        Search
          (λ m. (m < c.riders_count) × (m ≢ rider))
          (next_waiting (c.riders_count + 1) c st rider ((rider + 1) % c.riders_count))
    next_waiting_lem = elim (ℕ_discrete (rider + 1) c.riders_count) [
      | yes last ↦
          let step : (rider + 1) % c.riders_count ≡ 0 = rw last (mod_self c.riders_count) in
          rw step (
            scan_sub (From 0) Others (λ m q. (omega arith, omega arith)) _
              (scan_below (c.riders_count + 1) 0 (omega arith) (omega arith)))
      | no more ↦
          let step : (rider + 1) % c.riders_count ≡ rider + 1 = mod-eq_of_lt (omega arith) in
          rw step (
            scan_sub (Around (rider + 1)) Others
              (λ m q. elim (ℕ_discrete m rider) [
                | yes same ↦ absurd (q.1 same)
                | no other ↦ elim (Bool-cases (ltb m rider)) [
                  | inl lo ↦ inr (ltb→lt m rider lo)
                  | inr hi ↦ inl (ground arith, q.0)
                ]
              ])
              _
              (scan_above (c.riders_count + 1) (rider + 1) (omega arith) (omega arith)
                (omega arith)))
    ]
