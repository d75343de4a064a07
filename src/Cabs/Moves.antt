-- ===== src/Cabs/Moves.antt =====
-- Each move of a thread of A4/q3 keeps the table and the threads in agreement.
use oscassignments.Base.{
  ℕ, ◌+◌, ◌-◌, ◌≤◌, ◌<◌, ◌≡◌, ◌≢◌, ◌⊎◌, inl, inr, Option, some, refl, ap, arith, sym, ◌∙◌, true,
  false, update, update_self, update_ne, ltb, ltb→lt, Bool-cases, ◌%◌,
}
use mathlib.Core.Path.{subst}
use native.Mathlib.Decide.{ℕ_discrete}
use oscassignments.Cabs.Types.{RideType, Cab, City, is_free}
use oscassignments.Cabs.Ride.{
  Booked, acquired, waits, book_cab, find_cab, left_cab, next_waiting, end_ride, set_cab,
}
use oscassignments.Cabs.System.{Phase, System, about_to_book, riding, has_left, go_on}
use oscassignments.Cabs.Load.{rides, load, load-update}
use oscassignments.Cabs.Board.{Boards, Boards-rides, find_cab-Boarded}
use oscassignments.Cabs.Seats.{Crew-Boards, Crew-leaves, busy}
use oscassignments.Cabs.Crew.{Crew-same}
use oscassignments.Cabs.Invariant.{
  In, wish, Consistent, stays, was_riding, was_riding_or, riding_or, crews_same, wishes_same,
  wishes_none,
}

abbrev pub took : ℕ → Cab → City → City
took i cab c = record (set_cab i cab c) { total_cabs_open = c.total_cabs_open - 1 }

abbrev pub queued : ℕ → City → City
queued r c = record c { is_waiting = update c.is_waiting r (some (c.cab_type r)) }

-- What `bookCab` comes to: a cab while one is open, else a wait.
abbrev pub BookCases : ℕ → City → Type 0
BookCases r c =
    ((i : ℕ) × (cab : Cab) × (book_cab r c ≡ acquired i (took i cab c))
      × (1 ≤ c.total_cabs_open)
      × (i < c.cabs_count)
      × Boards r (c.taxis i) (c.cab_type r) cab)
    ⊎ ((book_cab r c ≡ waits (queued r c)) × (c.total_cabs_open ≡ 0))

found_book :
    (r : ℕ) (c : City) {i : ℕ} {c1 : City}
    → ltb 0 c.total_cabs_open ≡ true
    → find_cab r c ≡ some (i, c1)
    → book_cab r c ≡ acquired i (record c1 { total_cabs_open = c1.total_cabs_open - 1 })
unfolding book_cab
found_book r c some_open e = rw (some_open, e) refl

pub book_cab_cases :
    (r : ℕ) (c : City)
    → c.total_cabs_open + load c.cabs_count c.taxis ≡ c.cabs_count
    → BookCases r c
unfolding book_cab
book_cab_cases r c count = elim (Bool-cases (ltb 0 c.total_cabs_open)) [
  | inl some_open ↦
      let positive = ltb→lt 0 c.total_cabs_open some_open in
      let (i, cab, e, lt, b) = find_cab-Boarded c r (omega arith) count in
      inl (i, cab, found_book r c some_open e, omega arith, lt, b)
  | inr closed ↦ inr (rw closed refl, ground arith)
]

abbrev seat : Booked → ℕ
seat (acquired i c) = i
seat _ = 0

abbrev table : City → Booked → City
table d (acquired i c) = c
table d (waits c) = c
table d _ = d

pub acquired-inj : (i j : ℕ) (c d : City) → acquired i c ≡ acquired j d → (i ≡ j) × (c ≡ d)
acquired-inj i j c d e = (ap seat e, ap (table c) e)

pub books-Consistent :
    (s : System) (r i : ℕ) (cab : Cab)
    → Consistent s
    → s.phase r ≡ about_to_book
    → 1 ≤ s.city.total_cabs_open
    → i < s.city.cabs_count
    → Boards r (s.city.taxis i) (s.city.cab_type r) cab
    → Consistent (go_on (took i cab s.city) s.phase r (riding i))
books-Consistent s r i cab h e some_open lt b =
    let off : (j : ℕ) → s.phase r ≢ riding j = λ j x. ground arith in
    record {
      crews = λ j jt. elim (ℕ_discrete j i) [
        | yes same ↦
            rw (same, update_self s.city.taxis i cab)
              (Crew-Boards s.city.cab_type (In s.phase i) (In (update s.phase r (riding i)) i) r
                (s.city.taxis i) cab (s.city.cab_type r) refl (off i)
                (update_self s.phase r (riding i)) (stays s.phase r (riding i) i (off i))
                (was_riding_or s.phase r (riding i) i) b (h.crews i lt))
        | no other ↦
            let old = s.city.taxis j in
            rw (update_ne s.city.taxis i cab j other) (
              Crew-same s.city.cab_type (In s.phase j) (In (update s.phase r (riding i)) j)
                (stays s.phase r (riding i) j (off j))
                (was_riding s.phase r (riding i) j (λ x. ground arith)) old.state old.rider1
                old.rider2 (h.crews j jt))
      ];
      in_taxis = λ q j x. elim (was_riding_or s.phase r (riding i) j q x) [
        | inl y ↦ h.in_taxis q j y
        | inr same ↦
            let same_cab : riding i ≡ riding j =
              sym (update_self s.phase r (riding i))
              ∙ subst (In (update s.phase r (riding i)) j) same x in
            ground arith
      ];
      wishes = wishes_none s h r (riding i) (rw e refl) refl;
      count = omega (
        arith,
        load-update s.city.cabs_count s.city.taxis i cab lt,
        Boards-rides r (s.city.taxis i) cab (s.city.cab_type r) b,
        h.count,
      );
    }

abbrev pub after_ride : ℕ → ℕ → City → City
after_ride i r c = record (set_cab i (left_cab r (c.taxis i)) c) {
  total_cabs_open = c.total_cabs_open + 1;
}

pub end_ride_busy :
    (i r : ℕ) (c : City)
    → is_free (c.taxis i).state ≡ false
    → end_ride i r c
      ≡ some (
        next_waiting
            (c.riders_count + 1)
            (after_ride i r c)
            ((after_ride i r c).taxis i).state
            r
            ((r + 1) % c.riders_count),
        after_ride i r c,
      )
unfolding end_ride
end_ride_busy i r c e = rw e refl

rides_left :
    (r : ℕ) (cab : Cab)
    → is_free cab.state ≡ false
    → rides (left_cab r cab).state + 1 ≡ rides cab.state
unfolding left_cab
rides_left r cab e = ground arith

pub ends-Consistent :
    (s : System) (r i : ℕ)
    → Consistent s
    → s.phase r ≡ riding i
    → Consistent (go_on (after_ride i r s.city) s.phase r has_left)
ends-Consistent s r i h e =
    let lt = h.in_taxis r i e in
    let not_here : (j : ℕ) → has_left ≢ riding j = λ j x. ground arith in
    let not_free = busy s.city.cab_type (In s.phase i) r (s.city.taxis i) e (h.crews i lt) in
    record {
      crews = λ j jt. elim (ℕ_discrete j i) [
        | yes same ↦
            rw (same, update_self s.city.taxis i (left_cab r (s.city.taxis i)))
              (Crew-leaves s.city.cab_type (In s.phase i) (In (update s.phase r has_left) i) r e
                (λ x. not_here i (sym (update_self s.phase r has_left) ∙ x))
                (riding_or s.phase r has_left i) (was_riding s.phase r has_left i (not_here i))
                (s.city.taxis i) (h.crews i lt))
        | no other ↦
            let old = s.city.taxis j in
            rw (update_ne s.city.taxis i (left_cab r (s.city.taxis i)) j other) (
              Crew-same s.city.cab_type (In s.phase j) (In (update s.phase r has_left) j)
                (stays s.phase r has_left j (λ x. ground arith))
                (was_riding s.phase r has_left j (not_here j)) old.state old.rider1 old.rider2
                (h.crews j jt))
      ];
      in_taxis = λ q j x. h.in_taxis q j (was_riding s.phase r has_left j (not_here j) q x);
      wishes = wishes_none s h r has_left (rw e refl) refl;
      count = omega (
        arith,
        load-update s.city.cabs_count s.city.taxis i (left_cab r (s.city.taxis i)) lt,
        rides_left r (s.city.taxis i) not_free,
        h.count,
      );
    }

-- A thread that begins to wait, or ends to.
pub waits-Consistent :
    (s : System) (r : ℕ) (p : Phase) (w : Option RideType)
    → Consistent s
    → ((i : ℕ) → s.phase r ≢ riding i)
    → ((i : ℕ) → p ≢ riding i)
    → w ≡ wish (s.city.cab_type r) p
    → Consistent (go_on (record s.city { is_waiting = update s.city.is_waiting r w }) s.phase r p)
waits-Consistent s r p w h off off' e = record {
  crews = crews_same s h r p off off';
  in_taxis = λ q j x. h.in_taxis q j (was_riding s.phase r p j (off' j) q x);
  wishes = wishes_same s h r p w e;
  count = h.count;
}
