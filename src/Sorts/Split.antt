-- ===== src/Sorts/Split.antt =====
-- What `partition` of A4/q1/q1.c leaves.
use oscassignments.Base.{
  ℕ, zero, suc, ◌+◌, ◌-◌, ◌≤◌, ◌<◌, ◌≡◌, ◌≢◌, refl, arith, Bool-cases, inl, inr, leb, update,
  update_self, update_ne, ◌∙◌, ltb, ltb→lt,
}
use native.Mathlib.Decide.{ℕ_discrete}
use oscassignments.Base.Int.{ℤ, ◌≤ℤ◌}
use oscassignments.Sorts.Array.{Array, swap, Rearranged, same, swapped, Rearranged-trans}
use oscassignments.Sorts.Partition.{up, down, part, partition, up_lem, down_lem}

module _ (l e : ℕ) (pivot : ℤ) where
  abbrev pub Low : Array → ℕ → Type 0
  Low a i = (m : ℕ) → l ≤ m → m < i → a m ≤ℤ pivot

  abbrev pub High : Array → ℕ → Type 0
  High a top = (m : ℕ) → top ≤ m → m < e → pivot ≤ℤ a m

  -- The part is split at `top` into two of which the first is not empty: values up to the pivot, and
  -- values from it on.
  pub record Split (a : Array) (top : ℕ) (b : Array) : Type 0 where
    pub some_low : l < top
    pub in_part : top ≤ e
    pub moved : Rearranged l e a b
    pub low : Low b top
    pub high : High b top

  -- The state of the outer loop before a round.
  record Going (a : Array) (i top : ℕ) : Type 0 where
    from : l ≤ i
    to : top ≤ e
    low : Low a i
    high : High a top
    up_stop : ℕ
    up_in : (i ≤ up_stop) × (up_stop < e) × (pivot ≤ℤ a up_stop)
    down_stop : ℕ
    down_in : (l ≤ down_stop) × (down_stop < top) × (a down_stop ≤ℤ pivot)

  record Round (a : Array) (i top i1 top1 : ℕ) : Type 0 where
    from : l ≤ i1
    to : top1 ≤ e
    some_low : l < top1
    low : Low a i1
    high : High a top1
    at_up : pivot ≤ℤ a i1
    at_down : a (top1 - 1) ≤ℤ pivot
    further : i ≤ i1

  round_lem :
      (a : Array) (i top : ℕ)
      → Going a i top
      → Round a i top (up (e - i) a e pivot i) (down (top - l) a l pivot top)
  round_lem a i top g =
      let (u0, u1, u2) = g.up_in in
      let (d0, d1, d2) = g.down_in in
      let (ui, uk, up_at, below) = up_lem (e - i) a e pivot i g.up_stop u0 u1 u2 (omega arith) in
      let (dt, dk, down_at, above) =
        down_lem (top - l) a l pivot top g.down_stop d0 d1 d2 (omega arith) in
      record {
        from = omega (arith, g.from);
        to = omega (arith, g.to);
        some_low = omega arith;
        low = λ m lo hi. elim (Bool-cases (ltb m i)) [
          | inl lt ↦ g.low m lo (ltb→lt m i lt)
          | inr ge ↦ below m (ground arith) hi
        ];
        high = λ m lo hi. elim (Bool-cases (ltb m top)) [
          | inl lt ↦ above m lo (ltb→lt m top lt)
          | inr ge ↦ g.high m (ground arith) hi
        ];
        at_up = up_at;
        at_down = down_at;
        further = ui;
      }

  -- The counters have met.
  met-Split :
      (a : Array) (i top i1 top1 : ℕ) → Round a i top i1 top1 → top1 ≤ i1 + 1 → Split a top1 a
  met-Split a i top i1 top1 r le = record {
    some_low = r.some_low;
    in_part = r.to;
    moved = same a;
    low = λ m lo hi. elim (ℕ_discrete m (top1 - 1)) [
      | yes s ↦ rw s (r.at_down)
      | no o ↦ r.low m lo (omega arith)
    ];
    high = r.high;
  }

  -- They have not, and the two values are swapped.
  swap-Going :
      (a : Array) (i top i1 top1 : ℕ)
      → Round a i top i1 top1
      → i1 + 1 < top1
      → Going (swap a i1 (top1 - 1)) (i1 + 1) (top1 - 1)
  swap-Going a i top i1 top1 r lt =
      let j = top1 - 1 in
      let i_j : i1 ≢ j = λ s. omega arith in
      let at_i : swap a i1 j i1 ≡ a j =
        update_ne (update a i1 (a j)) j (a i1) i1 i_j ∙ update_self a i1 (a j) in
      let at_j : swap a i1 j j ≡ a i1 = update_self (update a i1 (a j)) j (a i1) in
      record {
        from = omega (arith, r.from);
        to = omega (arith, r.to);
        low = λ m lo hi. elim (ℕ_discrete m i1) [
          | yes s ↦ rw (s, at_i) (r.at_down)
          | no o ↦
              rw
                (
                  update_ne (update a i1 (a j)) j (a i1) m (λ s. omega arith),
                  update_ne a i1 (a j) m o,
                )
                (r.low m lo (omega arith))
        ];
        high = λ m lo hi. elim (ℕ_discrete m j) [
          | yes s ↦ rw (s, at_j) (r.at_up)
          | no o ↦
              rw
                (
                  update_ne (update a i1 (a j)) j (a i1) m o,
                  update_ne a i1 (a j) m (λ s. omega arith),
                )
                (r.high m (omega arith) hi)
        ];
        up_stop = j;
        up_in = (omega arith, omega (arith, r.to), rw at_j (r.at_up));
        down_stop = i1;
        down_in = (r.from, omega arith, rw at_i (r.at_down));
      }

  Split-earlier : (a b c : Array) (top : ℕ) → Rearranged l e a b → Split b top c → Split a top c
  Split-earlier a b c top r s = record {
    some_low = s.some_low;
    in_part = s.in_part;
    moved = Rearranged-trans l e a b c r s.moved;
    low = s.low;
    high = s.high;
  }

  part_lem :
      (f : ℕ) (a : Array) (i top : ℕ)
      → Going a i top
      → e < i + f
      → (top' : ℕ) × (b : Array) × (part f a l e pivot i top ≡ (top', b)) × Split a top' b
  unfolding part
  part_lem zero a i top g ef = absurd (let (u0, u1, u2) = g.up_in in omega arith)
  part_lem (suc f) a i top g ef =
      let i1 = up (e - i) a e pivot i in
      let top1 = down (top - l) a l pivot top in
      let r = round_lem a i top g in
      elim (Bool-cases (leb top1 (i1 + 1))) [
        | inl met ↦ (top1, a, rw met refl, met-Split a i top i1 top1 r (ground arith))
        | inr apart ↦
            let lt : i1 + 1 < top1 = ground arith in
            let b = swap a i1 (top1 - 1) in
            let (top', c, eq, s) =
              part_lem f b (i1 + 1) (top1 - 1) (swap-Going a i top i1 top1 r lt)
                (omega (arith, r.further)) in
            (
              top',
              c,
              rw apart eq,
              Split-earlier a b c top'
                  (swapped a b i1 (top1 - 1) r.from (omega (arith, r.to)) (omega (arith, r.from))
                    (omega (arith, r.to)) (same b))
                  s,
            )
      ]

-- `partition` ends, and returns the last index of a first piece of the part that is not empty: it
-- has swapped values within the part, those of the first piece are at most the pivot, and the
-- others at least the pivot.
pub partition_lem :
    (idx : ℕ) (a : Array) (l e : ℕ)
    → l + idx < e
    → (top : ℕ) × (b : Array) × (partition idx a l e ≡ (top, b)) × Split l e (a (l + idx)) a top b
unfolding partition
partition_lem idx a l e in_part =
    part_lem l e (a (l + idx)) (e - l + 1) a l e
      (record {
        from = omega arith;
        to = omega arith;
        low = λ m lo hi. absurd (omega arith);
        high = λ m lo hi. absurd (omega arith);
        up_stop = l + idx;
        up_in = (omega arith, in_part, omega arith);
        down_stop = l + idx;
        down_in = (omega arith, in_part, omega arith);
      })
      (omega arith)
