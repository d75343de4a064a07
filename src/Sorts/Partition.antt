-- ===== src/Sorts/Partition.antt =====
-- `partition` of A4/q1/q1.c. The counter `j` may be -1 in the source; here `top` is `j + 1`.
use oscassignments.Base.{
  ℕ, zero, suc, ◌+◌, ◌-◌, ◌≤◌, ◌<◌, ◌≡◌, true, arith, if◌then◌else◌, Bool-cases, inl, inr, ltb, leb,
  ◌&&◌, ◌≢◌,
}
use native.Mathlib.Decide.{ℕ_discrete}
use mathlib.Core.Path.{subst}
use oscassignments.Base.Int.{ℤ, ◌≤ℤ◌, ltb_ℤ}
use oscassignments.Sorts.Array.{Array, swap}

-- The loop that raises `i`, from `i` on; the fuel is more than the rounds that it makes.
unfoldable pub up : ℕ → Array → (e : ℕ) → (pivot : ℤ) → ℕ → ℕ
up zero arr e pivot i = i
up (suc f) arr e pivot i =
    let rest = up f arr e pivot (i + 1) in if ltb i e && ltb_ℤ (arr i) pivot then rest else i

-- The loop that lowers `j`, from `top - 1` on.
unfoldable pub down : ℕ → Array → (l : ℕ) → (pivot : ℤ) → ℕ → ℕ
down zero arr l pivot top = top
down (suc f) arr l pivot top =
    let rest = down f arr l pivot (top - 1) in
    if ltb l top && ltb_ℤ pivot (arr (top - 1)) then rest else top

-- The outer loop, with the next values of `i` and of `j + 1`; what is returned, plus one.
unfoldable pub part : ℕ → Array → (l e : ℕ) → (pivot : ℤ) → (i top : ℕ) → ℕ × Array
part zero arr l e pivot i top = (top, arr)
part (suc f) arr l e pivot i top =
    let i1 = up (e - i) arr e pivot i in
    let top1 = down (top - l) arr l pivot top in
    let rest = part f (swap arr i1 (top1 - 1)) l e pivot (i1 + 1) (top1 - 1) in
    if leb top1 (i1 + 1) then (top1, arr) else rest

-- `idx` is `rand() % len`.
unfoldable pub partition : (idx : ℕ) → Array → (l e : ℕ) → ℕ × Array
partition idx arr l e = part (e - l + 1) arr l e (arr (l + idx)) l e

-- `up` stops at the first value from `i` on that is not less than the pivot, which is `k` at last.
pub up_lem :
    (f : ℕ) (a : Array) (e : ℕ) (pivot : ℤ) (i k : ℕ)
    → i ≤ k
    → k < e
    → pivot ≤ℤ a k
    → k ≤ i + f
    → (i ≤ up f a e pivot i)
      × (up f a e pivot i ≤ k)
      × (pivot ≤ℤ a (up f a e pivot i))
      × ((m : ℕ) → i ≤ m → m < up f a e pivot i → a m ≤ℤ pivot)
unfolding up
up_lem zero a e pivot i k ik ke pk kf = (
  omega arith,
  omega arith,
  let s : k ≡ i = omega arith in rw (← s) pk,
  λ m lo hi. absurd (omega arith),
)
up_lem (suc f) a e pivot i k ik ke pk kf = elim (Bool-cases (ltb_ℤ (a i) pivot)) [
  | inl less ↦
      let inside : ltb i e ≡ true = ground arith in
      let past : k ≢ i = λ s. let x = subst (λ j. pivot ≤ℤ a j) s pk in ground arith in
      let (lo, hi, pv, below) = up_lem f a e pivot (i + 1) k (omega arith) ke pk (omega arith) in
      rw (inside, less)
        (
          omega arith,
          hi,
          pv,
          λ m lo' hi'. elim (ℕ_discrete m i) [
            | yes s ↦ rw s (ground arith)
            | no o ↦ below m (omega arith) hi'
          ],
        )
  | inr more ↦
      let inside : ltb i e ≡ true = ground arith in
      rw (inside, more) (omega arith, ik, ground arith, λ m lo hi. absurd (omega arith))
]

-- `down` stops at the last value below `top` that is not greater than the pivot, which is at `k` at
-- the latest.
pub down_lem :
    (f : ℕ) (a : Array) (l : ℕ) (pivot : ℤ) (top k : ℕ)
    → l ≤ k
    → k < top
    → a k ≤ℤ pivot
    → top ≤ k + 1 + f
    → (down f a l pivot top ≤ top)
      × (k < down f a l pivot top)
      × (a (down f a l pivot top - 1) ≤ℤ pivot)
      × ((m : ℕ) → down f a l pivot top ≤ m → m < top → pivot ≤ℤ a m)
unfolding down
down_lem zero a l pivot top k lk kt pk kf = (
  omega arith,
  kt,
  let s : k ≡ top - 1 = omega arith in rw (← s) pk,
  λ m lo hi. absurd (omega arith),
)
down_lem (suc f) a l pivot top k lk kt pk kf =
    let inside : ltb l top ≡ true = ground arith in
    elim (Bool-cases (ltb_ℤ pivot (a (top - 1)))) [
      | inl more ↦
          let past : k ≢ top - 1 = λ s. let x = subst (λ j. a j ≤ℤ pivot) s pk in ground arith in
          let (lo, hi, pv, above) =
            down_lem f a l pivot (top - 1) k lk (omega arith) pk (omega arith) in
          rw (inside, more)
            (
              omega arith,
              hi,
              pv,
              λ m lo' hi'. elim (ℕ_discrete m (top - 1)) [
                | yes s ↦ rw s (ground arith)
                | no o ↦ above m lo' (omega arith)
              ],
            )
      | inr less ↦
          rw (inside, less) (omega arith, kt, ground arith, λ m lo hi. absurd (omega arith))
    ]
