-- ===== src/Sorts/Insertion.antt =====
-- `insertionSort` of A4/q1/q1.c.
use oscassignments.Base.{
  ℕ, zero, suc, ◌+◌, ◌-◌, ◌≤◌, ◌<◌, ◌≡◌, arith, if◌then◌else◌, Bool-cases, inl, inr, update,
  update_self, update_ne, ◌∙◌, ◌≢◌, ltb,
}
use native.Mathlib.Decide.{ℕ_discrete}
use oscassignments.Base.Int.{◌≤ℤ◌, ltb_ℤ}
use oscassignments.Sorts.Array.{
  Array, swap, Rearranged, same, swapped, Rearranged-trans, IsSorted, Rearranged-outside,
  Rearranged-widen, Rearranged-all,
}

-- the body of the inner loop
abbrev pub put_less : Array → ℕ → ℕ → Array
put_less arr i j = if ltb_ℤ (arr j) (arr i) then swap arr i j else arr

-- The inner loop, `n` rounds from `j` on.
unfoldable pub inner : ℕ → Array → (i j : ℕ) → Array
inner zero arr i j = arr
inner (suc n) arr i j = inner n (put_less arr i j) i (j + 1)

-- The outer loop, `n` rounds from `i` on.
unfoldable pub outer : ℕ → Array → (i e : ℕ) → Array
outer zero arr i e = arr
outer (suc n) arr i e = outer n (inner (e - (i + 1)) arr i (i + 1)) (i + 1) e

unfoldable pub insertion_sort : Array → (l e : ℕ) → Array
insertion_sort arr l e = outer (e - 1 - l) arr l e

-- After a round of the inner loop, `a` has the least value so far at `i`.
put_less-Rearranged :
    (a : Array) (i j e : ℕ) → i < e → i ≤ j → j < e → Rearranged i e a (put_less a i j)
put_less-Rearranged a i j e ie ij je = elim (Bool-cases (ltb_ℤ (a j) (a i))) [
  | inl less ↦ rw less (swapped a (swap a i j) i j (omega arith) ie ij je (same (swap a i j)))
  | inr more ↦ rw more (same a)
]

put_less-least :
    (a : Array) (i j : ℕ)
    → i < j
    → ((k : ℕ) → i < k → k < j → a i ≤ℤ a k)
    → (k : ℕ) → i < k
    → k < j + 1
    → put_less a i j i ≤ℤ put_less a i j k
put_less-least a i j ij h k lo hi =
    let i_j : i ≢ j = λ s. omega arith in
    let k_i : k ≢ i = λ s. omega arith in
    elim (Bool-cases (ltb_ℤ (a j) (a i))) [
      | inl less ↦
          let at_i : swap a i j i ≡ a j =
            update_ne (update a i (a j)) j (a i) i i_j ∙ update_self a i (a j) in
          elim (ℕ_discrete k j) [
            | yes at_j ↦
                rw (less, at_i, at_j, update_self (update a i (a j)) j (a i)) (ground arith)
            | no off_j ↦
                let at_k : swap a i j k ≡ a k =
                  update_ne (update a i (a j)) j (a i) k off_j ∙ update_ne a i (a j) k k_i in
                rw (less, at_i, at_k) (let x = h k lo (omega arith) in ground arith)
          ]
      | inr more ↦ elim (ℕ_discrete k j) [
        | yes at_j ↦ rw (more, at_j) (ground arith)
        | no off_j ↦ rw more (h k lo (omega arith))
      ]
    ]

inner_lem :
    (n : ℕ) (a : Array) (i j e : ℕ)
    → i < j
    → j + n ≡ e
    → ((k : ℕ) → i < k → k < j → a i ≤ℤ a k)
    → Rearranged i e a (inner n a i j)
      × ((k : ℕ) → i < k → k < e → inner n a i j i ≤ℤ inner n a i j k)
unfolding inner
inner_lem zero a i j e ij je h = (same a, λ k lo hi. h k lo (omega arith))
inner_lem (suc n) a i j e ij je h =
    let (p, q) =
      inner_lem n (put_less a i j) i (j + 1) e (omega arith) (omega arith)
        (put_less-least a i j ij h) in
    (
      Rearranged-trans i e a (put_less a i j) (inner n (put_less a i j) i (j + 1))
          (put_less-Rearranged a i j e (omega arith) (omega arith) (omega arith)) p,
      q,
    )

-- The values below `i` are in order, and none of those from there on is less than them.
abbrev SortedTo : ℕ → ℕ → ℕ → Array → Type 0
SortedTo l i e a = (p q : ℕ) → l ≤ p → p < i → p ≤ q → q < e → a p ≤ℤ a q

sorted_next :
    (l i e : ℕ) (a b : Array)
    → l ≤ i
    → SortedTo l i e a
    → Rearranged i e a b
    → ((k : ℕ) → i < k → k < e → b i ≤ℤ b k)
    → SortedTo l (i + 1) e b
sorted_next l i e a b li h r least p q lp pi pq qe = elim (ℕ_discrete p i) [
  | yes at_i ↦ elim (ℕ_discrete q i) [
    | yes at_i' ↦ rw (at_i, at_i') (omega arith)
    | no past ↦ rw at_i (least q (omega arith) qe)
  ]
  | no off_i ↦
      let stays : b p ≡ a p = Rearranged-outside i e a b p (λ lo hi. omega arith) r in
      elim (Bool-cases (ltb q i)) [
        | inl lo ↦
            let stays' : b q ≡ a q = Rearranged-outside i e a b q (λ lo' hi. ground arith) r in
            rw (stays, stays') (h p q lp (omega arith) pq qe)
        | inr hi ↦ rw stays (
            Rearranged-all (λ v. a p ≤ℤ v) i e a b r
              (λ k lo' hi'. h p k lp (omega arith) (omega arith) hi') q (ground arith) qe)
      ]
]

outer_lem :
    (n : ℕ) (a : Array) (l i e : ℕ)
    → l ≤ i
    → e ≤ i + n + 1
    → i + n ≤ e
    → SortedTo l i e a
    → Rearranged l e a (outer n a i e) × IsSorted l e (outer n a i e)
unfolding outer
outer_lem zero a l i e li up lo h = (
  same a,
  λ p q lp pq qe. elim (ℕ_discrete p q) [
    | yes s ↦ rw s (omega arith)
    | no o ↦ h p q lp (omega arith) pq qe
  ],
)
outer_lem (suc n) a l i e li up lo h =
    let (r, least) =
      inner_lem (e - (i + 1)) a i (i + 1) e (omega arith) (omega arith)
        (λ k lo' hi. absurd (omega arith)) in
    let a1 = inner (e - (i + 1)) a i (i + 1) in
    let (r', s) =
      outer_lem n a1 l (i + 1) e (omega arith) (omega arith) (omega arith)
        (sorted_next l i e a a1 li h r least) in
    (
      Rearranged-trans l e a a1 (outer n a1 (i + 1) e)
          (Rearranged-widen i e l e a a1 li (omega arith) r) r',
      s,
    )

-- `insertionSort` leaves the part in ascending order, and only swaps values within it.
pub insertion_sort_lem :
    (a : Array) (l e : ℕ)
    → Rearranged l e a (insertion_sort a l e) × IsSorted l e (insertion_sort a l e)
unfolding insertion_sort outer
insertion_sort_lem a l e = elim (Bool-cases (ltb (l + 1) e)) [
  | inl some_left ↦
      outer_lem (e - 1 - l) a l l e (omega arith) (ground arith) (ground arith)
        (λ p q lp pl pq qe. absurd (omega arith))
  | inr small ↦
      let none_left : e - 1 - l ≡ 0 = ground arith in
      rw none_left (same a, λ p q lp pq qe. let s : p ≡ q = ground arith in rw s (omega arith))
]
