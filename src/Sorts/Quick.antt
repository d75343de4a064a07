-- ===== src/Sorts/Quick.antt =====
-- `normal_quicksort` of A4/q1/q1.c.
use oscassignments.Base.{
  ℕ, zero, suc, ◌+◌, ◌-◌, ◌%◌, ◌≤◌, ◌<◌, ◌≡◌, true, false, refl, arith, Bool-cases, inl, inr, leb,
  Option, none, some, ap, ◌∙◌,
}
use native.Mathlib.Nat.{mod-lt}
use oscassignments.Sorts.Array.{Array, Rearranged, same, Rearranged-trans, Rearranged-widen}
use oscassignments.Sorts.Insertion.{insertion_sort, insertion_sort_lem}
use oscassignments.Sorts.Partition.{partition}
use oscassignments.Sorts.Split.{Split, partition_lem}

-- The two calls for the pieces, `go` for each, after the call number `n` of `rand`.
unfoldable pub after_split :
    (ℕ → Array → ℕ → ℕ → Option (ℕ × Array)) → ℕ → (l e : ℕ) → ℕ × Array → Option (ℕ × Array)
after_split go n l e (top, b) = elim (go (n + 1) b l (top - 1)) [
  | none ↦ none
  | some done ↦ go (done.0) (done.1) top e
]

-- `rand n` is what the call number `n` of `rand` returns; the result has the number of the next
-- call, and is none if the fuel runs out.
module _ (rand : ℕ → ℕ) where
  unfoldable pub quicksort : ℕ → (n : ℕ) → Array → (l e : ℕ) → Option (ℕ × Array)
  quicksort zero n arr l e = none
  quicksort (suc f) n arr l e = elim (leb e (l + 1)) [
    | true ↦ some (n, arr)
    | false ↦ elim (leb (e - l) 5) [
      | true ↦ some (n, insertion_sort arr l e)
      | false ↦ after_split (quicksort f) n l e (partition (rand n % (e - l)) arr l e)
    ]
  ]

  -- It ends, and has only swapped values within the part.
  Ends : ℕ → ℕ → Array → ℕ → ℕ → Type 0
  Ends f n a l e =
      (n' : ℕ) × (b : Array) × (quicksort f n a l e ≡ some (n', b)) × Rearranged l e a b

  second_step :
      (f n l e top n1 n2 : ℕ) (b c d : Array)
      → quicksort f (n + 1) b l (top - 1) ≡ some (n1, c)
      → quicksort f n1 c top e ≡ some (n2, d)
      → after_split (quicksort f) n l e (top, b) ≡ some (n2, d)
  unfolding after_split
  second_step f n l e top n1 n2 b c d first second = rw (first, after_split) second

  long_step :
      (f n : ℕ) (a : Array) (l e : ℕ)
      → leb e (l + 1) ≡ false
      → leb (e - l) 5 ≡ false
      → quicksort (suc f) n a l e
        ≡ after_split (quicksort f) n l e (partition (rand n % (e - l)) a l e)
  unfolding quicksort
  long_step f n a l e more long = rw (more, quicksort, long) refl

  pieces :
      (f n : ℕ) (a : Array) (l e top : ℕ) (b : Array)
      → quicksort (suc f) n a l e ≡ after_split (quicksort f) n l e (top, b)
      → Split l e (a (l + rand n % (e - l))) a top b
      → Ends f (n + 1) b l (top - 1)
      → ((n1 : ℕ) (c : Array) → Ends f n1 c top e)
      → Ends (suc f) n a l e
  unfolding Ends
  pieces f n a l e top b step s (n1, c, first, r1) right =
      let (n2, d, second, r2) = right n1 c in
      (
        n2,
        d,
        step ∙ second_step f n l e top n1 n2 b c d first second,
        Rearranged-trans l e a b d s.moved (
            Rearranged-trans l e b c d
              (Rearranged-widen l (top - 1) l e b c (omega arith) (omega (arith, s.in_part)) r1)
              (Rearranged-widen top e l e c d (omega (arith, s.some_low)) (omega arith) r2)),
      )

  every_call : (f n : ℕ) (a : Array) (l e : ℕ) → l ≤ e → e < l + f → Ends f n a l e
  unfolding Ends quicksort
  every_call zero n a l e le h = absurd (omega arith)
  every_call (suc f) n a l e le h = elim (Bool-cases (leb e (l + 1))) [
    | inl short ↦ (n, a, rw (short, quicksort) refl, same a)
    | inr more ↦ elim (Bool-cases (leb (e - l) 5)) [
      | inl few ↦
          (n, insertion_sort a l e, rw (more, quicksort, few) refl, (insertion_sort_lem a l e).0)
      | inr long ↦
          let idx_in : rand n % (e - l) < e - l = mod-lt (rand n) (ground arith) in
          let (top, b, split, s) = partition_lem (rand n % (e - l)) a l e (omega arith) in
          pieces f n a l e top b
            (long_step f n a l e more long ∙ ap (after_split (quicksort f) n l e) split) s
            (every_call f (n + 1) b l (top - 1) (omega (arith, s.some_low))
              (omega (arith, s.some_low, s.in_part)))
            (λ n1 c. every_call f n1 c top e s.in_part (omega (arith, s.some_low)))
    ]
  ]

  -- With as much fuel as there are values in the part, and one more, `normal_quicksort` ends, and has
  -- only swapped values within the part.
  pub quicksort_lem :
      (n : ℕ) (a : Array) (l e : ℕ)
      → l ≤ e
      → (n' : ℕ) × (b : Array) × (quicksort (e - l + 1) n a l e ≡ some (n', b)) × Rearranged l e a b
  unfolding Ends
  quicksort_lem n a l e le = every_call (e - l + 1) n a l e le (omega arith)
