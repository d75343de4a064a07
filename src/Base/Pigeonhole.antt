-- ===== src/Base/Pigeonhole.antt =====
-- Distinct numbers below a bound are no more than the bound.
use Prim.Native.Nat.{ℕ, zero, suc, ◌+◌, ◌≤◌, ◌<◌}
use mathlib.Core.Path.{subst}
use mathlib.Core.Logic.{◌≢◌, inl, inr}
use mathlib.Core.List.{List, [], ◌∷◌}
use native.Mathlib.Omega.{arith}
use oscassignments.Base.Tests.{◌==◌, ==→eq, Bool-cases, if◌then◌else◌}
use oscassignments.Base.Lists.{length, All, Distinct}

-- the list without the first `n` in it
without : ℕ → List ℕ → List ℕ
without n [] = []
without n (x ∷ xs) = if x == n then xs else x ∷ without n xs

length-without : (n : ℕ) (xs : List ℕ) → length xs ≤ length (without n xs) + 1
unfolding without
length-without n [] = omega arith
length-without n (x ∷ xs) = ground (arith, length-without n xs)

All-without {κ} : (P : ℕ → Type κ) (n : ℕ) (xs : List ℕ) → All P xs → All P (without n xs)
unfolding without
All-without P n [] h = tt
All-without P n (x ∷ xs) h = elim (Bool-cases (x == n)) [
  | inl e ↦ rw e (h.1)
  | inr e ↦ rw e (h.0, All-without P n xs h.1)
]

Distinct-without : (n : ℕ) (xs : List ℕ) → Distinct xs → Distinct (without n xs)
unfolding without
Distinct-without n [] d = tt
Distinct-without n (x ∷ xs) d = elim (Bool-cases (x == n)) [
  | inl e ↦ rw e (d.1)
  | inr e ↦ rw e (All-without (λ y. y ≢ x) n xs d.0, Distinct-without n xs d.1)
]

below : (n : ℕ) (xs : List ℕ) → All (λ x. x < suc n) xs → All (λ x. x ≢ n) xs → All (λ x. x < n) xs
below n [] h k = tt
below n (x ∷ xs) h k = (ground arith, below n xs h.1 k.1)

-- Once `n` is taken out of distinct numbers it is not there again.
without-ne : (n : ℕ) (xs : List ℕ) → Distinct xs → All (λ x. x ≢ n) (without n xs)
unfolding without
without-ne n [] d = tt
without-ne n (x ∷ xs) d = elim (Bool-cases (x == n)) [
  | inl e ↦ rw e (subst (λ m. All (λ y. y ≢ m) xs) (==→eq x n e) d.0)
  | inr e ↦ rw e (ground arith, without-ne n xs d.1)
]

pub length-le-bound : (n : ℕ) (xs : List ℕ) → Distinct xs → All (λ x. x < n) xs → length xs ≤ n
length-le-bound zero [] d h = omega arith
length-le-bound zero (x ∷ xs) d h = absurd (omega arith)
length-le-bound (suc n) xs d h = omega (
  arith,
  length-without n xs,
  length-le-bound n (without n xs) (Distinct-without n xs d)
      (below n (without n xs) (All-without (λ x. x < suc n) n xs h) (without-ne n xs d)),
)
