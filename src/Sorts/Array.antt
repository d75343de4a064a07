-- ===== src/Sorts/Array.antt =====
-- Arrays of A4/q1/q1.c, `swap`, and what a function that only swaps may do to a part of an array. The
-- part from `l` to `r`, both included, is given by `l` and `e`, which is `r + 1`, as `r` may be -1.
use oscassignments.Base.{ℕ, ◌≤◌, ◌<◌, ◌≡◌, update, refl, arith, ◌∙◌, update_self, ◌≢◌, update_ne}
use native.Mathlib.Decide.{ℕ_discrete}
use oscassignments.Base.Int.{ℤ, ◌≤ℤ◌}

abbrev pub Array : Type 0
Array = ℕ → ℤ

abbrev pub swap : Array → ℕ → ℕ → Array
swap arr i j = update (update arr i (arr j)) j (arr i)

-- `b` comes from `a` by swaps within the part.
pub data Rearranged (l e : ℕ) : Array → Array → Type 0 where
  same : (a : Array) → Rearranged l e a a
  swapped :
      (a b : Array) (i j : ℕ)
      → l ≤ i
      → i < e
      → l ≤ j
      → j < e
      → Rearranged l e (swap a i j) b
      → Rearranged l e a b

pub Rearranged-trans :
    (l e : ℕ) (a b c : Array) → Rearranged l e a b → Rearranged l e b c → Rearranged l e a c
Rearranged-trans l e _ _ c (same a) q = q
Rearranged-trans l e _ _ c (swapped a b i j li ie lj je p) q =
    swapped a c i j li ie lj je (Rearranged-trans l e (swap a i j) b c p q)

pub Rearranged-widen :
    (l e l' e' : ℕ) (a b : Array) → l' ≤ l → e ≤ e' → Rearranged l e a b → Rearranged l' e' a b
Rearranged-widen l e l' e' _ _ hl he (same a) = same a
Rearranged-widen l e l' e' _ _ hl he (swapped a b i j li ie lj je p) =
    swapped a b i j (omega arith) (omega arith) (omega arith) (omega arith)
      (Rearranged-widen l e l' e' (swap a i j) b hl he p)

-- What holds of all values of the part still does.
pub Rearranged-all {ℓ} :
    (P : ℤ → Type ℓ) (l e : ℕ) (a b : Array)
    → Rearranged l e a b
    → ((k : ℕ) → l ≤ k → k < e → P (a k))
    → (k : ℕ) → l ≤ k
    → k < e
    → P (b k)
Rearranged-all P l e _ _ (same a) h = h
Rearranged-all P l e _ _ (swapped a b i j li ie lj je p) h =
    Rearranged-all P l e (swap a i j) b p (λ k lo hi. elim (ℕ_discrete k j) [
      | yes at_j ↦ rw (at_j, update_self (update a i (a j)) j (a i)) (h i li ie)
      | no off_j ↦ rw (update_ne (update a i (a j)) j (a i) k off_j) (elim (ℕ_discrete k i) [
        | yes at_i ↦ rw (at_i, update_self a i (a j)) (h j lj je)
        | no off_i ↦ rw (update_ne a i (a j) k off_i) (h k lo hi)
      ])
    ])

-- What is outside the part stays.
pub Rearranged-outside :
    (l e : ℕ) (a b : Array) (k : ℕ) → ((l ≤ k → k < e → ⊥)) → Rearranged l e a b → b k ≡ a k
Rearranged-outside l e _ _ k out (same a) = refl
Rearranged-outside l e _ _ k out (swapped a b i j li ie lj je p) =
    let ki : k ≢ i = λ s. out (omega arith) (omega arith) in
    let kj : k ≢ j = λ s. out (omega arith) (omega arith) in
    Rearranged-outside l e (swap a i j) b k out p
    ∙ update_ne (update a i (a j)) j (a i) k kj
    ∙ update_ne a i (a j) k ki

-- The part is in ascending order.
abbrev pub IsSorted : ℕ → ℕ → Array → Type 0
IsSorted l e a = (p q : ℕ) → l ≤ p → p ≤ q → q < e → a p ≤ℤ a q
