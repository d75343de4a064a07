-- ===== src/Base/Lists.antt =====
-- Lists measured and indexed by native numbers, and predicates over their items.
use Prim.Native.Nat.{ℕ, zero, suc, ◌+◌}
use mathlib.Core.Path.{◌≡◌}
use mathlib.Core.Logic.{◌≢◌}
use mathlib.Core.Bool.{Bool, false, ◌||◌}
use mathlib.Core.List.{List, [], ◌∷◌, ◌++◌}
use mathlib.Core.Option.{Option, none, some}
use native.Mathlib.Omega.{arith}

module _ {ℓ} {A : Type ℓ} where
  abbrev pub length : List A → ℕ
  length [] = 0
  length (x ∷ xs) = suc (length xs)

  abbrev pub get_elem? : List A → ℕ → Option A
  get_elem? [] i = none
  get_elem? (x ∷ xs) zero = some x
  get_elem? (x ∷ xs) (suc i) = get_elem? xs i

  pub length-append : (xs ys : List A) → length (xs ++ ys) ≡ length xs + length ys
  length-append [] ys = omega arith
  length-append (x ∷ xs) ys = omega (arith, length-append xs ys)

  abbrev pub any : (A → Bool) → List A → Bool
  any p [] = false
  any p (x ∷ xs) = p x || any p xs

  abbrev pub All {κ} : (A → Type κ) → List A → Type κ
  All P [] = Unit
  All P (x ∷ xs) = P x × All P xs

  pub All-append {κ} : (P : A → Type κ) (xs ys : List A) → All P xs → All P ys → All P (xs ++ ys)
  All-append P [] ys h k = k
  All-append P (x ∷ xs) ys h k = (h.0, All-append P xs ys h.1 k)

-- No item occurs twice.
abbrev pub Distinct {ℓ} : {A : Type ℓ} → List A → Type ℓ
Distinct [] = Unit
Distinct (x ∷ xs) = All (λ y. y ≢ x) xs × Distinct xs

pub Distinct-append {ℓ} :
    {A : Type ℓ} (xs : List A) (a : A)
    → Distinct xs
    → All (λ y. a ≢ y) xs
    → Distinct (xs ++ (a ∷ []))
Distinct-append [] a d h = (tt, tt)
Distinct-append (x ∷ xs) a d h =
    (All-append (λ y. y ≢ x) xs (a ∷ []) d.0 (h.0, tt), Distinct-append xs a d.1 h.1)

module _ {ℓ} {A : Type ℓ} where
  pub All-drop {κ} :
      (P : A → Type κ) (ys zs : List A) (x : A) → All P (ys ++ (x ∷ zs)) → All P (ys ++ zs)
  All-drop P [] zs x h = h.1
  All-drop P (y ∷ ys) zs x h = (h.0, All-drop P ys zs x h.1)

  pub Distinct-drop : (ys zs : List A) (x : A) → Distinct (ys ++ (x ∷ zs)) → Distinct (ys ++ zs)
  Distinct-drop [] zs x d = d.1
  Distinct-drop (y ∷ ys) zs x d = (All-drop (λ a. a ≢ y) ys zs x d.0, Distinct-drop ys zs x d.1)
