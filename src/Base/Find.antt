-- ===== src/Base/Find.antt =====
-- The first number of a range that passes a test: C's search loops over a table.
use Prim.Native.Nat.{ℕ, zero, suc, ◌+◌, ◌≤◌, ◌<◌}
use mathlib.Core.Path.{◌≡◌}
use mathlib.Core.Logic.{inl, inr}
use mathlib.Core.Bool.{Bool, true, false}
use mathlib.Core.Option.{Option, none, some}
use native.Mathlib.Omega.{arith}
use native.Mathlib.Decide.{ℕ_discrete}
use oscassignments.Base.Tests.{Bool-cases}

-- The first number from `i` on, of `n`, that passes the test.
unfoldable pub find_first : (ℕ → Bool) → ℕ → ℕ → Option ℕ
find_first test zero i = none
find_first test (suc n) i = elim (test i) [ true ↦ some i | false ↦ find_first test n (i + 1) ]

-- The first of the numbers from `i` up to `hi` that passes, or that none does.
abbrev pub Found : (ℕ → Bool) → (i hi : ℕ) → Option ℕ → Type 0
Found test i hi none = (m : ℕ) → i ≤ m → m < hi → test m ≡ false
Found test i hi (some j) =
    (i ≤ j) × (j < hi) × (test j ≡ true) × ((m : ℕ) → i ≤ m → m < j → test m ≡ false)

Found-later :
    (test : ℕ → Bool) (i hi : ℕ) (r : Option ℕ)
    → test i ≡ false
    → Found test (i + 1) hi r
    → Found test i hi r
Found-later test i hi none e f =
    λ m lo up. elim (ℕ_discrete m i) [ yes same ↦ rw same e | no other ↦ f m (omega arith) up ]
Found-later test i hi (some j) e f = (
  omega arith,
  f.1,
  f.2,
  λ m lo up. elim (ℕ_discrete m i) [ yes same ↦ rw same e | no other ↦ f.3 m (omega arith) up ],
)

pub find_first-Found :
    (test : ℕ → Bool) (n i hi : ℕ) → i + n ≡ hi → Found test i hi (find_first test n i)
unfolding find_first
find_first-Found test zero i hi e = λ m lo up. absurd (omega arith)
find_first-Found test (suc n) i hi e = elim (Bool-cases (test i)) [
  | inl t ↦ rw (t, find_first) (omega arith, omega arith, t, λ m lo up. absurd (omega arith))
  | inr t ↦
      rw (t, find_first)
        (Found-later test i hi (find_first test n (i + 1)) t
          (find_first-Found test n (i + 1) hi (omega arith)))
]
