-- ===== src/Xv6/Bcache/Search.antt =====
-- The two searches of `bget` in A5/xv6-public/bio.c.
use oscassignments.Base.{
  ℕ, ◌≡◌, inl, inr, Bool, true, false, Option, none, some, if◌then◌else◌, List, [], ◌∷◌, Bool-cases,
}
use oscassignments.Xv6.Bcache.{Buf, find_next, find_prev}

-- A slot stands in the list.
pub data In (i : ℕ) : List ℕ → Type 0 where
  here : (is : List ℕ) → In i (i ∷ is)
  there : (j : ℕ) (is : List ℕ) → In i is → In i (j ∷ is)

-- A slot of the list that passes, or that none of them does.
abbrev pub Found : (Buf → Bool) → (ℕ → Buf) → List ℕ → Option ℕ → Type 0
Found test buf is none = (i : ℕ) → In i is → test (buf i) ≡ false
Found test buf is (some i) = In i is × (test (buf i) ≡ true)

none_in :
    (test : Buf → Bool) (buf : ℕ → Buf) (j : ℕ) (is : List ℕ)
    → test (buf j) ≡ false
    → ((i : ℕ) → In i is → test (buf i) ≡ false)
    → (i : ℕ) → In i (j ∷ is)
    → test (buf i) ≡ false
none_in test buf j is e h _ (here _) = e
none_in test buf j is e h i (there _ _ m) = h i m

Found-later :
    (test : Buf → Bool) (buf : ℕ → Buf) (j : ℕ) (is : List ℕ) (r : Option ℕ)
    → test (buf j) ≡ false
    → Found test buf is r
    → Found test buf (j ∷ is) r
Found-later test buf j is none e h = none_in test buf j is e h
Found-later test buf j is (some i) e (m, t) = (there j is m, t)

pub find_next-Found :
    (test : Buf → Bool) (buf : ℕ → Buf) (is : List ℕ) → Found test buf is (find_next test buf is)
unfolding find_next
find_next-Found test buf [] = λ i m. elim m [ ]
find_next-Found test buf (j ∷ is) = elim (Bool-cases (test (buf j))) [
  | inl t ↦ rw (t, find_next) (here is, t)
  | inr t ↦
      rw (t, find_next)
        (Found-later test buf j is (find_next test buf is) t (find_next-Found test buf is))
]

Found-before :
    (test : Buf → Bool) (buf : ℕ → Buf) (j : ℕ) (is : List ℕ) (r : Option ℕ)
    → Found test buf is r
    → Found test buf
        (j ∷ is)
        (elim r [ some i ↦ some i | none ↦ if test (buf j) then some j else none ])
Found-before test buf j is (some i) (m, t) = (there j is m, t)
Found-before test buf j is none h = elim (Bool-cases (test (buf j))) [
  | inl t ↦ rw t (here is, t)
  | inr t ↦ rw t (none_in test buf j is t h)
]

pub find_prev-Found :
    (test : Buf → Bool) (buf : ℕ → Buf) (is : List ℕ) → Found test buf is (find_prev test buf is)
unfolding find_prev
find_prev-Found test buf [] = λ i m. elim m [ ]
find_prev-Found test buf (j ∷ is) =
    Found-before test buf j is (find_prev test buf is) (find_prev-Found test buf is)
