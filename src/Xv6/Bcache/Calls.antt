-- ===== src/Xv6/Bcache/Calls.antt =====
-- What each call of A5/xv6-public/bio.c keeps of the cache.
use mathlib.Core.Path.{sym}
use native.Mathlib.Decide.{ℕ_discrete}
use oscassignments.Base.{
  ℕ, ◌+◌, ◌-◌, ◌<◌, ◌≡◌, inl, inr, refl, false, Option, none, some, List, [], ◌∷◌, arith,
  Bool-cases, ◌==◌, zero, suc, ==→eq,
}
use oscassignments.Xv6.Types.{Panic, Result, ok, panic}
use oscassignments.Xv6.Bcache.{
  Bcache, find_next, find_prev, is_block, is_spare, set_buf, bget, remove, brelse, holds,
  acquire_buf, binit, slots_down, nbuf,
}
use oscassignments.Xv6.Bcache.Search.{In, here, there, Found, find_next-Found}
use oscassignments.Xv6.Bcache.Unique.{
  OneSlot, OneSlot-keeps, set_buf-OneSlot, taken-OneSlot, if_elim,
}

-- Every buffer stands in the list.
abbrev pub Whole : List ℕ → Type 0
Whole order = (k : ℕ) → k < nbuf → In k order

-- A block has one slot, and no buffer is lost.
abbrev pub Sound : Bcache → Type 0
Sound c = OneSlot c × Whole c.order

abbrev pub Good : Result Bcache → Type 0
Good (ok c) = Sound c
Good (panic p) = Unit

pub past : (i j k : ℕ) (rest : List ℕ) → In k (i ∷ rest) → In k (i ∷ (j ∷ rest))
past i j k rest (here _) = here (j ∷ rest)
past i j k rest (there _ _ n) = there i (j ∷ rest) (there j rest n)

pub skip :
    (i j k : ℕ) (js rest : List ℕ)
    → (In k js → In k (i ∷ rest))
    → In k (j ∷ js)
    → In k (i ∷ (j ∷ rest))
skip i j k js rest h (here _) = there i (j ∷ rest) (here rest)
skip i j k js rest h (there _ _ m) = past i j k rest (h m)

pub along : (j k : ℕ) (ks js : List ℕ) → (In k ks → In k js) → In k (j ∷ ks) → In k (j ∷ js)
along j k ks js h (here _) = here js
along j k ks js h (there _ _ m) = there j js (h m)

pub In-remove : (i k : ℕ) (is : List ℕ) → In k is → In k (i ∷ remove i is)
unfolding remove
In-remove i k [] m = elim m [ ]
In-remove i k (j ∷ js) m = elim (Bool-cases (j == i)) [
  | inl e ↦ let same : j ≡ i = ==→eq j i e in rw (e, remove) (rw (sym same) m)
  | inr e ↦ rw (e, remove) (skip i j k js (remove i js) (λ h. In-remove i k js h) m)
]

pub remove-In : (i k : ℕ) (is : List ℕ) → In k (remove i is) → In k is
unfolding remove
remove-In i k [] = λ m. m
remove-In i k (j ∷ js) = elim (Bool-cases (j == i)) [
  | inl e ↦ rw (e, remove) (λ m. there j js m)
  | inr e ↦ rw (e, remove) (along j k (remove i js) js (λ h. remove-In i k js h))
]

pub moved : (i k : ℕ) (is : List ℕ) → In i is → In k (i ∷ remove i is) → In k is
moved i k is m (here _) = m
moved i k is m (there _ _ h) = remove-In i k is h

abbrev pub unlocked : ℕ → Bcache → Bcache
unlocked i c = set_buf i (record (c.buf i) { holder = none; refcnt = (c.buf i).refcnt - 1 }) c

pub unlocked-OneSlot : (i : ℕ) (c : Bcache) → OneSlot c → OneSlot (unlocked i c)
unlocked-OneSlot i c =
    set_buf-OneSlot i (record (c.buf i) { holder = none; refcnt = (c.buf i).refcnt - 1 }) c
      (refl, refl)

pub brelse-Good : (cur i : ℕ) (c : Bcache) → i < nbuf → Sound c → Good (brelse cur i c)
unfolding brelse
brelse-Good cur i c lt s =
    if_elim Good (holds cur (c.buf i))
      (if_elim Sound ((c.buf i).refcnt - 1 == 0)
        (
          OneSlot-keeps (unlocked i c) (record (unlocked i c) { order = i ∷ remove i c.order })
              (λ k. moved i k c.order (s.1 i lt)) (λ k. (refl, refl)) (unlocked-OneSlot i c s.0),
          λ k below. In-remove i k c.order (s.1 k below),
        )
        (unlocked-OneSlot i c s.0, s.1))
      tt

-- `bget` returns a slot that now stands for the block, and leaves the list.
abbrev pub Got : (dev blockno : ℕ) → Bcache → Result (ℕ × Bcache) → Type 0
Got dev blockno c (ok r) = OneSlot r.1 × (r.1.order ≡ c.order)
Got dev blockno c (panic p) = Unit

pub after_search :
    (dev k : ℕ) (c : Bcache) (hit spare : Option ℕ)
    → Found (is_block dev k) c.buf c.order hit
    → OneSlot c
    → Got dev k c (elim hit [
      | some i ↦ ok (i, set_buf i (record (c.buf i) { refcnt = (c.buf i).refcnt + 1 }) c)
      | none ↦ elim spare [
        | some i ↦ ok (
          i,
          set_buf i
              (record (c.buf i) {
                dev = dev;
                blockno = k;
                valid = false;
                dirty = false;
                refcnt = 1;
              })
              c,
        )
        | none ↦ panic Panic.no_buffers
      ]
    ])
after_search dev k c (some i) spare f one = (
  set_buf-OneSlot i (record (c.buf i) { refcnt = (c.buf i).refcnt + 1 }) c (refl, refl) one,
  refl,
)
after_search dev k c none (some i) f one = (
  taken-OneSlot dev k i
      (record (c.buf i) { dev = dev; blockno = k; valid = false; dirty = false; refcnt = 1 }) c refl
      refl f one,
  refl,
)
after_search dev k c none none f one = tt

pub bget-Got : (dev k : ℕ) (c : Bcache) → OneSlot c → Got dev k c (bget dev k c)
unfolding bget
bget-Got dev k c =
    after_search dev k c (find_next (is_block dev k) c.buf c.order)
      (find_prev is_spare c.buf c.order) (find_next-Found (is_block dev k) c.buf c.order)

abbrev pub Waited : Option Bcache → Type 0
Waited (some c) = Sound c
Waited none = Unit

pub after_holder :
    (cur i : ℕ) (c : Bcache) (holder : Option ℕ)
    → Sound c
    → Waited (elim holder [
      | some p ↦ none
      | none ↦ some (set_buf i (record (c.buf i) { holder = some cur }) c)
    ])
after_holder cur i c (some p) s = tt
after_holder cur i c none s =
    (set_buf-OneSlot i (record (c.buf i) { holder = some cur }) c (refl, refl) s.0, s.1)

pub acquire_buf-Waited : (cur i : ℕ) (c : Bcache) → Sound c → Waited (acquire_buf cur i c)
unfolding acquire_buf
acquire_buf-Waited cur i c = after_holder cur i c (c.buf i).holder

pub none_below : (k : ℕ) → k < 0 → ⊥
none_below k lt = omega arith

pub all_slots : (n k : ℕ) → k < n → In k (slots_down n)
unfolding slots_down
all_slots zero k lt = elim (none_below k lt) [ ]
all_slots (suc n) k lt = elim (ℕ_discrete k n) [
  | yes same ↦ rw same (here (slots_down n))
  | no other ↦ there n (slots_down n) (all_slots n k (omega arith))
]

pub binit-Sound : Sound binit
binit-Sound = (λ i j hi hj live. elim (none_below 0 live) [ ], all_slots nbuf)
