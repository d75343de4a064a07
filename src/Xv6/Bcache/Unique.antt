-- ===== src/Xv6/Bcache/Unique.antt =====
-- `bget`, `bread`, `bwrite` and `brelse` of A5/xv6-public/bio.c in any order: the cache never holds a
-- block of a disk twice.
use mathlib.Core.Path.{subst}
use native.Mathlib.Decide.{ℕ_discrete}
use oscassignments.Base.{
  ℕ, ◌≤◌, ◌≡◌, refl, Bool, true, false, if◌then◌else◌, List, arith, ◌==◌, update, update_ne,
  update_self, leb, not, ◌&&◌, sym, ◌∙◌,
}
use oscassignments.Xv6.Types.{Result, ok, panic, ◌>>=◌}
use oscassignments.Xv6.Bcache.{Buf, Bcache, is_block, set_buf, iderw, fill_buf, bwrite, holds}
use oscassignments.Xv6.Bcache.Search.{In}

-- Two slots of the list that hold the same block of a disk are one.
abbrev pub OneSlot : Bcache → Type 0
OneSlot c =
    (i j : ℕ)
    → In i c.order
    → In j c.order
    → 1 ≤ (c.buf i).dev
    → (c.buf i).dev ≡ (c.buf j).dev
    → (c.buf i).blockno ≡ (c.buf j).blockno
    → i ≡ j

-- Two buffers stand for the same block.
abbrev pub SameBlock : Buf → Buf → Type 0
SameBlock a b = (a.dev ≡ b.dev) × (a.blockno ≡ b.blockno)

pub update-SameBlock :
    (buf : ℕ → Buf) (i : ℕ) (b : Buf)
    → SameBlock b (buf i)
    → (k : ℕ) → SameBlock (update buf i b k) (buf k)
update-SameBlock buf i b e k = elim (ℕ_discrete k i) [
  | yes same ↦
      subst (λ x. SameBlock (update buf i b x) (buf x)) (sym same)
        (subst (λ x. SameBlock x (buf i)) (sym (update_self buf i b)) e)
  | no other ↦ subst (λ x. SameBlock x (buf k)) (sym (update_ne buf i b k other)) (refl, refl)
]

pub OneSlot-keeps :
    (c c' : Bcache)
    → ((k : ℕ) → In k c'.order → In k c.order)
    → ((k : ℕ) → SameBlock (c'.buf k) (c.buf k))
    → OneSlot c
    → OneSlot c'
OneSlot-keeps c c' into same one i j hi hj live dev block =
    one i j (into i hi) (into j hj) (rw (sym (same i).0) live) (sym (same i).0 ∙ dev ∙ (same j).0)
      (sym (same i).1 ∙ block ∙ (same j).1)

pub set_buf-OneSlot :
    (i : ℕ) (b : Buf) (c : Bcache) → SameBlock b (c.buf i) → OneSlot c → OneSlot (set_buf i b c)
set_buf-OneSlot i b c same =
    OneSlot-keeps c (set_buf i b c) (λ k h. h) (update-SameBlock c.buf i b same)

pub if_elim {ℓ} :
    {A : Type ℓ} (P : A → Type 0) (t : Bool) {x y : A} → P x → P y → P (if t then x else y)
if_elim P true px py = px
if_elim P false px py = py

-- What `iderw` returns stands for the block it was given.
abbrev Reply : Buf → Result ((ℕ → ℕ) × Buf) → Type 0
Reply b (ok r) = SameBlock r.1 b
Reply b (panic p) = Unit

iderw-Reply : (cur disksize : ℕ) (disk : ℕ → ℕ) (b : Buf) → Reply b (iderw cur disksize disk b)
unfolding iderw
iderw-Reply cur disksize disk b = if_elim (Reply b) (not (holds cur b)) tt (
    if_elim (Reply b) (b.valid && not b.dirty) tt (
      if_elim (Reply b) (not (b.dev == 1)) tt (
        if_elim (Reply b) (leb disksize b.blockno) tt
          (if_elim (Reply b) b.dirty (refl, refl) (refl, refl)))))

abbrev pub Kept : List ℕ → Result ((ℕ → ℕ) × Bcache) → Type 0
Kept order (ok r) = OneSlot r.1 × (r.1.order ≡ order)
Kept order (panic p) = Unit

pub absent : (dev k : ℕ) (b : Buf) → is_block dev k b ≡ false → b.dev ≡ dev → b.blockno ≡ k → ⊥
absent dev k b e ed ek = ground arith

then_set :
    (i : ℕ) (b : Buf) (c : Bcache) (r : Result ((ℕ → ℕ) × Buf))
    → SameBlock b (c.buf i)
    → Reply b r
    → OneSlot c
    → Kept c.order (r >>= (λ x. ok (x.0, set_buf i x.1 c)))
then_set i b c (panic p) same reply one = tt
then_set i b c (ok x) same reply one =
    (set_buf-OneSlot i x.1 c (reply.0 ∙ same.0, reply.1 ∙ same.1) one, refl)

pub fill_buf-Kept :
    (cur disksize : ℕ) (disk : ℕ → ℕ) (i : ℕ) (c : Bcache)
    → OneSlot c
    → Kept c.order (fill_buf cur disksize disk i c)
unfolding fill_buf
fill_buf-Kept cur disksize disk i c one =
    if_elim (Kept c.order) (c.buf i).valid (one, refl)
      (then_set i (c.buf i) c (iderw cur disksize disk (c.buf i)) (refl, refl)
        (iderw-Reply cur disksize disk (c.buf i)) one)

pub bwrite-Kept :
    (cur disksize : ℕ) (disk : ℕ → ℕ) (i : ℕ) (c : Bcache)
    → OneSlot c
    → Kept c.order (bwrite cur disksize disk i c)
unfolding bwrite
bwrite-Kept cur disksize disk i c one =
    if_elim (Kept c.order) (holds cur (c.buf i))
      (then_set i (record (c.buf i) { dirty = true }) c
        (iderw cur disksize disk (record (c.buf i) { dirty = true })) (refl, refl)
        (iderw-Reply cur disksize disk (record (c.buf i) { dirty = true })) one)
      tt

-- `bget` found no slot with the block and takes over the slot `s`.
pub taken-OneSlot :
    (dev k s : ℕ) (b : Buf) (c : Bcache)
    → b.dev ≡ dev
    → b.blockno ≡ k
    → ((i : ℕ) → In i c.order → is_block dev k (c.buf i) ≡ false)
    → OneSlot c
    → OneSlot (set_buf s b c)
taken-OneSlot dev k s b c ed ek miss one i j hi hj = elim (ℕ_discrete i s) [
  | yes si ↦ elim (ℕ_discrete j s) [
    | yes sj ↦ λ _ _ _. si ∙ sym sj
    | no oj ↦
        rw (si, update_self c.buf s b, update_ne c.buf s b j oj)
          (λ _ edev eblock.
            elim (absent dev k (c.buf j) (miss j hj) (sym edev ∙ ed) (sym eblock ∙ ek)) [ ])
  ]
  | no oi ↦ elim (ℕ_discrete j s) [
    | yes sj ↦
        rw (sj, update_self c.buf s b, update_ne c.buf s b i oi)
          (λ _ edev eblock. elim (absent dev k (c.buf i) (miss i hi) (edev ∙ ed) (eblock ∙ ek)) [ ])
    | no oj ↦ rw (update_ne c.buf s b i oi, update_ne c.buf s b j oj) (one i j hi hj)
  ]
]
