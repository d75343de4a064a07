-- ===== src/Xv6/Fs/Bitmap.antt =====
-- The free map of A5/xv6-public/fs.c: `balloc` and `bfree`.
use mathlib.Core.Path.{subst, ap}
use oscassignments.Base.{
  ℕ, zero, suc, ◌+◌, ◌/◌, ◌%◌, ◌≡◌, ◌≢◌, ◌≤◌, ◌<◌, refl, Bool, true, false, Option, none, some,
  update, ltb, arith, Bool-cases, ltb→lt, ◌⊎◌, inl, inr, ◌∙◌,
}
use oscassignments.Xv6.Types.{Panic, Result, ok, panic}
use oscassignments.Xv6.Fs.{Fs, bblock, is_used, set_bit, bzero, find_bit, find_free, balloc}

pub set_bit-is_used_self : (b : ℕ) (v : Bool) (fs : Fs) → is_used b (set_bit b v fs) ≡ v
set_bit-is_used_self b v fs = ground arith

pub set_bit-is_used_ne :
    (b x : ℕ) (v : Bool) (fs : Fs) → x ≢ b → is_used x (set_bit b v fs) ≡ is_used x fs
set_bit-is_used_ne b x v fs ne = ground arith

-- The first free block from `b` on, before `hi`, or that all are used.
abbrev pub Free : Fs → (b hi : ℕ) → Option ℕ → Type 0
Free fs b hi none = (x : ℕ) → b ≤ x → x < hi → x < fs.sb.size → is_used x fs ≡ true
Free fs b hi (some x) =
    (b ≤ x)
    × (x < fs.sb.size)
    × (is_used x fs ≡ false)
    × ((y : ℕ) → b ≤ y → y < x → is_used y fs ≡ true)

pub below_or : (a b : ℕ) → (a < b) ⊎ (b ≤ a)
below_or a b = elim (Bool-cases (ltb a b)) [
  | inl e ↦ inl (ltb→lt a b e)
  | inr e ↦ inr (ground arith)
]

bit_of :
    (b bi : ℕ) (fs : Fs)
    → b % 4096 ≡ 0
    → bi < 4096
    → is_used (b + bi) fs ≡ fs.bits (bblock b fs.sb) bi
bit_of b bi fs aligned lt =
    let e : (b + bi) / 4096 ≡ b / 4096 = omega arith in
    let r : (b + bi) % 4096 ≡ bi = omega arith in
    ap (λ k. fs.bits (k + fs.sb.bmapstart) ((b + bi) % 4096)) e ∙ ap (fs.bits (bblock b fs.sb)) r

-- A used block in front leaves the search where it was.
Free-later :
    (fs : Fs) (b c hi : ℕ) (r : Option ℕ)
    → ((x : ℕ) → b ≤ x → x < c → x < fs.sb.size → is_used x fs ≡ true)
    → b ≤ c
    → Free fs c hi r
    → Free fs b hi r
Free-later fs b c hi none used le f =
    λ x lo up small. elim (below_or x c) [ inl lt ↦ used x lo lt small | inr ge ↦ f x ge up small ]
Free-later fs b c hi (some x) used le f = (
  omega arith,
  f.1,
  f.2,
  λ y lo up. elim (below_or y c) [
    | inl lt ↦ used y lo lt (let s = f.1 in omega arith)
    | inr ge ↦ f.3 y ge up
  ],
)

find_bit-Free :
    (fs : Fs) (b left bi : ℕ)
    → b % 4096 ≡ 0
    → left + bi ≡ 4096
    → Free fs (b + bi) (b + 4096) (find_bit fs b left bi)
unfolding find_bit
find_bit-Free fs b zero bi aligned e = λ x lo up small. absurd (omega arith)
find_bit-Free fs b (suc left) bi aligned e = elim (Bool-cases (ltb (b + bi) fs.sb.size)) [
  | inr big ↦ rw (big, find_bit) (λ x lo up small. absurd (ground arith))
  | inl small ↦ elim (Bool-cases (fs.bits (bblock b fs.sb) bi)) [
    | inr free ↦
        rw (small, free, find_bit)
          (
            omega arith,
            ltb→lt (b + bi) fs.sb.size small,
            bit_of b bi fs aligned (omega arith) ∙ free,
            λ y lo up. absurd (omega arith),
          )
    | inl used ↦
        rw (small, used, find_bit)
          (Free-later fs (b + bi) (b + (bi + 1)) (b + 4096) (find_bit fs b left (bi + 1))
            (λ x lo up _.
              let same : x ≡ b + bi = omega arith in
              rw same (bit_of b bi fs aligned (omega arith) ∙ used))
            (omega arith) (find_bit-Free fs b left (bi + 1) aligned (omega arith)))
  ]
]

first_pass : (fs : Fs) (b : ℕ) → b % 4096 ≡ 0 → Free fs b (b + 4096) (find_bit fs b 4096 0)
first_pass fs b aligned =
    let same : b + 0 ≡ b = omega arith in
    subst (λ x. Free fs x (b + 4096) (find_bit fs b 4096 0)) same
      (find_bit-Free fs b 4096 0 aligned refl)

after_pass :
    (fs : Fs) (b : ℕ) (hit rest : Option ℕ)
    → Free fs b (b + 4096) hit
    → Free fs (b + 4096) fs.sb.size rest
    → Free fs b fs.sb.size (elim hit [ some x ↦ some x | none ↦ rest ])
after_pass fs b (some x) rest f g = f
after_pass fs b none rest f g = Free-later fs b (b + 4096) fs.sb.size rest f (omega arith) g

find_free-Free :
    (fs : Fs) (fuel b : ℕ)
    → b % 4096 ≡ 0
    → fs.sb.size ≤ b + fuel
    → Free fs b fs.sb.size (find_free fs fuel b)
unfolding find_free
find_free-Free fs zero b aligned enough = λ x lo up small. absurd (omega arith)
find_free-Free fs (suc fuel) b aligned enough = elim (Bool-cases (ltb b fs.sb.size)) [
  | inr big ↦ rw (big, find_free) (λ x lo up small. absurd (ground arith))
  | inl small ↦
      rw (small, find_free)
        (after_pass fs b (find_bit fs b 4096 0) (find_free fs fuel (b + 4096))
          (first_pass fs b aligned) (find_free-Free fs fuel (b + 4096) (omega arith) (omega arith)))
]

-- The free map of `fs'` is that of `fs` with the block's bit set to the value.
abbrev pub Marked : ℕ → Bool → Fs → Fs → Type 0
Marked b v fs fs' =
    (is_used b fs' ≡ v) × ((x : ℕ) → x ≢ b → is_used x fs' ≡ is_used x fs) × (fs'.sb ≡ fs.sb)

abbrev pub Allocated : Fs → Result (ℕ × Fs) → Type 0
Allocated fs (ok r) =
    Free fs 0 fs.sb.size (some r.0)
    × Marked r.0 true fs r.1
    × (r.1.bytes ≡ update fs.bytes r.0 (λ i. 0))
    × (r.1.words ≡ update fs.words r.0 (λ i. 0))
Allocated fs (panic p) =
    (p ≡ Panic.out_of_blocks) × ((x : ℕ) → x < fs.sb.size → is_used x fs ≡ true)

set_bit-Marked : (b : ℕ) (v : Bool) (fs : Fs) → Marked b v fs (set_bit b v fs)
set_bit-Marked b v fs =
    (set_bit-is_used_self b v fs, (λ x ne. set_bit-is_used_ne b x v fs ne), refl)

after-Free :
    (fs : Fs) (r : Option ℕ)
    → Free fs 0 fs.sb.size r
    → Allocated fs
        (elim r [ some b ↦ ok (b, bzero b (set_bit b true fs)) | none ↦ panic Panic.out_of_blocks ])
unfolding bzero
after-Free fs (some b) f = (f, set_bit-Marked b true fs, refl, refl)
after-Free fs none f = (refl, λ x lt. f x (omega arith) lt lt)

-- `balloc` returns the lowest free block of the disk, zeroed and marked as used, and changes the bit of
-- no other block. It stops the machine only if every block is used.
pub balloc_lem : (fs : Fs) → Allocated fs (balloc fs)
unfolding balloc
balloc_lem fs =
    after-Free fs (find_free fs fs.sb.size 0) (find_free-Free fs fs.sb.size 0 refl (omega arith))
