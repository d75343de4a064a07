-- ===== src/Xv6/Path/Directory/Entry.antt =====
-- The entries of a directory, by the bytes of its file, and the test of `dirlookup` (A5/xv6-public/fs.c).
use native.Mathlib.Decide.{ℕ_discrete}
use mathlib.Core.Path.{◌∙◌, ap, sym}
use oscassignments.Base.{
  ℕ, zero, suc, ◌+◌, ◌*◌, ◌≡◌, ◌≢◌, ◌≤◌, ◌<◌, refl, true, false, not, ◌==◌, ◌&&◌, arith, Bool-cases,
  ◌⊎◌, inl, inr,
}
use oscassignments.Xv6.Fs.{Fs}
use oscassignments.Xv6.Inode.{Inode}
use oscassignments.Xv6.Inode.Read.{file_byte}
use oscassignments.Xv6.Path.Directory.{entry_inum, strncmp_is_zero, is_entry}

-- Two strings agree up to the end of the first one, and on `n` characters at most.
abbrev pub Agree : (n : ℕ) → (p q : ℕ → ℕ) → (i : ℕ) → Type 0
Agree n p q i = (k : ℕ) → i ≤ k → k < i + n → ((j : ℕ) → i ≤ j → j < k → p j ≢ 0) → p k ≡ q k

abbrev pub inum_at : Inode → Fs → ℕ → ℕ
inum_at ip fs o = file_byte ip fs o + 256 * file_byte ip fs (o + 1)

-- The bytes of the file from `o` on are an entry that is in use: its inode number is not 0, and its
-- name is this one, up to the end of the name or to 14 characters.
abbrev pub Entry : (name : ℕ → ℕ) → Inode → Fs → ℕ → Type 0
Entry name ip fs o =
    (inum_at ip fs o ≢ 0)
    × ((i : ℕ) → i < 14 → ((j : ℕ) → j < i → name j ≢ 0) → name i ≡ file_byte ip fs (o + 2 + i))

Agree-later : (n : ℕ) (p q : ℕ → ℕ) (i : ℕ) → p i ≡ q i → Agree n p q (i + 1) → Agree (suc n) p q i
Agree-later n p q i same agree = λ k lo hi prior. elim (ℕ_discrete k i) [
  | yes e ↦ rw e same
  | no ne ↦ agree k (omega arith) (omega arith) (λ j lo' lt. prior j (omega arith) lt)
]

Agree-tail : (n : ℕ) (p q : ℕ → ℕ) (i : ℕ) → p i ≢ 0 → Agree (suc n) p q i → Agree n p q (i + 1)
Agree-tail n p q i more agree = λ k lo hi prior.
    agree k (omega arith) (omega arith)
      (λ j lo' lt. elim (ℕ_discrete j i) [ yes e ↦ rw e more | no ne ↦ prior j (omega arith) lt ])

Agree-end : (n : ℕ) (p q : ℕ → ℕ) (i : ℕ) → p i ≡ 0 → p i ≡ q i → Agree (suc n) p q i
Agree-end n p q i last same = λ k lo hi prior. elim (ℕ_discrete k i) [
  | yes e ↦ rw e same
  | no ne ↦ absurd (prior i (omega arith) (omega arith) last)
]

pub strncmp-Agree :
    (n : ℕ) (p q : ℕ → ℕ) (i : ℕ)
    → ((strncmp_is_zero n p q i ≡ true) × Agree n p q i)
      ⊎ ((strncmp_is_zero n p q i ≡ false) × (¬ (Agree n p q i)))
unfolding strncmp_is_zero
strncmp-Agree zero p q i = inl (refl, λ k lo hi prior. absurd (omega arith))
strncmp-Agree (suc n) p q i = elim (Bool-cases (not (p i == 0) && p i == q i)) [
  | inl on ↦
      let same : p i ≡ q i = ground arith in
      let more : p i ≢ 0 = (λ z. ground arith) in
      rw (on, strncmp_is_zero)
        (elim (strncmp-Agree n p q (i + 1)) [
          | inl (e, agree) ↦ inl (e, Agree-later n p q i same agree)
          | inr (e, differ) ↦ inr (e, λ agree. differ (Agree-tail n p q i more agree))
        ])
  | inr stop ↦ elim (Bool-cases (p i == q i)) [
    | inl e ↦
        let same : p i ≡ q i = ground arith in
        let last : p i ≡ 0 = ground arith in
        rw (stop, strncmp_is_zero) (inl (e, Agree-end n p q i last same))
    | inr e ↦
        let other : p i ≢ q i = (λ z. ground arith) in
        rw (stop, strncmp_is_zero)
          (inr (
            e,
            λ agree. other (agree i (omega arith) (omega arith) (λ j lo lt. absurd (omega arith))),
          ))
  ]
]

-- The buffer holds the entry at `o`.
module _ (name de : ℕ → ℕ) (ip : Inode) (fs : Fs) (o : ℕ)
    (read : (k : ℕ) → k < 16 → de k ≡ file_byte ip fs (o + k)) where
  pub inum-read : entry_inum de ≡ inum_at ip fs o
  inum-read =
      ap (λ x. x + 256 * de 1)
        (read 0 (omega arith) ∙ ap (file_byte ip fs) (let e : o + 0 ≡ o = omega arith in e))
      ∙ ap (λ x. file_byte ip fs o + 256 * x) (read 1 (omega arith))

  name-read : (i : ℕ) → i < 14 → de (2 + i) ≡ file_byte ip fs (o + 2 + i)
  name-read i lt =
      read (2 + i) (omega arith)
      ∙ ap (file_byte ip fs) (let e : o + (2 + i) ≡ o + 2 + i = omega arith in e)

  pub is_entry-Entry :
      ((is_entry name de ≡ true) × Entry name ip fs o)
      ⊎ ((is_entry name de ≡ false) × (¬ (Entry name ip fs o)))
  is_entry-Entry = elim (strncmp-Agree 14 name (λ i. de (2 + i)) 0) [
    | inr (e, differ) ↦ inr (
      rw e (ground arith),
      λ entry.
          differ (λ k lo hi prior.
            entry.1 k hi (λ j lt. prior j (omega arith) lt) ∙ sym (name-read k hi)),
    )
    | inl (e, agree) ↦ elim (Bool-cases (entry_inum de == 0)) [
      | inl unused ↦ inr (rw unused refl, λ entry. entry.0 (sym inum-read ∙ (ground arith)))
      | inr used ↦ inl (
        rw (used, e) refl,
        (
          λ z. (let y = inum-read ∙ z in ground arith),
          λ i lt prior. agree i (omega arith) lt (λ j lo lt'. prior j lt') ∙ name-read i lt,
        ),
      )
    ]
  ]
