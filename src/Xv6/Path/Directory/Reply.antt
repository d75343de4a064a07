-- ===== src/Xv6/Path/Directory/Reply.antt =====
-- What `dirlookup` (A5/xv6-public/fs.c) replies, and that a read before it makes no difference.
use native.Mathlib.Decide.{ℕ_discrete}
use mathlib.Core.Path.{◌∙◌, ap, sym, subst}
use oscassignments.Base.{
  ℕ, ◌+◌, ◌*◌, ◌%◌, ◌≡◌, ◌≢◌, ◌≤◌, ◌<◌, arith, inl, inr, Option, none, some, ◌/◌, ◌-◌, ◌⊎◌,
}
use oscassignments.Xv6.Types.{Panic, Result, ok, panic}
use oscassignments.Xv6.Fs.{Fs}
use oscassignments.Xv6.Inode.{Inode}
use oscassignments.Xv6.Inode.Place.{place, position}
use oscassignments.Xv6.Inode.Read.{Hole, Same, file_byte}
use oscassignments.Xv6.Path.Directory.Entry.{Entry, inum_at}

-- No entry from `off` up to `stop` has the name.
abbrev pub Missing : (name : ℕ → ℕ) → Inode → Fs → (off stop : ℕ) → Type 0
Missing name ip fs off stop = (o : ℕ) → off ≤ o → o < stop → o % 16 ≡ 0 → ¬ (Entry name ip fs o)

-- The reply: null if no entry has the name, or the inode number and the offset of the first that has.
abbrev pub Reply : (name : ℕ → ℕ) → Inode → Fs → (off : ℕ) → Option (ℕ × ℕ) → Type 0
Reply name ip fs off none = Missing name ip fs off ip.size
Reply name ip fs off (some r) =
    (off ≤ r.1)
    × (r.1 < ip.size)
    × (r.1 % 16 ≡ 0)
    × Entry name ip fs r.1
    × (r.0 ≡ inum_at ip fs r.1)
    × Missing name ip fs off r.1

abbrev pub Looked :
    (name : ℕ → ℕ) → Inode → Fs → (off : ℕ) → Result (Option (ℕ × ℕ) × Inode × Fs) → Type 0
Looked name ip fs off (ok r) = Reply name ip fs off r.0 × Same ip fs r.1 r.2
Looked name ip fs off (panic e) =
    ((e ≡ Panic.out_of_blocks) × Hole ip fs off ip.size)
    ⊎ ((e ≡ Panic.dirlookup_read)
        × (ip.size % 16 ≢ 0)
        × Missing name ip fs off (ip.size - ip.size % 16))

-- A read changed no byte.
module _ (name : ℕ → ℕ) (ip : Inode) (fs : Fs) (ip1 : Inode) (fs1 : Fs)
    (s : Same ip fs ip1 fs1) where
  byte-same : (o : ℕ) → file_byte ip1 fs1 o ≡ file_byte ip fs o
  byte-same o = s.contents (o / 512) (o % 512)

  inum-same : (o : ℕ) → inum_at ip1 fs1 o ≡ inum_at ip fs o
  inum-same o =
      ap (λ x. x + 256 * file_byte ip1 fs1 (o + 1)) (byte-same o)
      ∙ ap (λ x. file_byte ip fs o + 256 * x) (byte-same (o + 1))

  Entry-before : (o : ℕ) → Entry name ip1 fs1 o → Entry name ip fs o
  Entry-before o e =
      (λ z. e.0 (inum-same o ∙ z), λ i lt prior. e.1 i lt prior ∙ byte-same (o + 2 + i))

  Entry-after : (o : ℕ) → Entry name ip fs o → Entry name ip1 fs1 o
  Entry-after o e =
      (λ z. e.0 (sym (inum-same o) ∙ z), λ i lt prior. e.1 i lt prior ∙ sym (byte-same (o + 2 + i)))

  Missing-before :
      (off stop : ℕ)
      → ¬ (Entry name ip fs off)
      → Missing name ip1 fs1 (off + 16) stop
      → off % 16 ≡ 0
      → Missing name ip fs off stop
  Missing-before off stop here later aligned = λ o lo hi al entry. elim (ℕ_discrete o off) [
    | yes e ↦ here (rw (sym e) entry)
    | no ne ↦ later o (omega arith) hi al (Entry-after o entry)
  ]

  Hole-before : (off stop : ℕ) → Hole ip1 fs1 (off + 16) stop → Hole ip fs off stop
  Hole-before off stop h = (
    h.0,
    (let l = h.1 in omega arith),
    h.2,
    elim (ℕ_discrete (place ip fs (position (h.0 / 512))) 0) [
      | yes e ↦ e
      | no ne ↦ absurd (s.stays (position (h.0 / 512)) ne h.3)
    ],
  )

  Reply-before :
      (off : ℕ) (r : Option (ℕ × ℕ))
      → ¬ (Entry name ip fs off)
      → off % 16 ≡ 0
      → Reply name ip1 fs1 (off + 16) r
      → Reply name ip fs off r
  Reply-before off none here aligned h =
      Missing-before off ip.size here (λ o lo hi al. h o lo (rw (s.size) hi) al) aligned
  Reply-before off (some r) here aligned h = (
    (let l = h.0 in omega arith),
    (let l = h.1 in omega (arith, s.size)),
    h.2,
    Entry-before r.1 h.3,
    h.4 ∙ inum-same r.1,
    Missing-before off r.1 here h.5 aligned,
  )

  pub Looked-before :
      (off : ℕ) (x : Result (Option (ℕ × ℕ) × Inode × Fs))
      → ¬ (Entry name ip fs off)
      → off % 16 ≡ 0
      → Looked name ip1 fs1 (off + 16) x
      → Looked name ip fs off x
  Looked-before off (panic e) here aligned h = elim h [
    | inl (full, (o, lo, hi, none_there)) ↦
        inl (full, Hole-before off ip.size (o, lo, omega (arith, s.size), none_there))
    | inr (short, odd, miss) ↦ inr (
      short,
      subst (λ z. z % 16 ≢ 0) s.size odd,
      Missing-before off (ip.size - ip.size % 16) here
          (subst (λ z. Missing name ip1 fs1 (off + 16) (z - z % 16)) s.size miss) aligned,
    )
  ]
  Looked-before off (ok r) here aligned h = (
    Reply-before off r.0 here aligned h.0,
    record {
      sound = h.1.sound;
      contents = λ bn j. h.1.contents bn j ∙ s.contents bn j;
      size = h.1.size ∙ s.size;
      type = h.1.type ∙ s.type;
      stays = λ q there. h.1.stays q (s.stays q there);
    },
  )
