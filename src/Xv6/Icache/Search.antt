-- ===== src/Xv6/Icache/Search.antt =====
-- The loop of `iget` in A5/xv6-public/fs.c against two searches, one for the inode and one for an
-- empty slot.
use mathlib.Core.Path.{◌∙◌}
use oscassignments.Base.{
  ℕ, zero, suc, ◌+◌, ◌≡◌, refl, Option, none, some, Bool-cases, arith, inl, inr, find_first,
}
use oscassignments.Xv6.Inode.{Inode}
use oscassignments.Xv6.Icache.{is_cached, is_empty, note_empty, iget_scan}

pub scan_hit :
    (dev inum : ℕ) (icache : ℕ → Inode) (left i : ℕ) (empty : Option ℕ)
    → (iget_scan dev inum icache left i empty).0
      ≡ find_first (λ j. is_cached dev inum (icache j)) left i
unfolding iget_scan find_first
scan_hit dev inum icache zero i empty = refl
scan_hit dev inum icache (suc left) i empty = elim (Bool-cases (is_cached dev inum (icache i))) [
  | inl t ↦ rw (t, iget_scan, find_first) refl
  | inr t ↦
      rw (t, iget_scan, find_first)
        (scan_hit dev inum icache left (i + 1) (note_empty empty i (icache i)))
]

-- The empty slot is the first one, when no slot holds the inode.
abbrev pub first_empty : (ℕ → Inode) → (left i : ℕ) → Option ℕ → Option ℕ
first_empty icache left i (some e) = some e
first_empty icache left i none = find_first (λ j. is_empty (icache j)) left i

noted :
    (icache : ℕ → Inode) (left i : ℕ) (empty : Option ℕ)
    → first_empty icache left (i + 1) (note_empty empty i (icache i))
      ≡ first_empty icache (suc left) i empty
unfolding find_first
noted icache left i (some e) = refl
noted icache left i none = elim (Bool-cases (is_empty (icache i))) [
  | inl t ↦ rw (t, find_first) refl
  | inr t ↦ rw (t, find_first) refl
]

pub scan_miss :
    (dev inum : ℕ) (icache : ℕ → Inode) (left i : ℕ) (empty : Option ℕ)
    → find_first (λ j. is_cached dev inum (icache j)) left i ≡ none
    → (iget_scan dev inum icache left i empty).1 ≡ first_empty icache left i empty
unfolding iget_scan find_first
scan_miss dev inum icache zero i (some e) = λ miss. refl
scan_miss dev inum icache zero i none = λ miss. refl
scan_miss dev inum icache (suc left) i empty = elim (Bool-cases (is_cached dev inum (icache i))) [
  | inl t ↦ rw (t, iget_scan, find_first) (λ miss. absurd (ground arith))
  | inr t ↦
      rw (t, iget_scan, find_first)
        (λ miss.
          scan_miss dev inum icache left (i + 1) (note_empty empty i (icache i)) miss
          ∙ noted icache left i empty)
]
