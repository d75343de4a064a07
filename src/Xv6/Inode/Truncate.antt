-- ===== src/Xv6/Inode/Truncate.antt =====
-- `itrunc` of A5/xv6-public/fs.c frees the blocks of a file.
use native.Mathlib.Decide.{ℕ_discrete}
use mathlib.Core.Path.{◌∙◌, sym, ap}
use oscassignments.Base.{
  ℕ, zero, suc, ◌+◌, ◌≡◌, ◌≢◌, ◌≤◌, ◌<◌, false, update, update_self, update_ne, arith, ne→==, ◌⊎◌,
  inl, inr,
}
use oscassignments.Xv6.Types.{Result, ok, panic}
use oscassignments.Xv6.Fs.{Fs, set_bit}
use oscassignments.Xv6.Inode.{Inode, free_entries}
use oscassignments.Xv6.Inode.Free.{
  Owned, Once, Freed, bfree_used, none_yet, skip_zero, free_first, Owned-rest, Once-rest,
}

abbrev pub Emptied : (f : ℕ → ℕ) (lo hi : ℕ) → Fs → Result Fs → Type 0
Emptied f lo hi fs (ok fs') = Freed f lo hi fs fs'
Emptied f lo hi fs (panic e) = ⊥

skip-Emptied :
    (f : ℕ → ℕ) (lo hi : ℕ) (fs : Fs) (r : Result Fs)
    → f lo ≡ 0
    → Emptied f (lo + 1) hi fs r
    → Emptied f lo hi fs r
skip-Emptied f lo hi fs (ok fs') e r = skip_zero f lo hi fs fs' e r
skip-Emptied f lo hi fs (panic x) e r = r

first-Emptied :
    (f : ℕ → ℕ) (lo hi : ℕ) (fs : Fs) (r : Result Fs)
    → lo < hi
    → f lo ≢ 0
    → Once f lo hi
    → Emptied f (lo + 1) hi (set_bit (f lo) false fs) r
    → Emptied f lo hi fs r
first-Emptied f lo hi fs (ok fs') lt some once r = free_first f lo hi fs fs' lt some once r
first-Emptied f lo hi fs (panic x) lt some once r = r

pub free_entries-Emptied :
    (a left lo hi : ℕ) (fs : Fs)
    → lo + left ≡ hi
    → Owned (fs.words a) lo hi fs
    → Once (fs.words a) lo hi
    → Emptied (fs.words a) lo hi fs (free_entries a left lo fs)
unfolding free_entries
free_entries-Emptied a zero lo hi fs e own once = none_yet (fs.words a) lo hi fs (omega arith)
free_entries-Emptied a (suc left) lo hi fs e own once = elim (ℕ_discrete (fs.words a lo) 0) [
  | yes none ↦
      rw (none, free_entries)
        (skip-Emptied (fs.words a) lo hi fs (free_entries a left (lo + 1) fs) none (
          free_entries-Emptied a left (lo + 1) hi fs (omega arith)
            (λ p le lt. own p (omega arith) lt) (Once-rest (fs.words a) lo hi once)))
  | no some ↦
      rw
        (
          ne→== (fs.words a lo) 0 some,
          bfree_used (fs.words a lo) fs (own lo (omega arith) (omega arith) some),
          free_entries,
        )
        (first-Emptied (fs.words a) lo hi fs
          (free_entries a left (lo + 1) (set_bit (fs.words a lo) false fs)) (omega arith) some once
          (free_entries-Emptied a left (lo + 1) hi (set_bit (fs.words a lo) false fs) (omega arith)
            (Owned-rest (fs.words a) lo hi fs (omega arith) some once own)
            (Once-rest (fs.words a) lo hi once)))
]

-- After the first loop: the addresses in the range are 0, the others are as they were.
abbrev pub Cleared : (lo hi : ℕ) → Inode → Fs → Result (Inode × Fs) → Type 0
Cleared lo hi ip fs (ok r) =
    Freed ip.addrs lo hi fs r.1
    × ((i : ℕ) → lo ≤ i → i < hi → r.0.addrs i ≡ 0)
    × ((i : ℕ) → (i < lo) ⊎ (hi ≤ i) → r.0.addrs i ≡ ip.addrs i)
    × (r.0 ≡ record ip { addrs = r.0.addrs })
Cleared lo hi ip fs (panic e) = ⊥

Freed-along :
    (f g : ℕ → ℕ) (lo hi : ℕ) (fs fs' : Fs)
    → ((p : ℕ) → lo ≤ p → p < hi → f p ≡ g p)
    → Freed f lo hi fs fs'
    → Freed g lo hi fs fs'
Freed-along f g lo hi fs fs' same r = record {
  gone = λ x ne a. r.gone x ne (a.0, a.1, a.2, same a.0 a.1 a.2 ∙ a.3);
  rest = λ x out. r.rest x (elim out [
    | inl nil ↦ inl nil
    | inr away ↦ inr (λ a. away (a.0, a.1, a.2, sym (same a.0 a.1 a.2) ∙ a.3))
  ]);
  words = r.words;
  bytes = r.bytes;
}

pub skip-Cleared :
    (lo hi : ℕ) (ip : Inode) (fs : Fs) (r : Result (Inode × Fs))
    → ip.addrs lo ≡ 0
    → Cleared (lo + 1) hi ip fs r
    → Cleared lo hi ip fs r
skip-Cleared lo hi ip fs (panic e) none h = h
skip-Cleared lo hi ip fs (ok r) none h = (
  skip_zero ip.addrs lo hi fs r.1 none h.0,
  λ i le lt. elim (ℕ_discrete i lo) [
    | yes first ↦ h.2 i (inl (omega arith)) ∙ ap ip.addrs first ∙ none
    | no later ↦ h.1 i (omega arith) lt
  ],
  λ i out. h.2 i (elim out [ inl lt ↦ inl (omega arith) | inr ge ↦ inr ge ]),
  h.3,
)

pub first-Cleared :
    (lo hi : ℕ) (ip : Inode) (fs : Fs) (r : Result (Inode × Fs))
    → lo < hi
    → ip.addrs lo ≢ 0
    → Once ip.addrs lo hi
    → Cleared
        (lo + 1)
        hi
        (record ip { addrs = update ip.addrs lo 0 })
        (set_bit (ip.addrs lo) false fs)
        r
    → Cleared lo hi ip fs r
first-Cleared lo hi ip fs (panic e) l some once h = h
first-Cleared lo hi ip fs (ok r) l some once h = (
  free_first ip.addrs lo hi fs r.1 l some once (
      Freed-along (update ip.addrs lo 0) ip.addrs (lo + 1) hi (set_bit (ip.addrs lo) false fs) r.1
        (λ p le lt. update_ne ip.addrs lo 0 p (λ same. absurd (omega arith))) h.0),
  λ i le lt. elim (ℕ_discrete i lo) [
    | yes first ↦ h.2 i (inl (omega arith)) ∙ rw first (update_self ip.addrs lo 0)
    | no later ↦ h.1 i (omega arith) lt
  ],
  λ i out.
      h.2 i (elim out [ inl lt ↦ inl (omega arith) | inr ge ↦ inr ge ])
      ∙ update_ne ip.addrs lo 0 i
          (λ same. elim out [ inl lt ↦ absurd (omega arith) | inr ge ↦ absurd (omega arith) ]),
  h.3,
)
