-- ===== src/Xv6/Inode/Direct.antt =====
-- The direct blocks in `itrunc` of A5/xv6-public/fs.c, and what `itrunc` promises.
use native.Mathlib.Decide.{ℕ_discrete}
use mathlib.Core.Path.{subst, ◌∙◌, ap, sym}
use oscassignments.Base.{
  ℕ, zero, suc, ◌+◌, ◌-◌, ◌≡◌, ◌≢◌, ◌≤◌, ◌<◌, refl, true, false, update, update_ne, arith, ne→==,
  ◌⊎◌, inl, inr,
}
use oscassignments.Xv6.Types.{Result, ok, panic}
use oscassignments.Xv6.Fs.{Fs, is_used, set_bit}
use oscassignments.Xv6.Fs.Bitmap.{below_or}
use oscassignments.Xv6.Inode.{Inode, free_direct}
use oscassignments.Xv6.Inode.Place.{place_of, place}
use oscassignments.Xv6.Inode.Free.{Owned, Once, bfree_used, none_yet, Owned-rest, Once-rest}
use oscassignments.Xv6.Inode.Truncate.{Cleared, skip-Cleared, first-Cleared}

pub free_direct-Cleared :
    (left lo hi : ℕ) (ip : Inode) (fs : Fs)
    → lo + left ≡ hi
    → Owned ip.addrs lo hi fs
    → Once ip.addrs lo hi
    → Cleared lo hi ip fs (free_direct left lo ip fs)
unfolding free_direct
free_direct-Cleared zero lo hi ip fs e own once = (
  none_yet ip.addrs lo hi fs (omega arith),
  (λ i le lt. absurd (omega arith)),
  (λ i out. refl),
  refl,
)
free_direct-Cleared (suc left) lo hi ip fs e own once = elim (ℕ_discrete (ip.addrs lo) 0) [
  | yes none ↦
      rw (none, free_direct)
        (skip-Cleared lo hi ip fs (free_direct left (lo + 1) ip fs) none (
          free_direct-Cleared left (lo + 1) hi ip fs (omega arith)
            (λ p le lt. own p (omega arith) lt) (Once-rest ip.addrs lo hi once)))
  | no some ↦
      let ip1 : Inode = record ip { addrs = update ip.addrs lo 0 } in
      let fs1 : Fs = set_bit (ip.addrs lo) false fs in
      let same : (p : ℕ) → lo + 1 ≤ p → update ip.addrs lo 0 p ≡ ip.addrs p =
        λ p le. update_ne ip.addrs lo 0 p (λ z. absurd (omega arith)) in
      rw
        (
          ne→== (ip.addrs lo) 0 some,
          bfree_used (ip.addrs lo) fs (own lo (omega arith) (omega arith) some),
          free_direct,
        )
        (first-Cleared lo hi ip fs (free_direct left (lo + 1) ip1 fs1) (omega arith) some once (
          free_direct-Cleared left (lo + 1) hi ip1 fs1 (omega arith)
            (λ p le lt full.
              subst (λ x. is_used x fs1 ≡ true) (sym (same p le))
                (Owned-rest ip.addrs lo hi fs (omega arith) some once own p le lt
                  (λ z. full (same p le ∙ z))))
            (λ p q lp hp lq hq full eq.
              once p q (omega arith) hp (omega arith) hq (λ z. full (same p lp ∙ z))
                (sym (same p lp) ∙ eq ∙ same q lq))))
]

-- The numbers of the file's blocks.
abbrev pub IsBlock : Inode → Fs → ℕ → Type 0
IsBlock ip fs x = (p : ℕ) × (p < 141) × (place ip fs p ≡ x)

abbrev pub Truncated : Inode → Fs → Result (Inode × Fs) → Type 0
Truncated ip fs (ok r) =
    ((i : ℕ) → i < 13 → r.0.addrs i ≡ 0)
    × (r.0 ≡ record ip { addrs = r.0.addrs; size = 0 })
    × ((x : ℕ) → x ≢ 0 → IsBlock ip fs x → is_used x r.1 ≡ false)
    × ((x : ℕ) → (x ≡ 0) ⊎ (IsBlock ip fs x → ⊥) → is_used x r.1 ≡ is_used x fs)
Truncated ip fs (panic e) = ⊥

pub low : (p : ℕ) (addrs : ℕ → ℕ) (words : ℕ → ℕ → ℕ) → p < 13 → place_of addrs words p ≡ addrs p
low p addrs words lt = ground arith

pub high :
    (j : ℕ) (addrs : ℕ → ℕ) (words : ℕ → ℕ → ℕ)
    → addrs 12 ≢ 0
    → place_of addrs words (13 + j) ≡ words (addrs 12) j
high j addrs words full =
    let e : 13 + j - 13 ≡ j = omega arith in rw (ne→== (addrs 12) 0 full, e) (ground arith)

pub missing :
    (p : ℕ) (addrs : ℕ → ℕ) (words : ℕ → ℕ → ℕ) → addrs 12 ≡ 0 → 12 ≤ p → place_of addrs words p ≡ 0
missing p addrs words none le = ground arith

-- The file without an indirect block.
pub direct_only :
    (ip : Inode) (fs : Fs) (r : Inode × Fs)
    → ip.addrs 12 ≡ 0
    → Cleared 0 12 ip fs (ok r)
    → Truncated ip fs (ok (record r.0 { size = 0 }, r.1))
direct_only ip fs r none h = (
  λ i lt. elim (below_or i 12) [
    | inl l ↦ h.1 i (omega arith) l
    | inr g ↦ let e : i ≡ 12 = omega arith in h.2 i (inr g) ∙ ap ip.addrs e ∙ none
  ],
  ap (λ (a : Inode). record a { size = 0 }) h.3,
  λ x ne b. elim (below_or b.0 12) [
    | inl l ↦
        h.0.gone x ne (b.0, omega arith, l, sym (low b.0 ip.addrs fs.words (omega arith)) ∙ b.2)
    | inr g ↦ absurd (ne (sym b.2 ∙ missing b.0 ip.addrs fs.words none g))
  ],
  λ x out. h.0.rest x (elim out [
    | inl nil ↦ inl nil
    | inr away ↦ inr (λ a. away (
      a.0,
      (let l = a.2 in omega arith),
      low a.0 ip.addrs fs.words (let l = a.2 in omega arith) ∙ a.3,
    ))
  ]),
)
