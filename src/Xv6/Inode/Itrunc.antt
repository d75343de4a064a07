-- ===== src/Xv6/Inode/Itrunc.antt =====
-- `itrunc` of A5/xv6-public/fs.c as a whole.
use native.Mathlib.Decide.{ℕ_discrete}
use mathlib.Core.Path.{subst, ◌∙◌, ap, sym}
use oscassignments.Base.{
  ℕ, ◌+◌, ◌-◌, ◌≡◌, ◌≢◌, ◌≤◌, ◌<◌, refl, true, false, update, update_self, update_ne, arith, ne→==,
  inl, inr,
}
use oscassignments.Xv6.Types.{Result, ok, panic, ◌>>=◌}
use oscassignments.Xv6.Fs.{Fs, is_used, bfree, set_bit}
use oscassignments.Xv6.Fs.Bitmap.{below_or, set_bit-is_used_self, set_bit-is_used_ne}
use oscassignments.Xv6.Inode.{Inode, free_direct, free_entries, free_indirect, itrunc}
use oscassignments.Xv6.Inode.Place.{place, Sound}
use oscassignments.Xv6.Inode.Free.{Among, Owned, Once, Freed, bfree_used}
use oscassignments.Xv6.Inode.Truncate.{Emptied, free_entries-Emptied, Cleared}
use oscassignments.Xv6.Inode.Direct.{
  free_direct-Cleared, IsBlock, Truncated, low, high, direct_only,
}

-- What follows the entries of the indirect block, and the end of `itrunc`.
abbrev last_block : ℕ → Inode → Fs → Result (Inode × Fs)
last_block a ip1 fs2 = do fs3 ← bfree a fs2; ok (record ip1 { addrs = update ip1.addrs 12 0 }, fs3)

abbrev no_size : Inode × Fs → Result (Inode × Fs)
no_size q = ok (record q.0 { size = 0 }, q.1)

-- The blocks of the indirect block and the block itself, after the direct ones.
module _ (ip : Inode) (fs : Fs) (s : Sound ip fs) (full : ip.addrs 12 ≢ 0) (fs1 : Fs)
    (d : Freed ip.addrs 0 12 fs fs1) where
  -- No direct block stands at a later place.
  past_direct : (p : ℕ) → 12 ≤ p → place ip fs p ≢ 0 → Among ip.addrs 0 12 (place ip fs p) → ⊥
  past_direct p le some a =
      let l = a.2 in
      let e : a.0 ≡ p =
        s.single a.0 p (λ z. some (sym a.3 ∙ sym (low a.0 ip.addrs fs.words (omega arith)) ∙ z))
          (low a.0 ip.addrs fs.words (omega arith) ∙ a.3) in
      absurd (omega arith)

  entries_still : (p : ℕ) → 12 ≤ p → place ip fs p ≢ 0 → is_used (place ip fs p) fs1 ≡ true
  entries_still p le some = d.rest (place ip fs p) (inr (past_direct p le some)) ∙ s.owned p some

  abbrev entries : ℕ → ℕ
  entries = fs.words (ip.addrs 12)

  entries-Owned : Owned entries 0 128 fs1
  entries-Owned j le lt some =
      subst (λ x. is_used x fs1 ≡ true) (high j ip.addrs fs.words full)
        (entries_still (13 + j) (omega arith) (λ z. some (sym (high j ip.addrs fs.words full) ∙ z)))

  entries-Once : Once entries 0 128
  entries-Once i j li hi lj hj some same =
      let e : 13 + i ≡ 13 + j =
        s.single (13 + i) (13 + j) (λ z. some (sym (high i ip.addrs fs.words full) ∙ z))
          (high i ip.addrs fs.words full ∙ same ∙ sym (high j ip.addrs fs.words full)) in
      omega arith

  not_entry : Among entries 0 128 (ip.addrs 12) → ⊥
  not_entry a =
      let e : 12 ≡ 13 + a.0 =
        s.single 12 (13 + a.0) full (sym (high a.0 ip.addrs fs.words full ∙ a.3)) in
      absurd (omega arith)

  Freed-before :
      (fs2 : Fs)
      → Freed entries 0 128 fs1 fs2
      → (x : ℕ) → x ≢ 0
      → x ≢ ip.addrs 12
      → IsBlock ip fs x
      → is_used x fs2 ≡ false
  Freed-before fs2 e x ne other b = elim (below_or b.0 12) [
    | inl l ↦
        e.rest x (
          inr (λ a. absurd (
            let eq : b.0 ≡ 13 + a.0 =
              s.single b.0 (13 + a.0) (λ z. ne (sym b.2 ∙ z))
                (b.2 ∙ sym (high a.0 ip.addrs fs.words full ∙ a.3)) in
            omega arith)))
        ∙ d.gone x ne (b.0, omega arith, l, sym (low b.0 ip.addrs fs.words (omega arith)) ∙ b.2)
    | inr g ↦ elim (ℕ_discrete b.0 12) [
      | yes last ↦
          absurd (other (sym b.2 ∙ ap (place ip fs) last ∙ low 12 ip.addrs fs.words (omega arith)))
      | no past ↦
          let up = b.1 in
          let eq : 13 + (b.0 - 13) ≡ b.0 = omega arith in
          e.gone x ne (
            b.0 - 13,
            omega arith,
            omega arith,
            sym (high (b.0 - 13) ip.addrs fs.words full) ∙ ap (place ip fs) eq ∙ b.2,
          )
    ]
  ]

  after_entries :
      (ip1 : Inode) (fs2 : Fs)
      → ip1 ≡ record ip { addrs = ip1.addrs }
      → ((i : ℕ) → 0 ≤ i → i < 12 → ip1.addrs i ≡ 0)
      → Freed entries 0 128 fs1 fs2
      → Truncated ip fs (
          ok (
            record ip1 { addrs = update ip1.addrs 12 0; size = 0 },
            set_bit (ip.addrs 12) false fs2,
          ))
  after_entries ip1 fs2 kept cleared e = (
    λ i lt. elim (ℕ_discrete i 12) [
      | yes last ↦ rw last (update_self ip1.addrs 12 0)
      | no other ↦ update_ne ip1.addrs 12 0 i other ∙ cleared i (omega arith) (omega arith)
    ],
    ap (λ (a : Inode). record a { addrs = update ip1.addrs 12 0; size = 0 }) kept,
    λ x ne b. elim (ℕ_discrete x (ip.addrs 12)) [
      | yes same ↦ rw same (set_bit-is_used_self (ip.addrs 12) false fs2)
      | no other ↦
          set_bit-is_used_ne (ip.addrs 12) x false fs2 other ∙ Freed-before fs2 e x ne other b
    ],
    λ x out.
        set_bit-is_used_ne (ip.addrs 12) x false fs2 (λ same. elim out [
          | inl nil ↦ full (sym same ∙ nil)
          | inr away ↦ away (12, omega arith, low 12 ip.addrs fs.words (omega arith) ∙ sym same)
        ])
        ∙ e.rest x (elim out [
          | inl nil ↦ inl nil
          | inr away ↦ inr (λ a.
              away (13 + a.0, (let l = a.2 in omega arith), high a.0 ip.addrs fs.words full ∙ a.3))
        ])
        ∙ d.rest x (elim out [
          | inl nil ↦ inl nil
          | inr away ↦ inr (λ a. away (
            a.0,
            (let l = a.2 in omega arith),
            low a.0 ip.addrs fs.words (let l = a.2 in omega arith) ∙ a.3,
          ))
        ]),
  )

  last_used : (fs2 : Fs) → Freed entries 0 128 fs1 fs2 → is_used (ip.addrs 12) fs2 ≡ true
  last_used fs2 e =
      e.rest (ip.addrs 12) (inr not_entry)
      ∙ subst (λ x. is_used x fs1 ≡ true) (low 12 ip.addrs fs.words (omega arith))
          (entries_still 12 (omega arith)
            (λ z. full (sym (low 12 ip.addrs fs.words (omega arith)) ∙ z)))

  Emptied-entries : Emptied entries 0 128 fs1 (free_entries (ip.addrs 12) 128 0 fs1)
  Emptied-entries =
      subst
        (λ (w : ℕ → ℕ → ℕ).
          Emptied (w (ip.addrs 12)) 0 128 fs1 (free_entries (ip.addrs 12) 128 0 fs1))
        d.words
        (free_entries-Emptied (ip.addrs 12) 128 0 128 fs1 refl
          (subst (λ (w : ℕ → ℕ → ℕ). Owned (w (ip.addrs 12)) 0 128 fs1) (sym d.words) entries-Owned)
          (subst (λ (w : ℕ → ℕ → ℕ). Once (w (ip.addrs 12)) 0 128) (sym d.words) entries-Once))

  then_last :
      (ip1 : Inode) (r : Result Fs)
      → ip1 ≡ record ip { addrs = ip1.addrs }
      → ((i : ℕ) → 0 ≤ i → i < 12 → ip1.addrs i ≡ 0)
      → Emptied entries 0 128 fs1 r
      → Truncated ip fs ((r >>= last_block (ip.addrs 12) ip1) >>= no_size)
  then_last ip1 (panic x) kept cleared h = h
  then_last ip1 (ok fs2) kept cleared h =
      rw (bfree_used (ip.addrs 12) fs2 (last_used fs2 h)) (after_entries ip1 fs2 kept cleared h)

then_indirect :
    (ip : Inode) (fs : Fs) (r : Result (Inode × Fs))
    → Sound ip fs
    → Cleared 0 12 ip fs r
    → Truncated ip fs
        (r >>= (λ r. free_indirect r.0 r.1 >>= (λ q. ok (record q.0 { size = 0 }, q.1))))
unfolding free_indirect
then_indirect ip fs (panic e) s h = h
then_indirect ip fs (ok r) s h = elim (ℕ_discrete (ip.addrs 12) 0) [
  | yes none ↦
      let e : r.0.addrs 12 ≡ 0 = h.2 12 (inr (omega arith)) ∙ none in
      rw (e, free_indirect) (direct_only ip fs r none h)
  | no full ↦
      let e : r.0.addrs 12 ≡ ip.addrs 12 = h.2 12 (inr (omega arith)) in
      rw (e, ne→== (ip.addrs 12) 0 full, free_indirect)
        (then_last ip fs s full r.1 h.0 r.0 (free_entries (ip.addrs 12) 128 0 r.1) h.3 h.1
          (Emptied-entries ip fs s full r.1 h.0))
]

-- `itrunc` of an inode whose blocks are marked as used and distinct never stops the machine: it frees
-- every block of the file, the indirect block and all that it names, frees no other block, and leaves
-- an inode of size 0 without blocks.
pub itrunc_lem : (ip : Inode) (fs : Fs) → Sound ip fs → Truncated ip fs (itrunc ip fs)
unfolding itrunc
itrunc_lem ip fs s = then_indirect ip fs (free_direct 12 0 ip fs) s (
    free_direct-Cleared 12 0 12 ip fs refl
      (λ p le lt some.
        subst (λ x. is_used x fs ≡ true) (low p ip.addrs fs.words (omega arith))
          (s.owned p (λ z. some (sym (low p ip.addrs fs.words (omega arith)) ∙ z))))
      (λ p q lp hp lq hq some same.
        s.single p q (λ z. some (sym (low p ip.addrs fs.words (omega arith)) ∙ z))
          (low p ip.addrs fs.words (omega arith)
            ∙ same
            ∙ sym (low q ip.addrs fs.words (omega arith)))))
