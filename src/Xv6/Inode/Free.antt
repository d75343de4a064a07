-- ===== src/Xv6/Inode/Free.antt =====
-- The loops of `itrunc` of A5/xv6-public/fs.c.
use native.Mathlib.Decide.{ℕ_discrete}
use mathlib.Core.Path.{subst, ◌∙◌, sym, ap}
use oscassignments.Base.{ℕ, ◌+◌, ◌≡◌, ◌≢◌, ◌≤◌, ◌<◌, refl, true, false, arith, ◌⊎◌, inl, inr}
use oscassignments.Xv6.Types.{ok}
use oscassignments.Xv6.Fs.{Fs, is_used, bfree, set_bit}
use oscassignments.Xv6.Fs.Bitmap.{set_bit-is_used_self, set_bit-is_used_ne}

-- The block `x` is one of the numbers `f lo`, …, `f (hi - 1)`.
abbrev pub Among : (f : ℕ → ℕ) (lo hi x : ℕ) → Type 0
Among f lo hi x = (p : ℕ) × (lo ≤ p) × (p < hi) × (f p ≡ x)

-- What may be freed: numbers that are 0 or of a used block, no block twice.
abbrev pub Owned : (f : ℕ → ℕ) (lo hi : ℕ) → Fs → Type 0
Owned f lo hi fs = (p : ℕ) → lo ≤ p → p < hi → f p ≢ 0 → is_used (f p) fs ≡ true

abbrev pub Once : (f : ℕ → ℕ) (lo hi : ℕ) → Type 0
Once f lo hi = (p q : ℕ) → lo ≤ p → p < hi → lo ≤ q → q < hi → f p ≢ 0 → f p ≡ f q → p ≡ q

-- From `fs` to `fs'` the blocks among these numbers have been freed, and nothing else has changed.
pub record Freed (f : ℕ → ℕ) (lo hi : ℕ) (fs fs' : Fs) : Type 0 where
  pub gone : (x : ℕ) → x ≢ 0 → Among f lo hi x → is_used x fs' ≡ false
  pub rest : (x : ℕ) → (x ≡ 0) ⊎ (Among f lo hi x → ⊥) → is_used x fs' ≡ is_used x fs
  pub words : fs'.words ≡ fs.words
  pub bytes : fs'.bytes ≡ fs.bytes

pub bfree_used : (b : ℕ) (fs : Fs) → is_used b fs ≡ true → bfree b fs ≡ ok (set_bit b false fs)
unfolding bfree
bfree_used b fs u = rw u refl

pub none_yet : (f : ℕ → ℕ) (lo hi : ℕ) (fs : Fs) → hi ≤ lo → Freed f lo hi fs fs
none_yet f lo hi fs le = record {
  gone = λ x ne a. absurd (let l = a.1 in let h = a.2 in omega arith);
  rest = λ x out. refl;
  words = refl;
  bytes = refl;
}

-- The first number is 0.
pub skip_zero :
    (f : ℕ → ℕ) (lo hi : ℕ) (fs fs' : Fs)
    → f lo ≡ 0
    → Freed f (lo + 1) hi fs fs'
    → Freed f lo hi fs fs'
skip_zero f lo hi fs fs' none r = record {
  gone = λ x ne a. elim (ℕ_discrete (a.0) lo) [
    | yes first ↦ absurd (ne (sym a.3 ∙ ap f first ∙ none))
    | no later ↦ r.gone x ne (a.0, (let l = a.1 in omega arith), a.2, a.3)
  ];
  rest = λ x out. r.rest x (elim out [
    | inl nil ↦ inl nil
    | inr away ↦ inr (λ a. away (a.0, (let l = a.1 in omega arith), a.2, a.3))
  ]);
  words = r.words;
  bytes = r.bytes;
}

not_first : (f : ℕ → ℕ) (lo p x : ℕ) → f lo ≢ x → lo ≤ p → f p ≡ x → lo + 1 ≤ p
not_first f lo p x later le e = elim (ℕ_discrete p lo) [
  | yes first ↦ absurd (later (sym (ap f first) ∙ e))
  | no other ↦ omega arith
]

-- The first number is that of a block, which is freed.
pub free_first :
    (f : ℕ → ℕ) (lo hi : ℕ) (fs fs' : Fs)
    → lo < hi
    → f lo ≢ 0
    → Once f lo hi
    → Freed f (lo + 1) hi (set_bit (f lo) false fs) fs'
    → Freed f lo hi fs fs'
free_first f lo hi fs fs' lt some once r = record {
  gone = λ x ne a. elim (ℕ_discrete (f lo) x) [
    | yes first ↦
        r.rest x (
          inr (λ b. absurd (
            let l = b.1 in
            let e = once lo b.0 (omega arith) lt (omega arith) b.2 some (first ∙ sym b.3) in
            omega arith)))
        ∙ subst (λ y. is_used x (set_bit y false fs) ≡ false) (sym first)
            (set_bit-is_used_self x false fs)
    | no later ↦ r.gone x ne (a.0, not_first f lo a.0 x later a.1 a.3, a.2, a.3)
  ];
  rest = λ x out.
      r.rest x (elim out [
        | inl nil ↦ inl nil
        | inr away ↦ inr (λ a. away (a.0, (let l = a.1 in omega arith), a.2, a.3))
      ])
      ∙ set_bit-is_used_ne (f lo) x false fs (λ same. elim out [
        | inl nil ↦ some (sym same ∙ nil)
        | inr away ↦ away (lo, omega arith, lt, sym same)
      ]);
  words = r.words;
  bytes = r.bytes;
}

-- The rest of the numbers may still be freed.
pub Owned-rest :
    (f : ℕ → ℕ) (lo hi : ℕ) (fs : Fs)
    → lo < hi
    → f lo ≢ 0
    → Once f lo hi
    → Owned f lo hi fs
    → Owned f (lo + 1) hi (set_bit (f lo) false fs)
Owned-rest f lo hi fs lt some once own p le hp full =
    set_bit-is_used_ne (f lo) (f p) false fs (λ same.
      let e = once lo p (omega arith) lt (omega arith) hp some (sym same) in absurd (omega arith))
    ∙ own p (omega arith) hp full

pub Once-rest : (f : ℕ → ℕ) (lo hi : ℕ) → Once f lo hi → Once f (lo + 1) hi
Once-rest f lo hi once p q lp hp lq hq = once p q (omega arith) hp (omega arith) hq
