-- ===== src/Xv6/Inode/Grow.antt =====
-- A block that `balloc` hands out comes to stand at an empty place of the inode
-- (A5/xv6-public/fs.c, `bmap`).
use native.Mathlib.Decide.{ℕ_discrete}
use mathlib.Core.Path.{◌∙◌, sym, ap}
use oscassignments.Base.{
  ℕ, ◌≡◌, ◌≢◌, refl, true, false, update, ◌==◌, if◌then◌else◌, arith, update_ne,
}
use oscassignments.Xv6.Fs.{Fs, is_used}
use oscassignments.Xv6.Inode.{Inode}
use oscassignments.Xv6.Inode.Place.{place, position, content, byte_of, Sound, Keeps}

pub record Grown (p a : ℕ) (ip : Inode) (fs : Fs) (ip' : Inode) (fs' : Fs) : Type 0 where
  pub fresh : is_used a fs ≡ false
  pub empty : place ip fs p ≡ 0
  pub filled : place ip' fs' p ≡ a
  pub others : (q : ℕ) → q ≢ p → place ip' fs' q ≡ place ip fs q
  pub marked : is_used a fs' ≡ true
  pub rest : (x : ℕ) → x ≢ a → is_used x fs' ≡ is_used x fs
  pub zeroed : fs'.bytes ≡ update fs.bytes a (λ i. 0)
  pub size : ip'.size ≡ ip.size
  pub type : ip'.type ≡ ip.type

-- What is used is not the block handed out.
pub used_ne : (a x : ℕ) (fs : Fs) → is_used a fs ≡ false → is_used x fs ≡ true → x ≢ a
used_ne a x fs free used same =
    let e : true ≡ false = sym used ∙ ap (λ y. is_used y fs) same ∙ free in absurd (ground arith)

zeros : (bytes : ℕ → ℕ → ℕ) (a j : ℕ) → byte_of (update bytes a (λ i. 0)) a j ≡ 0
zeros bytes a j = ground arith

kept_byte :
    (bytes : ℕ → ℕ → ℕ) (a x j : ℕ)
    → (x ≢ 0 → x ≢ a)
    → byte_of (update bytes a (λ i. 0)) x j ≡ byte_of bytes x j
kept_byte bytes a x j ne = elim (ℕ_discrete x 0) [
  | yes none ↦ rw none refl
  | no full ↦ ap (λ (f : ℕ → ℕ). if x == 0 then 0 else f j) (update_ne bytes a (λ i. 0) x (ne full))
]

module _ (p a : ℕ) (ip : Inode) (fs : Fs) (ip' : Inode) (fs' : Fs) (s : Sound ip fs)
    (g : Grown p a ip fs ip' fs') where
  still_used : (x : ℕ) → is_used x fs ≡ true → is_used x fs' ≡ true
  still_used x u = g.rest x (used_ne a x fs g.fresh u) ∙ u

  -- A block at another place is an old one.
  other_ne : (q : ℕ) → q ≢ p → place ip' fs' q ≢ 0 → place ip' fs' q ≢ a
  other_ne q ne full =
      rw (g.others q ne)
        (used_ne a (place ip fs q) fs g.fresh (s.owned q (rw (← g.others q ne) full)))

  Grown-owned : (q : ℕ) → place ip' fs' q ≢ 0 → is_used (place ip' fs' q) fs' ≡ true
  Grown-owned q full = elim (ℕ_discrete q p) [
    | yes same ↦ rw (same, g.filled) g.marked
    | no other ↦
        rw (g.others q other)
          (still_used (place ip fs q) (s.owned q (rw (← g.others q other) full)))
  ]

  Grown-single : (q r : ℕ) → place ip' fs' q ≢ 0 → place ip' fs' q ≡ place ip' fs' r → q ≡ r
  Grown-single q r full same = elim (ℕ_discrete q p) [
    | yes qp ↦ elim (ℕ_discrete r p) [
      | yes rp ↦ qp ∙ sym rp
      | no ro ↦
          absurd
            (other_ne r ro (λ z. full (same ∙ z)) (sym same ∙ ap (place ip' fs') qp ∙ g.filled))
    ]
    | no qo ↦ elim (ℕ_discrete r p) [
      | yes rp ↦ absurd (other_ne q qo full (same ∙ ap (place ip' fs') rp ∙ g.filled))
      | no ro ↦
          s.single q r (rw (← g.others q qo) full) (sym (g.others q qo) ∙ same ∙ g.others r ro)
    ]
  ]

  Grown-Sound : Sound ip' fs'
  Grown-Sound = record { owned = Grown-owned; single = Grown-single; boot = still_used 0 s.boot }

  Grown-content : (bn j : ℕ) → content ip' fs' bn j ≡ content ip fs bn j
  Grown-content bn j = elim (ℕ_discrete (position bn) p) [
    | yes same ↦
        ap (λ x. byte_of fs'.bytes (place ip' fs' x) j) same
        ∙ ap (λ x. byte_of fs'.bytes x j) g.filled
        ∙ ap (λ f. byte_of f a j) g.zeroed
        ∙ zeros fs.bytes a j
        ∙ ap (λ x. byte_of fs.bytes x j) (sym (ap (place ip fs) same ∙ g.empty))
    | no other ↦
        ap (λ x. byte_of fs'.bytes x j) (g.others (position bn) other)
        ∙ ap (λ f. byte_of f (place ip fs (position bn)) j) g.zeroed
        ∙ kept_byte fs.bytes a (place ip fs (position bn)) j
            (λ full. used_ne a (place ip fs (position bn)) fs g.fresh (s.owned (position bn) full))
  ]

  pub Grown-Keeps : Keeps p ip fs ip' fs'
  Grown-Keeps = record {
    sound = Grown-Sound;
    stays = λ q full. g.others q (λ same. full (ap (place ip fs) same ∙ g.empty));
    apart = λ q ne _. g.others q ne;
    contents = Grown-content;
    used = still_used;
    size = g.size;
    type = g.type;
  }
