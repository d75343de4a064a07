-- ===== src/Xv6/Memory/Move.antt =====
-- What `memmove` of A5/xv6-public/string.c does.
use oscassignments.Base.{
  ℕ, zero, suc, ◌+◌, ◌-◌, ◌≤◌, ◌<◌, ◌≡◌, ◌≢◌, ◌⊎◌, inl, inr, ◌&&◌, ltb, update, update_self,
  update_ne, refl, arith, Bool-cases, ◌∙◌,
}
use native.Mathlib.Decide.{ℕ_discrete}
use oscassignments.Xv6.Memory.{Memory, copy_up, copy_down, memmove}

-- The bytes from `d` on are those that were from `s` on, and no other byte has changed.
pub record Moved (n : ℕ) (m : Memory) (d s : ℕ) (m' : Memory) : Type 0 where
  pub there : (i : ℕ) → i < n → m' (d + i) ≡ m (s + i)
  pub others : (a : ℕ) → (a < d) ⊎ (d + n ≤ a) → m' a ≡ m a

apart_ne : (n d s i : ℕ) → (d ≤ s) ⊎ (s + suc n ≤ d) → i ≢ 0 → i < suc n → s + i ≢ d
apart_ne n d s i (inl le) more lt = omega arith
apart_ne n d s i (inr le) more lt = omega arith

copy_up-Moved :
    (n : ℕ) (m : Memory) (d s : ℕ) → (d ≤ s) ⊎ (s + n ≤ d) → Moved n m d s (copy_up n m d s)
unfolding copy_up
copy_up-Moved zero m d s apart = record {
  there = λ i lt. absurd (omega arith);
  others = λ a out. refl;
}
copy_up-Moved (suc n) m d s apart =
    let m1 = update m d (m s) in
    let apart' : (d + 1 ≤ s + 1) ⊎ (s + 1 + n ≤ d + 1) = elim apart [
      | inl le ↦ inl (omega arith)
      | inr le ↦ inr (omega arith)
    ] in
    let rest = copy_up-Moved n m1 (d + 1) (s + 1) apart' in
    record {
      there = λ i lt. elim (ℕ_discrete i 0) [
        | yes z ↦
            let d_eq : d + i ≡ d = omega arith in
            let s_eq : s + i ≡ s = omega arith in
            rw (d_eq, s_eq) (rest.others d (inl (omega arith)) ∙ update_self m d (m s))
        | no more ↦
            let d_eq : d + i ≡ d + 1 + (i - 1) = omega arith in
            let s_eq : s + 1 + (i - 1) ≡ s + i = omega arith in
            rw d_eq (
              rest.there (i - 1) (omega arith)
              ∙ rw s_eq (update_ne m d (m s) (s + i) (apart_ne n d s i apart more lt)))
      ];
      others = λ a out.
          rest.others a (elim out [ inl lo ↦ inl (omega arith) | inr hi ↦ inr (omega arith) ])
          ∙ update_ne m d (m s) a (elim out [ inl lo ↦ omega arith | inr hi ↦ omega arith ]);
    }

copy_down-Moved :
    (n : ℕ) (m : Memory) (d s : ℕ) → s ≤ d → Moved n m d s (copy_down n m (d + n) (s + n))
unfolding copy_down
copy_down-Moved zero m d s le = record {
  there = λ i lt. absurd (omega arith);
  others = λ a out. refl;
}
copy_down-Moved (suc n) m d s le =
    let m1 = update m (d + suc n - 1) (m (s + suc n - 1)) in
    let d_eq : d + suc n - 1 ≡ d + n = omega arith in
    let s_eq : s + suc n - 1 ≡ s + n = omega arith in
    let rest : Moved n m1 d s (copy_down n m1 (d + suc n - 1) (s + suc n - 1)) =
      rw (d_eq, s_eq) (copy_down-Moved n (update m (d + n) (m (s + n))) d s le) in
    record {
      there = λ i lt. elim (ℕ_discrete i n) [
        | yes last ↦
            let e : d + i ≡ d + suc n - 1 = omega arith in
            let e' : s + suc n - 1 ≡ s + i = omega arith in
            rw e (
              rest.others (d + suc n - 1) (inr (omega arith))
              ∙ update_self m (d + suc n - 1) (m (s + suc n - 1))
              ∙ rw e' refl)
        | no before ↦
            rest.there i (omega arith)
            ∙ update_ne m (d + suc n - 1) (m (s + suc n - 1)) (s + i) (omega arith)
      ];
      others = λ a out.
          rest.others a (elim out [ inl lo ↦ inl lo | inr hi ↦ inr (omega arith) ])
          ∙ update_ne m (d + suc n - 1) (m (s + suc n - 1)) a
              (elim out [ inl lo ↦ omega arith | inr hi ↦ omega arith ]);
    }

-- `memmove` moves the bytes and changes no other, wherever the two ranges overlap.
pub memmove_lem : (m : Memory) (dst src n : ℕ) → Moved n m dst src (memmove m dst src n)
unfolding memmove
memmove_lem m dst src n = elim (Bool-cases (ltb src dst && ltb dst (src + n))) [
  | inl overlap ↦ rw overlap (copy_down-Moved n m dst src (ground arith))
  | inr clear ↦ rw clear (
      copy_up-Moved n m dst src (elim (Bool-cases (ltb src dst)) [
        | inl lt ↦ inr (ground arith)
        | inr ge ↦ inl (ground arith)
      ]))
]
