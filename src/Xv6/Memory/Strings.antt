-- ===== src/Xv6/Memory/Strings.antt =====
-- What `memcmp` and `safestrcpy` of A5/xv6-public/string.c do.
use oscassignments.Base.{
  ℕ, zero, suc, ◌+◌, ◌-◌, ◌≤◌, ◌<◌, ◌≡◌, ◌≢◌, ◌⊎◌, ◌↔◌, inl, inr, ◌==◌, update, update_self,
  update_ne, refl, arith, Bool-cases, ◌∙◌, ==→eq, eq→==, ap, sym,
}
use native.Mathlib.Decide.{ℕ_discrete}
use oscassignments.Base.Int.{pos, pos_part, neg_part}
use oscassignments.Xv6.Memory.{Memory, byte_diff, memcmp, copy_string, safestrcpy}

byte_diff_zero : (a b : ℕ) → byte_diff a b ≡ pos 0 → a ≡ b
byte_diff_zero a b e =
    let p : pos_part (byte_diff a b) ≡ 0 = ap pos_part e in
    let q : neg_part (byte_diff a b) ≡ 0 = ap neg_part e in ground arith

abbrev Same : Memory → (s1 s2 n : ℕ) → Type 0
Same m s1 s2 n = (i : ℕ) → i < n → m (s1 + i) ≡ m (s2 + i)

later_agree :
    (m : Memory) (s1 s2 n : ℕ) → m s1 ≡ m s2 → Same m (s1 + 1) (s2 + 1) n → Same m s1 s2 (suc n)
later_agree m s1 s2 n e h i lt = elim (ℕ_discrete i 0) [
  | yes z ↦ let a : s1 + i ≡ s1 = omega arith in let b : s2 + i ≡ s2 = omega arith in rw (a, b) e
  | no more ↦
      let a : s1 + i ≡ s1 + 1 + (i - 1) = omega arith in
      let b : s2 + i ≡ s2 + 1 + (i - 1) = omega arith in rw (a, b) (h (i - 1) (omega arith))
]

first_agree : (m : Memory) (s1 s2 n : ℕ) → Same m s1 s2 (suc n) → m s1 ≡ m s2
first_agree m s1 s2 n h =
    let a : s1 ≡ s1 + 0 = omega arith in
    let b : s2 ≡ s2 + 0 = omega arith in ap m a ∙ h 0 (omega arith) ∙ ap m (sym b)

rest_agree : (m : Memory) (s1 s2 n : ℕ) → Same m s1 s2 (suc n) → Same m (s1 + 1) (s2 + 1) n
rest_agree m s1 s2 n h i lt =
    let a : s1 + 1 + i ≡ s1 + (i + 1) = omega arith in
    let b : s2 + 1 + i ≡ s2 + (i + 1) = omega arith in rw (a, b) (h (i + 1) (omega arith))

-- `memcmp` returns 0 exactly if the two ranges hold the same bytes.
pub memcmp_lem :
    (n : ℕ) (m : Memory) (s1 s2 : ℕ)
    → (memcmp m s1 s2 n ≡ pos 0) ↔ ((i : ℕ) → i < n → m (s1 + i) ≡ m (s2 + i))
unfolding memcmp
memcmp_lem zero m s1 s2 = (λ e i lt. absurd (omega arith), λ h. refl)
memcmp_lem (suc n) m s1 s2 =
    let rest = memcmp_lem n m (s1 + 1) (s2 + 1) in
    elim (Bool-cases (m s1 == m s2)) [
      | inl e ↦
          rw (e, memcmp)
            (
              λ z. later_agree m s1 s2 n (==→eq (m s1) (m s2) e) (rest.0 z),
              λ h. rest.1 (rest_agree m s1 s2 n h),
            )
      | inr e ↦
          let differ : m s1 ≢ m s2 = λ s. let x = eq→== (m s1) (m s2) s in ground arith in
          rw (e, memcmp)
            (
              λ z. absurd (differ (byte_diff_zero (m s1) (m s2) z)),
              λ h. absurd (differ (first_agree m s1 s2 n h)),
            )
    ]

-- There is a zero among the first `n` bytes from `s` on, and no byte outside of them has changed.
pub record Ended (n : ℕ) (m : Memory) (s : ℕ) (m' : Memory) : Type 0 where
  pub at : ℕ
  pub inside : at < n
  pub zero_there : m' (s + at) ≡ 0
  pub others : (a : ℕ) → (a < s) ⊎ (s + n ≤ a) → m' a ≡ m a

copy_string-Ended : (n : ℕ) (m : Memory) (s t : ℕ) → Ended (suc n) m s (copy_string n m s t)
unfolding copy_string
copy_string-Ended zero m s t = record {
  at = 0;
  inside = omega arith;
  zero_there = let e : s + 0 ≡ s = omega arith in rw e (update_self m s 0);
  others = λ a out. update_ne m s 0 a (elim out [ inl lo ↦ omega arith | inr hi ↦ omega arith ]);
}
copy_string-Ended (suc n) m s t =
    let m1 = update m s (m t) in
    let first : (a : ℕ) → (a < s) ⊎ (s + suc (suc n) ≤ a) → m1 a ≡ m a =
      λ a out. update_ne m s (m t) a (elim out [ inl lo ↦ omega arith | inr hi ↦ omega arith ]) in
    elim (Bool-cases (m t == 0)) [
      | inl stop ↦
          rw (stop, copy_string)
            (record {
              at = 1;
              inside = omega arith;
              zero_there = update_self m1 (s + 1) 0;
              others = λ a out.
                  update_ne m1 (s + 1) 0 a
                    (elim out [ inl lo ↦ omega arith | inr hi ↦ omega arith ])
                  ∙ first a out;
            })
      | inr go ↦
          let rest = copy_string-Ended n m1 (s + 1) (t + 1) in
          rw (go, copy_string)
            (record {
              at = rest.at + 1;
              inside = omega (arith, rest.inside);
              zero_there =
                  let e : s + (rest.at + 1) ≡ s + 1 + rest.at = omega arith in
                  rw e (rest.zero_there);
              others = λ a out.
                  rest.others a
                    (elim out [ inl lo ↦ inl (omega arith) | inr hi ↦ inr (omega arith) ])
                  ∙ first a out;
            })
    ]

-- With room for a byte or more, `safestrcpy` leaves a string that ends within its room, and writes
-- nowhere else.
pub safestrcpy_lem : (m : Memory) (s t n : ℕ) → 1 ≤ n → Ended n m s (safestrcpy m s t n)
unfolding safestrcpy
safestrcpy_lem m s t zero some_room = absurd (omega arith)
safestrcpy_lem m s t (suc n) some_room = copy_string-Ended n m s t
