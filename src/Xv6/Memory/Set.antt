-- ===== src/Xv6/Memory/Set.antt =====
-- What `memset` and `strlen` of A5/xv6-public/string.c do.
use native.Mathlib.Decide.{ℕ_discrete}
use mathlib.Core.Path.{subst, ◌∙◌, ap, sym}
use oscassignments.Base.{
  ℕ, zero, suc, ◌+◌, ◌-◌, ◌*◌, ◌/◌, ◌%◌, ◌≤◌, ◌<◌, ◌≡◌, ◌≢◌, ◌⊎◌, inl, inr, ◌==◌, update,
  update_self, update_ne, refl, arith, Bool-cases, true, ◌&&◌, ne→==, ltb, ltb→lt,
}
use oscassignments.Xv6.Memory.{Memory, set_bytes, set_words, memset, strlen}

-- The `n` bytes from `d` on are the low byte of `c`, the others are as they were.
abbrev pub Set : Memory → (d c n : ℕ) → Memory → Type 0
Set m d c n m' =
    ((i : ℕ) → i < n → m' (d + i) ≡ c % 256) × ((a : ℕ) → (a < d) ⊎ (d + n ≤ a) → m' a ≡ m a)

set_bytes-Set : (n : ℕ) (m : Memory) (d c : ℕ) → Set m d c n (set_bytes n m d c)
unfolding set_bytes
set_bytes-Set zero m d c = ((λ i lt. absurd (omega arith)), λ a out. refl)
set_bytes-Set (suc n) m d c =
    let h = set_bytes-Set n (update m d (c % 256)) (d + 1) c in
    (
      λ i lt. elim (ℕ_discrete i 0) [
        | yes z ↦
            let e : d + i ≡ d = omega arith in
            h.1 (d + i) (inl (omega arith)) ∙ rw e (update_self m d (c % 256))
        | no more ↦
            let e : d + i ≡ d + 1 + (i - 1) = omega arith in rw e (h.0 (i - 1) (omega arith))
      ],
      λ a out.
          h.1 a (elim out [ inl lt ↦ inl (omega arith) | inr ge ↦ inr (omega arith) ])
          ∙ update_ne m d (c % 256) a
              (λ same. elim out [ inl lt ↦ absurd (omega arith) | inr ge ↦ absurd (omega arith) ]),
    )

set_words-Set : (k : ℕ) (m : Memory) (d c : ℕ) → Set m d c (4 * k) (set_words k m d c)
unfolding set_words
set_words-Set zero m d c = ((λ i lt. absurd (omega arith)), λ a out. refl)
set_words-Set (suc k) m d c =
    let f = set_bytes-Set 4 m d c in
    let h = set_words-Set k (set_bytes 4 m d c) (d + 4) c in
    (
      λ i lt. elim (Bool-cases (ltb i 4)) [
        | inl l ↦ let l4 = ltb→lt i 4 l in h.1 (d + i) (inl (omega arith)) ∙ f.0 i l4
        | inr g ↦
            let ge : 4 ≤ i = ground arith in
            let e : d + i ≡ d + 4 + (i - 4) = omega arith in rw e (h.0 (i - 4) (omega arith))
      ],
      λ a out.
          h.1 a (elim out [ inl lt ↦ inl (omega arith) | inr ge ↦ inr (omega arith) ])
          ∙ f.1 a (elim out [ inl lt ↦ inl lt | inr ge ↦ inr (omega arith) ]),
    )

whole_words : (d n : ℕ) → (d % 4 == 0 && n % 4 == 0) ≡ true → 4 * (n / 4) ≡ n
whole_words d n e = let z : n % 4 ≡ 0 = ground arith in omega arith

-- `memset` sets exactly its `n` bytes, in whole words or byte by byte.
pub memset_lem : (m : Memory) (d c n : ℕ) → Set m d c n (memset m d c n)
unfolding memset
memset_lem m d c n = elim (Bool-cases (d % 4 == 0 && n % 4 == 0)) [
  | inl even ↦
      let e : 4 * (n / 4) ≡ n = whole_words d n even in
      rw even (subst (λ k. Set m d c k (set_words (n / 4) m d c)) e (set_words-Set (n / 4) m d c))
  | inr odd ↦ rw odd (set_bytes-Set n m d c)
]

-- `strlen` of a string that ends within the fuel is the number of bytes before its end.
pub strlen_lem :
    (fuel : ℕ) (m : Memory) (s n k : ℕ)
    → m (s + (n + k)) ≡ 0
    → ((i : ℕ) → i < k → m (s + (n + i)) ≢ 0)
    → k < fuel
    → strlen fuel m s n ≡ n + k
unfolding strlen
strlen_lem zero m s n k end before lt = absurd (omega arith)
strlen_lem (suc fuel) m s n k end before lt = elim (ℕ_discrete k 0) [
  | yes z ↦
      let e : n + k ≡ n = omega arith in
      let here : m (s + n) ≡ 0 = ap (λ j. m (s + j)) (sym e) ∙ end in rw (here, strlen) (sym e)
  | no more ↦
      let e : n + k ≡ n + 1 + (k - 1) = omega arith in
      let first : m (s + n) ≢ 0 = λ z.
        before 0 (omega arith) (ap (λ j. m (s + j)) (let f : n + 0 ≡ n = omega arith in f) ∙ z) in
      rw (ne→== (m (s + n)) 0 first, strlen)
        (strlen_lem fuel m s (n + 1) (k - 1) (ap (λ j. m (s + j)) (sym e) ∙ end)
            (λ i l. λ z.
              before (i + 1) (omega arith)
                (ap (λ j. m (s + j)) (let f : n + (i + 1) ≡ n + 1 + i = omega arith in f) ∙ z))
            (omega arith)
          ∙ sym e)
]
