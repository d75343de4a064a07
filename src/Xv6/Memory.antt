-- ===== src/Xv6/Memory.antt =====
-- Bytes in memory: the functions of A5/xv6-public/string.c. Memory is a function
-- of the address; the ranges lie below the end of the address space, so addresses do not wrap.
pub mod Move
pub mod Strings
pub mod Set
pub mod Tests
use oscassignments.Base.{
  ℕ, zero, suc, ◌+◌, ◌-◌, true, false, Bool, ◌&&◌, ltb, leb, ◌==◌, if◌then◌else◌, update, not, ◌%◌,
  ◌/◌,
}
use oscassignments.Base.Int.{ℤ, pos, negsuc}

abbrev pub Memory : Type 0
Memory = ℕ → ℕ

-- `while(n-- > 0) *d++ = *s++;`
unfoldable pub copy_up : ℕ → Memory → (d s : ℕ) → Memory
copy_up zero m d s = m
copy_up (suc n) m d s = copy_up n (update m d (m s)) (d + 1) (s + 1)

-- `while(n-- > 0) *--d = *--s;`
unfoldable pub copy_down : ℕ → Memory → (d s : ℕ) → Memory
copy_down zero m d s = m
copy_down (suc n) m d s = copy_down n (update m (d - 1) (m (s - 1))) (d - 1) (s - 1)

unfoldable pub memmove : Memory → (dst src n : ℕ) → Memory
memmove m dst src n =
    if ltb src dst && ltb dst (src + n)
    then copy_down n m (dst + n) (src + n)
    else copy_up n m dst src

-- the difference of two bytes, an int
abbrev pub byte_diff : ℕ → ℕ → ℤ
byte_diff a b = if leb b a then pos (a - b) else negsuc (b - a - 1)

unfoldable pub memcmp : Memory → (s1 s2 n : ℕ) → ℤ
memcmp m s1 s2 zero = pos 0
memcmp m s1 s2 (suc n) =
    let rest = memcmp m (s1 + 1) (s2 + 1) n in
    if m s1 == m s2 then rest else byte_diff (m s1) (m s2)

-- The loop of `safestrcpy` and its last write, with room for `n` bytes more after this one.
unfoldable pub copy_string : ℕ → Memory → (s t : ℕ) → Memory
copy_string zero m s t = update m s 0
copy_string (suc n) m s t =
    let m1 = update m s (m t) in
    let rest = copy_string n m1 (s + 1) (t + 1) in if m t == 0 then update m1 (s + 1) 0 else rest

unfoldable pub safestrcpy : Memory → (s t n : ℕ) → Memory
safestrcpy m s t zero = m
safestrcpy m s t (suc n) = copy_string n m s t

-- `stosb`: `n` bytes, each the low byte of `c`.
unfoldable pub set_bytes : ℕ → Memory → (d c : ℕ) → Memory
set_bytes zero m d c = m
set_bytes (suc n) m d c = set_bytes n (update m d (c % 256)) (d + 1) c

-- `stosl` of a word whose four bytes are all the low byte of `c`.
unfoldable pub set_words : ℕ → Memory → (d c : ℕ) → Memory
set_words zero m d c = m
set_words (suc k) m d c = set_words k (set_bytes 4 m d c) (d + 4) c

unfoldable pub memset : Memory → (dst c n : ℕ) → Memory
memset m dst c n =
    if dst % 4 == 0 && n % 4 == 0 then set_words (n / 4) m dst c else set_bytes n m dst c

-- The second loop of `strncpy`, and both, with `n` bytes to go.
unfoldable pub pad : ℕ → Memory → (s : ℕ) → Memory
pad zero m s = m
pad (suc n) m s = pad n (update m s 0) (s + 1)

unfoldable pub strncpy : ℕ → Memory → (s t : ℕ) → Memory
strncpy zero m s t = m
strncpy (suc n) m s t = elim (m t == 0) [
  | true ↦ pad n (update m s (m t)) (s + 1)
  | false ↦ strncpy n (update m s (m t)) (s + 1) (t + 1)
]

unfoldable pub strncmp : ℕ → Memory → (p q : ℕ) → ℤ
strncmp zero m p q = pos 0
strncmp (suc n) m p q = elim (not (m p == 0) && m p == m q) [
  | true ↦ strncmp n m (p + 1) (q + 1)
  | false ↦ byte_diff (m p) (m q)
]

-- `strlen` on fuel, for a string that begins `n` bytes further on than at the call.
unfoldable pub strlen : (fuel : ℕ) → Memory → (s n : ℕ) → ℕ
strlen zero m s n = n
strlen (suc fuel) m s n = elim (m (s + n) == 0) [ true ↦ n | false ↦ strlen fuel m s (n + 1) ]

unfoldable pub memcpy : Memory → (dst src n : ℕ) → Memory
memcpy m dst src n = memmove m dst src n
