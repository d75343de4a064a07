-- ===== src/Xv6/Pipe/Fifo.antt =====
-- A pipe of A5/xv6-public/pipe.c against the list of the bytes in it, first in first.
use oscassignments.Base.{
  ℕ, ◌+◌, ◌-◌, ◌%◌, ◌^◌, ◌≤◌, ◌<◌, ◌≡◌, ◌==◌, update, List, [], ◌∷◌, ◌++◌, length, length-append,
  arith,
}
use oscassignments.Xv6.Types.{add32}
use oscassignments.Xv6.Pipe.{Pipe, pipesize, is_full, is_empty}

-- The cells from counter `i` on hold these bytes.
abbrev pub Bytes : (ℕ → ℕ) → ℕ → List ℕ → Type 0
Bytes cells i [] = Unit
Bytes cells i (x ∷ xs) = (cells (i % pipesize) ≡ x) × Bytes cells (add32 i 1) xs

pub record Holds (p : Pipe) (xs : List ℕ) : Type 0 where
  pub read_in : p.nread < 2 ^ 32
  pub room : length xs ≤ pipesize
  pub write_eq : p.nwrite ≡ add32 p.nread (length xs)
  pub bytes : Bytes p.cells p.nread xs

-- A byte behind the last one changes none of them.
Bytes-update :
    (xs : List ℕ) (cells : ℕ → ℕ) (i j k b : ℕ)
    → i < 2 ^ 32
    → j ≡ (i + k) % 2 ^ 32 % pipesize
    → length xs ≤ k
    → k < pipesize
    → Bytes cells i xs
    → Bytes (update cells j b) i xs
Bytes-update [] cells i j k b hi hj hl hk s = tt
Bytes-update (x ∷ xs) cells i j k b hi hj hl hk s = (
  ground arith,
  Bytes-update xs cells (add32 i 1) j (k - 1) b (omega arith) (omega arith) (omega arith)
      (omega arith) s.1,
)

Bytes-append :
    (xs : List ℕ) (cells : ℕ → ℕ) (i j b : ℕ)
    → i < 2 ^ 32
    → j ≡ (i + length xs) % 2 ^ 32 % pipesize
    → cells j ≡ b
    → Bytes cells i xs
    → Bytes cells i (xs ++ (b ∷ []))
Bytes-append [] cells i j b hi hj e s = (ground arith, tt)
Bytes-append (x ∷ xs) cells i j b hi hj e s =
    (s.0, Bytes-append xs cells (add32 i 1) j b (omega arith) (omega arith) e s.1)

abbrev pub put : ℕ → Pipe → Pipe
put b p = record p { cells = update p.cells (p.nwrite % pipesize) b; nwrite = add32 p.nwrite 1 }

pub put-Holds :
    (b : ℕ) (p : Pipe) (xs : List ℕ)
    → Holds p xs
    → length xs < pipesize
    → Holds (put b p) (xs ++ (b ∷ []))
put-Holds b p xs h lt = record {
  read_in = h.read_in;
  room = omega (arith, length-append xs (b ∷ []));
  write_eq = omega (arith, length-append xs (b ∷ []), h.write_eq);
  bytes =
      Bytes-append xs ((put b p).cells) p.nread (p.nwrite % pipesize) b h.read_in
        (omega (arith, h.write_eq)) (ground arith)
        (Bytes-update xs p.cells p.nread (p.nwrite % pipesize) (length xs) b h.read_in
          (omega (arith, h.write_eq)) (omega arith) lt h.bytes);
}

-- The test for a full pipe, which compares counters that wrap, is right.
pub full_iff : (p : Pipe) (xs : List ℕ) → Holds p xs → is_full p ≡ (length xs == pipesize)
full_iff p xs h = ground (arith, h.read_in, h.room, h.write_eq)

pub empty_iff : (p : Pipe) (xs : List ℕ) → Holds p xs → is_empty p ≡ (length xs == 0)
empty_iff p xs h = ground (arith, h.read_in, h.room, h.write_eq)
