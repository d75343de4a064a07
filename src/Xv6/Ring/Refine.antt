-- ===== src/Xv6/Ring/Refine.antt =====
-- A ring against the list of the slots that it holds, front first.
use oscassignments.Base.{
  ℕ, zero, suc, ◌+◌, ◌-◌, ◌%◌, ◌≤◌, ◌<◌, ◌≡◌, Option, some, List, [], ◌∷◌, ◌++◌, ◌==◌,
  if◌then◌else◌, update, length, length-append, any, arith,
}
use oscassignments.Xv6.Types.{Proc, ok}
use oscassignments.Xv6.Ring.{
  Ring, max_proc_count, next_index, back_index, get_front, pop_front, scan, holds_pid, append,
}

-- The cells from `i` on, round the row, hold these slots.
abbrev pub Seg : (ℕ → Option ℕ) → ℕ → List ℕ → Type 0
Seg cells i [] = Unit
Seg cells i (x ∷ xs) = (cells i ≡ some x) × Seg cells (next_index i) xs

pub record Represents (r : Ring) (xs : List ℕ) : Type 0 where
  pub start_in : r.start < max_proc_count
  pub size_eq : r.size ≡ length xs
  pub room : length xs < max_proc_count
  pub seg : Seg r.cells r.start xs

-- A write `k` places behind the front, past the last entry, changes nothing of the segment.
pub Seg-update :
    (xs : List ℕ) (cells : ℕ → Option ℕ) (i j k : ℕ) (v : Option ℕ)
    → i < max_proc_count
    → j ≡ (i + k) % max_proc_count
    → length xs ≤ k
    → k < max_proc_count
    → Seg cells i xs
    → Seg (update cells j v) i xs
Seg-update [] cells i j k v hi hj hl hk s = tt
Seg-update (x ∷ xs) cells i j k v hi hj hl hk s = (
  ground arith,
  Seg-update xs cells (next_index i) j (k - 1) v (omega arith) (omega arith) (omega arith)
      (omega arith) s.1,
)

pub Seg-append :
    (xs : List ℕ) (cells : ℕ → Option ℕ) (i j x : ℕ)
    → i < max_proc_count
    → j ≡ (i + length xs) % max_proc_count
    → cells j ≡ some x
    → Seg cells i xs
    → Seg cells i (xs ++ (x ∷ []))
Seg-append [] cells i j x hi hj e s = (ground arith, tt)
Seg-append (y ∷ xs) cells i j x hi hj e s =
    (s.0, Seg-append xs cells (next_index i) j x (omega arith) (omega arith) e s.1)

-- The loop of `pushBack` finds exactly the entries of the queue.
pub scan-eq-any :
    (procs : ℕ → Proc) (xs : List ℕ) (f : ℕ) (cells : ℕ → Option ℕ) (back pid i : ℕ)
    → i < max_proc_count
    → length xs < f
    → length xs < max_proc_count
    → back ≡ (i + length xs) % max_proc_count
    → Seg cells i xs
    → scan procs f cells back pid i ≡ any (λ s. (procs s).pid == pid) xs
unfolding scan
scan-eq-any procs xs zero cells back pid i hi hf hm hb s = absurd (omega arith)
scan-eq-any procs [] (suc f) cells back pid i hi hf hm hb s = ground arith
scan-eq-any procs (x ∷ xs) (suc f) cells back pid i hi hf hm hb s = ground (
  arith,
  scan-eq-any procs xs f cells back pid (next_index i) (omega arith) (omega arith) (omega arith)
      (omega arith) s.1,
)

pub holds_pid-eq-any :
    (procs : ℕ → Proc) (r : Ring) (xs : List ℕ) (pid : ℕ)
    → Represents r xs
    → holds_pid procs r pid ≡ any (λ s. (procs s).pid == pid) xs
unfolding holds_pid
holds_pid-eq-any procs r xs pid rep =
    scan-eq-any procs xs max_proc_count r.cells (back_index r) pid r.start rep.start_in rep.room
      rep.room (omega arith) rep.seg

pub append-Represents :
    (r : Ring) (xs : List ℕ) (p : ℕ)
    → Represents r xs
    → length xs + 1 < max_proc_count
    → Represents (append r p) (xs ++ (p ∷ []))
unfolding append
append-Represents r xs p rep h = record {
  start_in = rep.start_in;
  size_eq = omega (arith, length-append xs (p ∷ []));
  room = omega (arith, length-append xs (p ∷ []));
  seg = Seg-append xs _ r.start (back_index r) p rep.start_in (omega arith) (ground arith) (
      Seg-update xs r.cells r.start (back_index r) (length xs) (some p) rep.start_in (omega arith)
        (omega arith) rep.room rep.seg);
}

-- The front of a nonempty queue is its first slot; of an empty one there is none to be had.
pub get_front_lem :
    (r : Ring) (x : ℕ) (xs : List ℕ) → Represents r (x ∷ xs) → get_front r ≡ ok (some x)
unfolding get_front
get_front_lem r x xs rep = ground arith

wrap_eq :
    (i : ℕ) → i < max_proc_count → (if (i + 1) == max_proc_count then 0 else i + 1) ≡ next_index i
wrap_eq i h = ground arith

abbrev popped : Ring → Ring
popped r =
    let start' = r.start + 1 in
    record r { start = if start' == max_proc_count then 0 else start'; size = r.size - 1 }

pub pop_front_lem :
    (r : Ring) (x : ℕ) (xs : List ℕ)
    → Represents r (x ∷ xs)
    → (r' : Ring) × (pop_front r ≡ ok (some x, r')) × Represents r' xs
unfolding pop_front
pop_front_lem r x xs rep = (
  popped r,
  ground arith,
  record {
    start_in = ground arith;
    size_eq = omega arith;
    room = omega arith;
    seg = rw (wrap_eq r.start rep.start_in) (rep.seg.1);
  },
)
