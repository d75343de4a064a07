-- ===== src/Xv6/Log/Space.antt =====
-- The room that `begin_op` of A5/xv6-public/log.c reserves: the file system's operations as steps.
use mathlib.Core.Path.{subst}
use oscassignments.Xv6.Types.{Panic, Result, ok, panic}
use oscassignments.Base.{
  some, false, ltb, leb, ◌||◌, true, ◌∙◌, refl, ap, ◌-◌, ℕ, suc, ◌+◌, ◌*◌, ◌≤◌, ◌≡◌, Bool, arith,
  List, [], ◌∷◌, ◌++◌, length, All, ◌<◌, update, length-append, All-drop, Bool-cases, inl, inr,
}
use oscassignments.Xv6.Log.{
  Header, Machine, maxopblocks, logsize, begin_op, end_op, finish_op, log_write, note_block,
}
use oscassignments.Xv6.Log.Calls.{
  commit_empty, begin_op_inv, log_write_inv, end_op_inv, note_block_le,
}

-- The machine, and of each operation under way how many more blocks it may log.
pub record Ops : Type 0 where
  pub machine : Machine
  pub left : List ℕ

abbrev pub ops : Machine → List ℕ → Ops
ops m l = record { machine = m; left = l }

-- What threads in the file system do. An operation logs `MAXOPBLOCKS` blocks at most, as its callers
-- see to; a commit is the step after the end of the last operation.
pub data Step : Ops → Ops → Type 0 where
  begins :
      (m m' : Machine) (l : List ℕ)
      → begin_op m ≡ some m'
      → Step (ops m l) (ops m' (maxopblocks ∷ l))
  logs :
      (m m' : Machine) (pre post : List ℕ) (k b v : ℕ)
      → log_write b v m ≡ ok m'
      → Step (ops m (pre ++ (suc k ∷ post))) (ops m' (pre ++ (k ∷ post)))
  ends :
      (m m' : Machine) (pre post : List ℕ) (k : ℕ) (last : Bool)
      → end_op m ≡ ok (last, m')
      → Step (ops m (pre ++ (k ∷ post))) (ops m' (pre ++ post))
  commits : (m : Machine) (l : List ℕ) → m.committing ≡ true → Step (ops m l) (ops (finish_op m) l)

pub data Reachable (size : ℕ) : Ops → Type 0 where
  begin :
      (m : Machine)
      → m.size ≡ size
      → m.lh.n ≡ 0
      → m.outstanding ≡ 0
      → m.committing ≡ false
      → Reachable size (ops m [])
  next : (s t : Ops) → Reachable size s → Step s t → Reachable size t

abbrev pub total : List ℕ → ℕ
total [] = 0
total (x ∷ xs) = x + total xs

total-append : (xs ys : List ℕ) → total (xs ++ ys) ≡ total xs + total ys
total-append [] ys = omega arith
total-append (x ∷ xs) ys = omega (arith, total-append xs ys)

-- The entries of the log and all that the operations may still add fit into it.
pub record Reserved (size : ℕ) (s : Ops) : Type 0 where
  pub size_eq : s.machine.size ≡ size
  pub under_way : s.machine.outstanding ≡ length s.left
  pub fits : s.machine.lh.n + total s.left ≤ logsize
  pub each : All (λ k. k ≤ maxopblocks) s.left

total_le : (l : List ℕ) → All (λ k. k ≤ maxopblocks) l → total l ≤ length l * maxopblocks
total_le [] h = omega arith
total_le (x ∷ xs) h = omega (arith, total_le xs h.1)

All-less :
    (pre post : List ℕ) (k : ℕ)
    → All (λ x. x ≤ maxopblocks) (pre ++ (suc k ∷ post))
    → All (λ x. x ≤ maxopblocks) (pre ++ (k ∷ post))
All-less [] post k h = (omega arith, h.1)
All-less (x ∷ pre) post k h = (h.0, All-less pre post k h.1)

Step-Reserved : (size : ℕ) (s t : Ops) → Reserved size s → Step s t → Reserved size t
Step-Reserved size _ _ r (begins m m' l e) =
    let (same, room) = begin_op_inv m m' e in
    let sum = total_le l r.each in
    subst (λ z. Reserved size (ops z (maxopblocks ∷ l))) same
      (record {
        size_eq = r.size_eq;
        under_way = omega (arith, r.under_way);
        fits = omega (arith, r.under_way);
        each = (omega arith, r.each);
      })
Step-Reserved size _ _ r (logs m m' pre post k b v e) =
    subst (λ z. Reserved size (ops z (pre ++ (k ∷ post)))) (log_write_inv b v m m' e).0
      (record {
        size_eq = r.size_eq;
        under_way =
            omega
              (arith, r.under_way, length-append pre (suc k ∷ post), length-append pre (k ∷ post));
        fits = omega (
          arith,
          r.fits,
          note_block_le b m.lh,
          total-append pre (suc k ∷ post),
          total-append pre (k ∷ post),
        );
        each = All-less pre post k r.each;
      })
Step-Reserved size _ _ r (ends m m' pre post k last e) =
    let (sizes, lhs, outs) = end_op_inv m m' last e in
    record {
      size_eq = sizes ∙ r.size_eq;
      under_way = omega (arith, r.under_way, length-append pre (k ∷ post), length-append pre post);
      fits = omega (
        arith,
        r.fits,
        ap (λ (h : Header). h.n) lhs,
        total-append pre (k ∷ post),
        total-append pre post,
      );
      each = All-drop (λ x. x ≤ maxopblocks) pre post k r.each;
    }
Step-Reserved size _ _ r (commits m l e) =
    let (empty, same) = commit_empty m in
    unfold finish_op in
    record {
      size_eq = same.size_same ∙ r.size_eq;
      under_way = same.outstanding_same ∙ r.under_way;
      fits = omega (arith, r.fits);
      each = r.each;
    }

pub Reachable-Reserved : (size : ℕ) (s : Ops) → Reachable size s → Reserved size s
Reachable-Reserved size _ (begin m e n o c) = record {
  size_eq = e;
  under_way = o;
  fits = omega arith;
  each = tt;
}
Reachable-Reserved size t (next s _ reach step) =
    Step-Reserved size s t (Reachable-Reserved size s reach) step

full_log : (size n : ℕ) → n < logsize → (leb logsize n || leb (size - 1) n) ≡ true → size ≤ n + 1
full_log size n lt e = ground arith

-- What a `log_write` comes to: it notes the block, or it finds the log full. The log can be full only if
-- it has `LOGSIZE` blocks in all, one of which is the header, and all but the last of the `LOGSIZE`
-- blocks that the operations may log are noted.
abbrev pub Noted : (size : ℕ) (b v : ℕ) (m : Machine) (left : List ℕ) → Result Machine → Type 0
Noted size b v m left (ok m') = m' ≡ record m { cache = update m.cache b v; lh = note_block b m.lh }
Noted size b v m left (panic e) =
    (e ≡ Panic.too_big_a_transaction) × (size ≡ logsize) × (m.lh.n + 1 ≡ logsize) × (total left ≡ 1)

noted :
    (size b v : ℕ) (m : Machine) (left : List ℕ)
    → logsize ≤ size
    → 1 ≤ total left
    → Reserved size (ops m left)
    → 1 ≤ m.outstanding
    → Noted size b v m left (log_write b v m)
unfolding log_write
noted size b v m left room rest r busy =
    elim (Bool-cases (leb logsize m.lh.n || leb (m.size - 1) m.lh.n)) [
      | inl full ↦
          let e = r.size_eq in
          let f = r.fits in
          let late : m.size ≤ m.lh.n + 1 = full_log m.size m.lh.n (omega arith) full in
          rw (full, log_write) (refl, omega arith, omega arith, omega arith)
      | inr free ↦
          let u : ltb m.outstanding 1 ≡ false = ground arith in rw (free, u, log_write) refl
    ]

-- In a log of at least `LOGSIZE` blocks, as mkfs makes it, an operation that has not logged all the
-- blocks it may notes its block, whatever other operations do, with one exception: in a log of exactly
-- `LOGSIZE` blocks that has noted all but one, where the block is the last that any operation under way
-- may log, it can stop the machine.
pub log_write_fits :
    (size : ℕ) (m : Machine) (pre post : List ℕ) (k b v : ℕ)
    → logsize ≤ size
    → Reachable size (ops m (pre ++ (suc k ∷ post)))
    → Noted size b v m (pre ++ (suc k ∷ post)) (log_write b v m)
log_write_fits size m pre post k b v room reach =
    let r = Reachable-Reserved size (ops m (pre ++ (suc k ∷ post))) reach in
    let u = r.under_way in
    noted size b v m (pre ++ (suc k ∷ post)) room (omega (arith, total-append pre (suc k ∷ post))) r
      (omega (arith, length-append pre (suc k ∷ post)))
