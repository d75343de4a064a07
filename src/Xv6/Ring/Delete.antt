-- ===== src/Xv6/Ring/Delete.antt =====
-- `deleteIdx` of A5/xv6-public/proc.c against removal from the list of slots.
use oscassignments.Base.{
  ℕ, zero, suc, ◌+◌, ◌-◌, ◌%◌, ◌≤◌, ◌<◌, ◌≡◌, ◌∙◌, Option, none, some, List, [], ◌∷◌, ◌++◌, update,
  length, length-append, arith, ne→==,
}
use oscassignments.Xv6.Types.{Proc, ok}
use oscassignments.Xv6.Ring.{
  Ring, max_proc_count, next_index, back_index, set_pos, shift, delete_idx,
}
use oscassignments.Xv6.Ring.Refine.{Seg, Represents, Seg-update}

-- What `shift` leaves when the entries behind `i` are `zs`.
abbrev pub shifted : List ℕ → (ℕ → Option ℕ) → ℕ → ℕ → Option ℕ
shifted [] cells i = cells
shifted (z ∷ zs) cells i = shifted zs (update cells i (some z)) (next_index i)

abbrev pub moved : List ℕ → (ℕ → Proc) → ℕ → ℕ → Proc
moved [] procs i = procs
moved (z ∷ zs) procs i = moved zs (set_pos procs z i) (next_index i)

pub shift-eq :
    (zs : List ℕ) (f back i : ℕ) (cells : ℕ → Option ℕ) (procs : ℕ → Proc)
    → i < max_proc_count
    → length zs < f
    → length zs + 1 < max_proc_count
    → back ≡ (i + length zs) % max_proc_count
    → Seg cells (next_index i) zs
    → shift f back i cells procs ≡ ok (shifted zs cells i, moved zs procs i)
unfolding shift
shift-eq zs zero back i cells procs hi hf hm hb s = absurd (omega arith)
shift-eq [] (suc f) back i cells procs hi hf hm hb s = ground arith
shift-eq (z ∷ zs) (suc f) back i cells procs hi hf hm hb s = ground (
  arith,
  shift-eq zs f back (next_index i) (update cells i (some z)) (set_pos procs z i) (omega arith)
      (omega arith) (omega arith) (omega arith)
      (Seg-update zs cells (next_index (next_index i)) i (max_proc_count - 2) (some z) (omega arith)
        (omega arith) (omega arith) (omega arith) s.1),
)

-- The shift leaves alone a segment that ends at or before its first write.
pub shifted-before :
    (zs ys : List ℕ) (cells : ℕ → Option ℕ) (s i k : ℕ)
    → s < max_proc_count
    → i ≡ (s + k) % max_proc_count
    → length ys ≤ k
    → k + length zs < max_proc_count
    → Seg cells s ys
    → Seg (shifted zs cells i) s ys
shifted-before [] ys cells s i k hs hi hl hk seg = seg
shifted-before (z ∷ zs) ys cells s i k hs hi hl hk seg =
    shifted-before zs ys (update cells i (some z)) s (next_index i) (k + 1) hs (omega arith)
      (omega arith) (omega arith) (Seg-update ys cells s i k (some z) hs hi hl (omega arith) seg)

-- Behind it stand the entries, each one place nearer to the front.
pub shifted-Seg :
    (zs : List ℕ) (cells : ℕ → Option ℕ) (i : ℕ)
    → i < max_proc_count
    → length zs + 1 < max_proc_count
    → Seg cells (next_index i) zs
    → Seg (shifted zs cells i) i zs
shifted-Seg [] cells i hi hm s = tt
shifted-Seg (z ∷ zs) cells i hi hm s = (
  (shifted-before zs (z ∷ []) cells' i (next_index i) 1 hi (omega arith) (omega arith) (omega arith)
      (ground arith, tt)).0,
  shifted-Seg zs cells' (next_index i) (omega arith) (omega arith) (
      Seg-update zs cells (next_index (next_index i)) i (max_proc_count - 2) (some z) (omega arith)
        (omega arith) (omega arith) (omega arith) s.1),
)
  where
    cells' : ℕ → Option ℕ
    cells' = update cells i (some z)

pub Seg-join :
    (ys zs : List ℕ) (cells : ℕ → Option ℕ) (s i : ℕ)
    → s < max_proc_count
    → i ≡ (s + length ys) % max_proc_count
    → Seg cells s ys
    → Seg cells i zs
    → Seg cells s (ys ++ zs)
Seg-join [] zs cells s i hs hi a b = let e : i ≡ s = omega arith in rw (← e) b
Seg-join (y ∷ ys) zs cells s i hs hi a b =
    (a.0, Seg-join ys zs cells (next_index s) i (omega arith) (omega arith) a.1 b)

pub Seg-split :
    (ys zs : List ℕ) (cells : ℕ → Option ℕ) (s i : ℕ)
    → s < max_proc_count
    → i ≡ (s + length ys) % max_proc_count
    → Seg cells s (ys ++ zs)
    → Seg cells s ys × Seg cells i zs
Seg-split [] zs cells s i hs hi a = let e : i ≡ s = omega arith in (tt, rw e a)
Seg-split (y ∷ ys) zs cells s i hs hi a =
    let rest : Seg cells (next_index s) ys × Seg cells i zs =
      Seg-split ys zs cells (next_index s) i (omega arith) (omega arith) a.1 in
    ((a.0, rest.0), rest.1)

-- The ring that `deleteIdx` leaves.
abbrev pub deleted : Ring → ℕ → List ℕ → Ring
deleted r idx zs = record r { cells = shifted zs (update r.cells idx none) idx; size = r.size - 1 }

module _ (r : Ring) (procs : ℕ → Proc) (ys zs : List ℕ) (x idx : ℕ)
    (rep : Represents r (ys ++ (x ∷ zs))) (at : idx ≡ (r.start + length ys) % max_proc_count) where
  parts : Seg r.cells r.start ys × Seg r.cells idx (x ∷ zs)
  parts = Seg-split ys (x ∷ zs) r.cells r.start idx rep.start_in at rep.seg

  size_parts : r.size ≡ length ys + suc (length zs)
  size_parts = rep.size_eq ∙ length-append ys (x ∷ zs)

  room_parts : length ys + suc (length zs) < max_proc_count
  room_parts = omega (arith, length-append ys (x ∷ zs), rep.room)

  behind : Seg (update r.cells idx none) (next_index idx) zs
  behind =
      Seg-update zs r.cells (next_index idx) idx (max_proc_count - 1) none (omega arith)
        (omega arith) (omega (arith, room_parts)) (omega arith) parts.1.1

  before : Seg (update r.cells idx none) r.start ys
  before =
      Seg-update ys r.cells r.start idx (length ys) none rep.start_in at (omega arith)
        (omega (arith, room_parts)) parts.0

  shift_done :
      shift max_proc_count (back_index (deleted r idx [])) idx (update r.cells idx none) procs
      ≡ ok (shifted zs (update r.cells idx none) idx, moved zs procs idx)
  shift_done =
      shift-eq zs max_proc_count (back_index (deleted r idx [])) idx (update r.cells idx none) procs
        (omega arith) (omega (arith, room_parts)) (omega (arith, room_parts))
        (omega (arith, size_parts, room_parts)) behind

  pub delete_idx_lem : delete_idx r procs idx ≡ ok (deleted r idx zs, moved zs procs idx)
  unfolding delete_idx
  delete_idx_lem =
      rw (parts.1.0, delete_idx, ne→== r.size 0 (omega (arith, size_parts)), shift_done)

  pub deleted-Represents : Represents (deleted r idx zs) (ys ++ zs)
  deleted-Represents = record {
    start_in = rep.start_in;
    size_eq = omega (arith, size_parts, length-append ys zs);
    room = omega (arith, room_parts, length-append ys zs);
    seg =
        Seg-join ys zs _ r.start idx rep.start_in at
          (shifted-before zs ys _ r.start idx (length ys) rep.start_in at (omega arith)
            (omega (arith, room_parts)) before)
          (shifted-Seg zs _ idx (omega arith) (omega (arith, room_parts)) behind);
  }
