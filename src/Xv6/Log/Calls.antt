-- ===== src/Xv6/Log/Calls.antt =====
-- What single calls of A5/xv6-public/log.c do to the entries of the log and to the count of operations.
use oscassignments.Xv6.Types.{ok, panic, Result}
use oscassignments.Base.{
  none, some, false, Bool-cases, ltb, leb, ◌||◌, true, ◌∙◌, refl, sym, ap, ◌-◌, ℕ, zero, suc, ◌+◌,
  ◌*◌, ◌≤◌, ◌≡◌, inl, inr, ◌==◌, Bool, arith, update, Option, ◌<◌,
}
use oscassignments.Xv6.Log.{
  Header, Machine, maxopblocks, logsize, begin_op, end_op, log_write, commit, install_from,
  write_log_from, write_head, bwrite, copy_block, install_trans, write_log, Result, note_block,
}

-- The parts of the machine that the writes of a commit leave alone.
pub record SameOps (m m' : Machine) : Type 0 where
  pub size_same : m'.size ≡ m.size
  pub outstanding_same : m'.outstanding ≡ m.outstanding

install-SameOps : (c tail : ℕ) (m : Machine) → SameOps m (install_from c tail m)
unfolding install_from bwrite
install-SameOps zero tail m = record { size_same = refl; outstanding_same = refl }
install-SameOps (suc c) tail m =
    let s = install-SameOps c (tail + 1) (copy_block (m.lh.block tail) (m.start + tail + 1) m) in
    record { size_same = s.size_same; outstanding_same = s.outstanding_same }

write_log-SameOps : (c tail : ℕ) (m : Machine) → SameOps m (write_log_from c tail m)
unfolding write_log_from bwrite
write_log-SameOps zero tail m = record { size_same = refl; outstanding_same = refl }
write_log-SameOps (suc c) tail m =
    let s = write_log-SameOps c (tail + 1) (copy_block (m.start + tail + 1) (m.lh.block tail) m) in
    record { size_same = s.size_same; outstanding_same = s.outstanding_same }

-- After a commit nothing is left in the log.
pub commit_empty : (m : Machine) → ((commit m).lh.n ≡ 0) × SameOps m (commit m)
unfolding commit write_head install_trans write_log
commit_empty m = elim (Bool-cases (ltb 0 m.lh.n)) [
  | inl some_left ↦
      let w = write_log-SameOps m.lh.n 0 m in
      let m2 = write_head (write_log_from m.lh.n 0 m) in
      let i = install-SameOps m2.lh.n 0 m2 in
      rw some_left (
        refl,
        record {
          size_same = i.size_same ∙ w.size_same;
          outstanding_same = i.outstanding_same ∙ w.outstanding_same;
        },
      )
  | inr none_left ↦
      rw none_left (ground arith, record { size_same = refl; outstanding_same = refl })
]

abbrev some_or : Machine → Option Machine → Machine
some_or m none = m
some_or m (some x) = x

abbrev ok_or : Machine → Result Machine → Machine
ok_or m (ok x) = x
ok_or m (panic e) = m

abbrev ended_or : Machine → Result (Bool × Machine) → Machine
ended_or m (ok (last, x)) = x
ended_or m (panic e) = m

pub begin_op_inv :
    (m m' : Machine)
    → begin_op m ≡ some m'
    → (record m { outstanding = m.outstanding + 1 } ≡ m')
      × (m.lh.n + (m.outstanding + 1) * maxopblocks ≤ logsize)
unfolding begin_op
begin_op_inv m m' e =
    elim (Bool-cases (m.committing || ltb logsize (m.lh.n + (m.outstanding + 1) * maxopblocks))) [
      | inl stop ↦ absurd (ground arith)
      | inr go ↦
          let r : begin_op m ≡ some (record m { outstanding = m.outstanding + 1 }) = rw go refl in
          (ap (some_or m) (sym r ∙ e), ground arith)
    ]

pub log_write_inv :
    (b v : ℕ) (m m' : Machine)
    → log_write b v m ≡ ok m'
    → (record m { cache = update m.cache b v; lh = note_block b m.lh } ≡ m') × (m.lh.n + 1 < m.size)
unfolding log_write
log_write_inv b v m m' e = elim (Bool-cases (leb logsize m.lh.n || leb (m.size - 1) m.lh.n)) [
  | inl big ↦ absurd (ground arith)
  | inr fits ↦ elim (Bool-cases (ltb m.outstanding 1)) [
    | inl none_left ↦ absurd (ground arith)
    | inr under_way ↦
        let r : log_write b v m
            ≡ ok (record m { cache = update m.cache b v; lh = note_block b m.lh }) =
          rw (fits, under_way) refl in
        (ap (ok_or m) (sym r ∙ e), ground arith)
  ]
]

pub end_op_inv :
    (m m' : Machine) (last : Bool)
    → end_op m ≡ ok (last, m')
    → (m'.size ≡ m.size) × (m'.lh ≡ m.lh) × (m'.outstanding ≡ m.outstanding - 1)
unfolding end_op
end_op_inv m m' last e = elim (Bool-cases m.committing) [
  | inl busy ↦ absurd (ground arith)
  | inr free ↦ elim (Bool-cases (m.outstanding - 1 == 0)) [
    | inl was_last ↦
        let r : end_op m
            ≡ ok (true, record m { outstanding = m.outstanding - 1; committing = true }) =
          rw (free, was_last) refl in
        let same = ap (ended_or m) (sym r ∙ e) in
        (
          ap (λ (x : Machine). x.size) (sym same),
          ap (λ (x : Machine). x.lh) (sym same),
          ap (λ (x : Machine). x.outstanding) (sym same),
        )
    | inr more ↦
        let r : end_op m ≡ ok (false, record m { outstanding = m.outstanding - 1 }) =
          rw (free, more) refl in
        let same = ap (ended_or m) (sym r ∙ e) in
        (
          ap (λ (x : Machine). x.size) (sym same),
          ap (λ (x : Machine). x.lh) (sym same),
          ap (λ (x : Machine). x.outstanding) (sym same),
        )
  ]
]

pub note_block_le : (b : ℕ) (lh : Header) → (note_block b lh).n ≤ lh.n + 1
note_block_le b lh = ground arith
