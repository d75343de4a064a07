-- ===== src/Xv6/Ring.antt =====
-- One level of the multilevel feedback queue of A5/xv6-public/proc.c: a row of `prioQ` with its
-- `prioQStart` and `prioQSize`. A process is named by its slot in the process table.
pub mod Refine
pub mod Delete
use oscassignments.Base.{
  ℕ, zero, suc, ◌+◌, ◌-◌, ◌%◌, Bool, true, false, Option, none, some, ◌==◌, if◌then◌else◌, update,
}
use oscassignments.Base.Int.{pos}
use oscassignments.Xv6.Types.{Proc, Panic, Result, ok, panic, ◌>>=◌}

-- `MAX_PROC_COUNT`, the length of a row of `prioQ`
abbrev pub max_proc_count : ℕ
max_proc_count = 10000

-- `cells i` is `prioQ[q][i]`, `none` the null pointer.
pub record Ring : Type 0 where
  pub cells : ℕ → Option ℕ
  pub start : ℕ
  pub size : ℕ

-- The next index round the row: `i++, i %= MAX_PROC_COUNT`
abbrev pub next_index : ℕ → ℕ
next_index i = (i + 1) % max_proc_count

abbrev pub back_index : Ring → ℕ
back_index r = (r.start + r.size) % max_proc_count

-- the front pointer, which may be null
unfoldable pub get_front : Ring → Result (Option ℕ)
get_front r = if r.size == 0 then panic Panic.empty_front else ok (r.cells r.start)

unfoldable pub pop_front : Ring → Result (Option ℕ × Ring)
unfolding get_front
pop_front r = if r.size == 0 then panic Panic.empty_pop else (do
  p ← get_front r
  let start' = r.start + 1
  ok (p, record r { start = if start' == max_proc_count then 0 else start'; size = r.size - 1 }))

module _ (procs : ℕ → Proc) where
  -- `prioQ[qIdx][i] && prioQ[qIdx][i]->pid == p->pid`
  abbrev pub hit : ℕ → Option ℕ → Bool
  hit pid none = false
  hit pid (some s) = (procs s).pid == pid

  -- The loop of `pushBack`: does an entry from `i` up to `back` have this pid? One round of the row
  -- is at most `max_proc_count` steps.
  unfoldable pub scan : ℕ → (ℕ → Option ℕ) → ℕ → ℕ → ℕ → Bool
  scan zero cells back pid i = false
  scan (suc f) cells back pid i = elim (i == back) [
    | true ↦ false
    | false ↦ elim (hit pid (cells i)) [
      | true ↦ true
      | false ↦ scan f cells back pid (next_index i)
    ]
  ]

  unfoldable pub holds_pid : Ring → ℕ → Bool
  unfolding scan
  holds_pid r pid = scan max_proc_count r.cells (back_index r) pid r.start

-- What `pushBack` stores when the loop has found no entry of the pid.
unfoldable pub append : Ring → ℕ → Ring
append r p = record r { cells = update r.cells (back_index r) (some p); size = r.size + 1 }

abbrev pub set_pos : (ℕ → Proc) → ℕ → ℕ → ℕ → Proc
set_pos procs s i = update procs s (record (procs s) { alloted_pos = pos i })

-- The loop of `deleteIdx`: move each entry from `i` up to `back` one place towards the front, and
-- tell its process. A null entry is followed, which is a fault.
unfoldable pub shift :
    ℕ → ℕ → ℕ → (ℕ → Option ℕ) → (ℕ → Proc) → Result ((ℕ → Option ℕ) × (ℕ → Proc))
shift zero back i cells procs = panic Panic.fault
shift (suc f) back i cells procs = elim (i == back) [
  | true ↦ ok (cells, procs)
  | false ↦ elim (cells (next_index i)) [
    | none ↦ panic Panic.fault
    | some s ↦ shift f back (next_index i) (update cells i (some s)) (set_pos procs s i)
  ]
]

-- The size is an int: at zero `deleteIdx` would make it -1, which is no size any more. The model
-- stops there with `fault`.
unfoldable pub delete_idx : Ring → (ℕ → Proc) → ℕ → Result (Ring × (ℕ → Proc))
unfolding shift
delete_idx r procs idx = elim (r.cells idx) [
  | none ↦ panic Panic.already_deleted
  | some _ ↦ if r.size == 0 then panic Panic.fault else (do
    let r' = record r { cells = update r.cells idx none; size = r.size - 1 }
    moved ← shift max_proc_count (back_index r') idx r'.cells procs
    ok (record r' { cells = moved.0 }, moved.1))
]
