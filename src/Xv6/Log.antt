-- ===== src/Xv6/Log.antt =====
-- The log of the file system, A5/xv6-public/log.c: transactions that a crash leaves whole or undone.
pub mod Writes
pub mod Install
pub mod Crash
pub mod Commit
pub mod Recover
pub mod Calls
pub mod Note
pub mod Space
pub mod Tests
use oscassignments.Base.{
  ℕ, zero, suc, ◌+◌, ◌-◌, ◌*◌, Bool, true, false, Option, none, some, ◌==◌, ltb, leb, ◌||◌,
  if◌then◌else◌, update,
}
use oscassignments.Xv6.Types.{Panic, Result, ok, panic, ◌>>=◌}

abbrev pub maxopblocks : ℕ
maxopblocks = 10

abbrev pub logsize : ℕ
logsize = 30

-- `struct logheader`
pub record Header : Type 0 where
  pub n : ℕ
  pub block : ℕ → ℕ

-- The disk: the header block of the log, and each other block by its number, of which only the
-- contents as a whole matter here.
pub record Disk : Type 0 where
  pub head : Header
  pub cells : ℕ → ℕ

-- `struct log`, the disk, and what `bread` finds: the block that is in the buffer cache, or that on
-- the disk. `power` counts the blocks that will still reach the disk before the machine stops; a
-- write after that has no effect on the disk.
pub record Machine : Type 0 where
  pub start : ℕ
  pub size : ℕ
  pub outstanding : ℕ
  pub committing : Bool
  pub lh : Header
  pub disk : Disk
  pub cache : ℕ → ℕ
  pub power : ℕ

-- `bwrite` of a block of the cache
unfoldable pub bwrite : ℕ → Machine → Machine
bwrite b m = record m {
  disk = record m.disk {
    cells = if m.power == 0 then m.disk.cells else update m.disk.cells b (m.cache b);
  };
  power = m.power - 1;
}

unfoldable pub write_head : Machine → Machine
write_head m = record m {
  disk = record m.disk { head = if m.power == 0 then m.disk.head else m.lh };
  power = m.power - 1;
}

unfoldable pub read_head : Machine → Machine
read_head m = record m { lh = m.disk.head }

-- `memmove(to->data, from->data, BSIZE); bwrite(to)`
abbrev pub copy_block : (to from : ℕ) → Machine → Machine
copy_block to from m = bwrite to (record m { cache = update m.cache to (m.cache from) })

-- The loops of `install_trans` and `write_log`, `c` rounds from `tail` on.
unfoldable pub install_from : (c tail : ℕ) → Machine → Machine
install_from zero tail m = m
install_from (suc c) tail m =
    install_from c (tail + 1) (copy_block (m.lh.block tail) (m.start + tail + 1) m)

unfoldable pub write_log_from : (c tail : ℕ) → Machine → Machine
write_log_from zero tail m = m
write_log_from (suc c) tail m =
    write_log_from c (tail + 1) (copy_block (m.start + tail + 1) (m.lh.block tail) m)

unfoldable pub install_trans : Machine → Machine
install_trans m = install_from m.lh.n 0 m

unfoldable pub write_log : Machine → Machine
write_log m = write_log_from m.lh.n 0 m

abbrev pub forget : Machine → Machine
forget m = record m { lh = record m.lh { n = 0 } }

unfoldable pub recover_from_log : Machine → Machine
recover_from_log m = write_head (forget (install_trans (read_head m)))

unfoldable pub commit : Machine → Machine
commit m =
    if ltb 0 m.lh.n then write_head (forget (install_trans (write_head (write_log m)))) else m

-- One turn of the loop of `begin_op`; none if it sleeps.
unfoldable pub begin_op : Machine → Option Machine
begin_op m =
    if m.committing || ltb logsize (m.lh.n + (m.outstanding + 1) * maxopblocks)
    then none
    else some (record m { outstanding = m.outstanding + 1 })

-- `end_op` up to the release of the lock, and whether it commits. `outstanding` is positive where an
-- operation ends.
unfoldable pub end_op : Machine → Result (Bool × Machine)
end_op m =
    if m.committing
    then panic Panic.log_committing
    else if m.outstanding - 1 == 0
    then ok (true, record m { outstanding = m.outstanding - 1; committing = true })
    else ok (false, record m { outstanding = m.outstanding - 1 })

-- The rest of `end_op` where it commits.
unfoldable pub finish_op : Machine → Machine
finish_op m = record (commit m) { committing = false }

-- The loop of `log_write`: the first index from `i` on, of `c`, with this block, or the end.
unfoldable pub find_block : (c i b : ℕ) → Header → ℕ
find_block zero i b lh = i
find_block (suc c) i b lh = elim (lh.block i == b) [ true ↦ i | false ↦ find_block c (i + 1) b lh ]

abbrev pub note_block : ℕ → Header → Header
note_block b lh =
    let i = find_block lh.n 0 b lh in
    record { n = if i == lh.n then lh.n + 1 else lh.n; block = update lh.block i b }

-- `log_write` of a buffer for block `b` that the caller has filled with `v`.
unfoldable pub log_write : (b v : ℕ) → Machine → Result Machine
log_write b v m =
    if leb logsize m.lh.n || leb (m.size - 1) m.lh.n
    then panic Panic.too_big_a_transaction
    else if ltb m.outstanding 1
    then panic Panic.outside_of_trans
    else ok (record m { cache = update m.cache b v; lh = note_block b m.lh })

-- The machine after a crash: the disk is what it was, the memory is read from it.
abbrev pub boot : Machine → ℕ → Machine
boot m power = record m {
  outstanding = 0;
  committing = false;
  lh = record { n = 0; block = λ i. 0 };
  cache = m.disk.cells;
  power = power;
}
