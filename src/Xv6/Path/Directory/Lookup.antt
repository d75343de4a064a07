-- ===== src/Xv6/Path/Directory/Lookup.antt =====
-- The loop of `dirlookup` (A5/xv6-public/fs.c).
use oscassignments.Base.{ℕ, ◌+◌, ◌%◌, ◌^◌, Bool, true, false, Option, some}
use oscassignments.Xv6.Types.{Panic, Result, ok, panic}
use oscassignments.Xv6.Fs.{Fs}
use oscassignments.Xv6.Inode.{Inode, Devsw}
use oscassignments.Xv6.Path.Directory.{entry_inum, scan_entries}

abbrev Read : Type 0
Read = Option ℕ × (ℕ → ℕ) × Inode × Fs

-- A pass, after its read.
abbrev pass :
    (counted hit : Bool)
    → Devsw
    → (name : ℕ → ℕ) → (fuel off : ℕ) → Read
    → Result (Option (ℕ × ℕ) × Inode × Fs)
pass counted hit devsw name fuel off r = elim counted [
  | false ↦ panic Panic.dirlookup_read
  | true ↦ elim hit [
    | true ↦ ok (some (entry_inum (r.1), off), r.2, r.3)
    | false ↦ scan_entries devsw name fuel ((off + 16) % 2 ^ 32) (r.1) (r.2) (r.3)
  ]
]
