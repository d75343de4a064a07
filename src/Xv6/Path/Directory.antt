-- ===== src/Xv6/Path/Directory.antt =====
-- `dirlookup` of A5/xv6-public/fs.c, on a directory that `readi` reads.
pub mod Entry
pub mod Reply
pub mod Lookup
use oscassignments.Base.{
  ℕ, zero, suc, ◌+◌, ◌*◌, Bool, true, false, not, Option, none, some, ◌==◌, ◌&&◌, if◌then◌else◌,
  ltb,
}
use oscassignments.Xv6.Types.{Panic, Result, ok, panic, ◌>>=◌}
use oscassignments.Xv6.Fs.{Fs}
use oscassignments.Xv6.Inode.{Inode, Devsw, readi, add32}

abbrev pub t_dir : ℕ
t_dir = 1

-- The size of `struct dirent`: the number of the inode in two bytes, and `DIRSIZ` bytes of the name.
abbrev pub dirent_size : ℕ
dirent_size = 16

-- `de.inum`
abbrev pub entry_inum : (de : ℕ → ℕ) → ℕ
entry_inum de = de 0 + 256 * de 1

-- `strncmp`, whether it returns 0.
unfoldable pub strncmp_is_zero : (n : ℕ) → (p q : ℕ → ℕ) → (i : ℕ) → Bool
strncmp_is_zero zero p q i = true
strncmp_is_zero (suc n) p q i = elim (not (p i == 0) && p i == q i) [
  | true ↦ strncmp_is_zero n p q (i + 1)
  | false ↦ p i == q i
]

-- The entry is in use and has the name: `namecmp` compares 14 characters.
abbrev pub is_entry : (name de : ℕ → ℕ) → Bool
is_entry name de = not (entry_inum de == 0) && strncmp_is_zero 14 name (λ i. de (2 + i)) 0

-- `readi(...) == n`
abbrev pub is_count : Option ℕ → ℕ → Bool
is_count none n = false
is_count (some m) n = m == n

-- The loop, on fuel: a pass moves on by an entry. The inode's number and `*poff`; `de` is the buffer.
unfoldable pub scan_entries :
    Devsw
    → (name : ℕ → ℕ) → (fuel off : ℕ) → (de : ℕ → ℕ) → Inode
    → Fs
    → Result (Option (ℕ × ℕ) × Inode × Fs)
scan_entries devsw name zero off de ip fs = ok (none, ip, fs)
scan_entries devsw name (suc fuel) off de ip fs = elim (ltb off ip.size) [
  | false ↦ ok (none, ip, fs)
  | true ↦ do
    r ← readi devsw ip fs de off dirent_size
    elim (is_count (r.0) dirent_size) [
      | false ↦ panic Panic.dirlookup_read
      | true ↦ elim (is_entry name (r.1)) [
        | true ↦ ok (some (entry_inum (r.1), off), r.2, r.3)
        | false ↦ scan_entries devsw name fuel (add32 off dirent_size) (r.1) (r.2) (r.3)
      ]
    ]
]

-- `dirlookup` up to `iget` of the number found; `de` is what its buffer holds at the start.
unfoldable pub dirlookup :
    Devsw → (name de : ℕ → ℕ) → Inode → Fs → Result (Option (ℕ × ℕ) × Inode × Fs)
dirlookup devsw name de ip fs =
    if not (ip.type == t_dir)
    then panic Panic.dirlookup_not_dir
    else scan_entries devsw name ip.size 0 de ip fs
