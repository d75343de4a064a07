-- ===== src/Xv6/File.antt =====
-- The file table of A5/xv6-public/file.c: `ftable.file`, by slot. A file of an inode names the slot of the
-- inode cache.
pub mod Chunks
pub mod Tests
use oscassignments.Base.{
  ℕ, zero, suc, ◌+◌, ◌-◌, Bool, true, false, not, ◌&&◌, Option, none, some, ◌==◌, if◌then◌else◌,
  update, ltb, find_first,
}
use oscassignments.Xv6.Types.{Panic, Result, ok, panic, ◌>>=◌}
use oscassignments.Xv6.Fs.{Fs}
use oscassignments.Xv6.Inode.{Inode, Devsw, readi, writei}
use oscassignments.Xv6.Icache.{Files, iput}

pub data FileKind : Type 0 where
  fd_none fd_pipe fd_inode : FileKind

-- `struct file`.
pub record File : Type 0 where
  pub kind : FileKind
  pub ref : ℕ
  pub readable : Bool
  pub writable : Bool
  pub pipe : ℕ
  pub ip : ℕ
  pub off : ℕ

abbrev pub nfile : ℕ
nfile = 100

unfoldable pub filealloc : (ℕ → File) → Option (ℕ × (ℕ → File))
filealloc files = elim (find_first (λ i. (files i).ref == 0) nfile 0) [
  | none ↦ none
  | some i ↦ some (i, update files i (record (files i) { ref = 1 }))
]

unfoldable pub filedup : ℕ → (ℕ → File) → Result (ℕ → File)
filedup i files =
    if (files i).ref == 0
    then panic Panic.filedup
    else ok (update files i (record (files i) { ref = (files i).ref + 1 }))

-- What the last close of a file does: `pipeclose` of a pipe's end, which is returned, or `iput`.
abbrev pub close_kind : FileKind → File → Files → Result (Option (ℕ × Bool) × Files)
close_kind FileKind.fd_none f s = ok (none, s)
close_kind FileKind.fd_pipe f s = ok (some (f.pipe, f.writable), s)
close_kind FileKind.fd_inode f s = do q ← iput f.ip s; ok (none, q)

unfoldable pub fileclose : ℕ → (ℕ → File) → Files → Result (Option (ℕ × Bool) × (ℕ → File) × Files)
fileclose i files s =
    let f = files i in
    if f.ref == 0
    then panic Panic.fileclose
    else (if ltb 0 (f.ref - 1)
        then ok (none, update files i (record f { ref = f.ref - 1 }), s)
        else (do
          r ← close_kind f.kind f s
          ok (r.0, update files i (record f { ref = 0; kind = FileKind.fd_none }), r.1)))

-- `fileread` of an inode's file, whose lock it holds: the reply, the buffer, the file, the inode. A reply
-- of a count moves the offset; `none` is -1.
unfoldable pub fileread :
    Devsw
    → File
    → Inode
    → Fs
    → (addr : ℕ → ℕ) → (n : ℕ) → Result (Option ℕ × (ℕ → ℕ) × File × Inode × Fs)
fileread devsw f ip fs addr n = if not f.readable then ok (none, addr, f, ip, fs) else (do
  r ← readi devsw ip fs addr f.off n
  ok (r.0, r.1, record f { off = elim r.0 [ none ↦ f.off | some m ↦ f.off + m ] }, r.2, r.3))

-- The most bytes of one transaction of `filewrite`, ((MAXOPBLOCKS-1-1-2) / 2) * 512.
abbrev pub max_chunk : ℕ
max_chunk = 1536

abbrev pub next_chunk : (i n : ℕ) → ℕ
next_chunk i n = if ltb max_chunk (n - i) then max_chunk else n - i

-- What the loop of `filewrite` does with the reply of `writei` for `n1` bytes.
abbrev pub after_write :
    Option ℕ
    → (n1 i off : ℕ) → Inode
    → Fs
    → (ℕ → ℕ → Inode → Fs → Result (ℕ × ℕ × Inode × Fs))
    → Result (ℕ × ℕ × Inode × Fs)
after_write none n1 i off ip fs onward = ok (i, off, ip, fs)
after_write (some m) n1 i off ip fs onward =
    if m == n1 then onward (i + m) (off + m) ip fs else panic Panic.short_filewrite

-- A pass writes few enough blocks for the log.
abbrev pub log_has_room : ℕ → Bool
log_has_room tot = false

-- The loop, on fuel: a pass writes at least one byte, so `n` passes are enough. It ends with the bytes
-- written and the offset. Each pass is a transaction of its own, with the inode locked.
unfoldable pub write_chunks :
    Devsw → (fuel : ℕ) → (src : ℕ → ℕ) → (i n off : ℕ) → Inode → Fs → Result (ℕ × ℕ × Inode × Fs)
write_chunks devsw zero src i n off ip fs = ok (i, off, ip, fs)
write_chunks devsw (suc fuel) src i n off ip fs = elim (ltb i n) [
  | false ↦ ok (i, off, ip, fs)
  | true ↦ do
    r ← writei devsw log_has_room ip fs (λ k. src (i + k)) off (next_chunk i n)
    after_write r.0 (next_chunk i n) i off r.1 r.2
        (λ i1 off1 ip1 fs1. write_chunks devsw fuel src i1 n off1 ip1 fs1)
]

-- `filewrite` of an inode's file.
unfoldable pub filewrite :
    Devsw → File → Inode → Fs → (addr : ℕ → ℕ) → (n : ℕ) → Result (Option ℕ × File × Inode × Fs)
filewrite devsw f ip fs addr n = if not f.writable then ok (none, f, ip, fs) else (do
  r ← write_chunks devsw n addr 0 n f.off ip fs
  ok (if r.0 == n then some n else none, record f { off = r.1 }, r.2, r.3))
