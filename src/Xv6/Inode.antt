-- ===== src/Xv6/Inode.antt =====
-- The blocks of a file in A5/xv6-public/fs.c: `bmap`, `itrunc`, `readi` and `writei` of an inode whose
-- lock the caller holds.
pub mod Place
pub mod Grow
pub mod Slot
pub mod Map
pub mod Read
pub mod Readi
pub mod Write
pub mod Written
pub mod Free
pub mod Truncate
pub mod Direct
pub mod Itrunc
pub mod Roundtrip
pub mod Tests
use oscassignments.Base.{
  ℕ, zero, suc, ◌+◌, ◌-◌, ◌*◌, ◌/◌, ◌%◌, ◌^◌, Bool, true, false, not, ◌&&◌, ◌||◌, Option, none,
  some, update, ltb, leb, ◌==◌, if◌then◌else◌,
}
use oscassignments.Xv6.Types.{Panic, Result, ok, panic, ◌>>=◌}
use oscassignments.Xv6.Fs.{Fs, bsize, balloc, bfree}

abbrev pub ndirect : ℕ
ndirect = 12

abbrev pub nindirect : ℕ
nindirect = 128

abbrev pub maxfile : ℕ
maxfile = 140

-- `struct inode`, less the lock; `t_dev` is the type of a device.
pub record Inode : Type 0 where
  pub dev : ℕ
  pub inum : ℕ
  pub ref : ℕ
  pub valid : Bool
  pub type : ℕ
  pub major : ℕ
  pub minor : ℕ
  pub nlink : ℕ
  pub size : ℕ
  pub addrs : ℕ → ℕ

-- The two steps of `bmap`: the block in `addrs[i]`, and the block in entry `j` of the indirect block
-- `a`; a block that is missing is allocated.
unfoldable pub addr_slot : Inode → ℕ → Fs → Result (ℕ × Inode × Fs)
addr_slot ip i fs =
    if ip.addrs i == 0
    then (do r ← balloc fs; ok (r.0, record ip { addrs = update ip.addrs i r.0 }, r.1))
    else ok (ip.addrs i, ip, fs)

unfoldable pub entry_slot : (a : ℕ) → Inode → ℕ → Fs → Result (ℕ × Inode × Fs)
entry_slot a ip j fs =
    if fs.words a j == 0
    then (do
      r ← balloc fs
      ok (r.0, ip, record r.1 { words = update (r.1.words) a (update (r.1.words a) j r.0) }))
    else ok (fs.words a j, ip, fs)

unfoldable pub bmap : Inode → ℕ → Fs → Result (ℕ × Inode × Fs)
bmap ip bn fs =
    if ltb bn ndirect
    then addr_slot ip bn fs
    else (if ltb (bn - ndirect) nindirect
        then (do r ← addr_slot ip ndirect fs; entry_slot r.0 r.1 (bn - ndirect) r.2)
        else panic Panic.bmap_out_of_range)

-- `memmove` of `m` bytes of `src` from `s` on, to `dst` from `d` on.
abbrev pub move_bytes : (dst : ℕ → ℕ) (d : ℕ) (src : ℕ → ℕ) (s m : ℕ) → ℕ → ℕ
move_bytes dst d src s m k = if leb d k && ltb k (d + m) then src (s + (k - d)) else dst k

-- The bytes of one pass of the loops of `readi` and `writei`.
abbrev pub chunk : (tot off n : ℕ) → ℕ
chunk tot off n = if ltb (n - tot) (bsize - off % bsize) then n - tot else bsize - off % bsize

-- The loop of `readi`, on fuel: a pass moves at least one byte, so `n` passes are enough.
unfoldable pub read_loop :
    (fuel : ℕ) → Inode → Fs → (dst : ℕ → ℕ) → (tot off n : ℕ) → Result ((ℕ → ℕ) × Inode × Fs)
read_loop zero ip fs dst tot off n = ok (dst, ip, fs)
read_loop (suc fuel) ip fs dst tot off n = elim (ltb tot n) [
  | false ↦ ok (dst, ip, fs)
  | true ↦ do
    r ← bmap ip (off / bsize) fs
    let m = chunk tot off n
    read_loop fuel r.1 r.2 (move_bytes dst tot (r.2.bytes r.0) (off % bsize) m) (tot + m) (off + m)
        n
]

abbrev pub store_bytes : ℕ → (ℕ → ℕ) → Fs → Fs
store_bytes a f fs = record fs { bytes = update fs.bytes a f }

-- `log_full` says of the pass that starts at byte `tot` whether its `log_write` finds the log full.
unfoldable pub write_loop :
    (fuel : ℕ) (log_full : ℕ → Bool)
    → Inode
    → Fs
    → (src : ℕ → ℕ) → (tot off n : ℕ) → Result (ℕ × Inode × Fs)
write_loop zero log_full ip fs src tot off n = ok (off, ip, fs)
write_loop (suc fuel) log_full ip fs src tot off n = elim (ltb tot n) [
  | false ↦ ok (off, ip, fs)
  | true ↦ do
    r ← bmap ip (off / bsize) fs
    let m = chunk tot off n
    elim (log_full tot) [
      | true ↦ panic Panic.too_big_a_transaction
      | false ↦
          write_loop fuel log_full r.1
            (store_bytes r.0 (move_bytes (r.2.bytes r.0) (off % bsize) src tot m) r.2) src (tot + m)
            (off + m) n
    ]
]

abbrev pub t_dev : ℕ
t_dev = 3

abbrev pub ndev : ℕ
ndev = 10

-- A device's `read` or `write` in `devsw`: from the count and the buffer, the count done and the buffer.
-- `none` is the reply -1.
abbrev pub Devsw : Type 0
Devsw = ℕ → Option (ℕ → (ℕ → ℕ) → Option ℕ × (ℕ → ℕ))

unfoldable pub on_device : Devsw → Inode → ℕ → (ℕ → ℕ) → Option ℕ × (ℕ → ℕ)
on_device devsw ip n buffer =
    if leb ndev ip.major
    then (none, buffer)
    else elim (devsw ip.major) [ none ↦ (none, buffer) | some call ↦ call n buffer ]

abbrev pub add32 : ℕ → ℕ → ℕ
add32 a b = (a + b) % 2 ^ 32

unfoldable pub readi :
    Devsw → Inode → Fs → (dst : ℕ → ℕ) → (off n : ℕ) → Result (Option ℕ × (ℕ → ℕ) × Inode × Fs)
readi devsw ip fs dst off n =
    if ip.type == t_dev
    then ok ((on_device devsw ip n dst).0, (on_device devsw ip n dst).1, ip, fs)
    else (if ltb ip.size off || ltb (add32 off n) off
        then ok (none, dst, ip, fs)
        else (let count = if ltb ip.size (add32 off n) then ip.size - off else n in
            do r ← read_loop count ip fs dst 0 off count; ok (some count, r.0, r.1, r.2)))

-- `writei`; the new size reaches the disk by `iupdate`.
unfoldable pub writei :
    Devsw
    → (log_full : ℕ → Bool) → Inode
    → Fs
    → (src : ℕ → ℕ) → (off n : ℕ) → Result (Option ℕ × Inode × Fs)
writei devsw log_full ip fs src off n =
    if ip.type == t_dev
    then ok ((on_device devsw ip n src).0, ip, fs)
    else (if ltb ip.size off || ltb (add32 off n) off
        then ok (none, ip, fs)
        else (if ltb (maxfile * bsize) (add32 off n) then ok (none, ip, fs) else (do
          r ← write_loop n log_full ip fs src 0 off n
          ok (
            some n,
            record r.1 { size = if ltb 0 n && ltb (r.1.size) r.0 then r.0 else r.1.size },
            r.2,
          ))))

-- The two loops of `itrunc`.
unfoldable pub free_direct : (left i : ℕ) → Inode → Fs → Result (Inode × Fs)
free_direct zero i ip fs = ok (ip, fs)
free_direct (suc left) i ip fs = elim (ip.addrs i == 0) [
  | true ↦ free_direct left (i + 1) ip fs
  | false ↦ do
    fs1 ← bfree (ip.addrs i) fs
    free_direct left (i + 1) (record ip { addrs = update ip.addrs i 0 }) fs1
]

unfoldable pub free_entries : (a left j : ℕ) → Fs → Result Fs
free_entries a zero j fs = ok fs
free_entries a (suc left) j fs = elim (fs.words a j == 0) [
  | true ↦ free_entries a left (j + 1) fs
  | false ↦ do fs1 ← bfree (fs.words a j) fs; free_entries a left (j + 1) fs1
]

unfoldable pub free_indirect : Inode → Fs → Result (Inode × Fs)
free_indirect ip fs = if ip.addrs ndirect == 0 then ok (ip, fs) else (do
  fs1 ← free_entries (ip.addrs ndirect) nindirect 0 fs
  fs2 ← bfree (ip.addrs ndirect) fs1
  ok (record ip { addrs = update ip.addrs ndirect 0 }, fs2))

-- `itrunc` up to `iupdate`, which writes the inode to the disk.
unfoldable pub itrunc : Inode → Fs → Result (Inode × Fs)
itrunc ip fs = do
  r ← free_direct ndirect 0 ip fs
  q ← free_indirect r.0 r.1
  ok (record q.0 { size = 0 }, q.1)
