-- ===== src/Xv6/Icache.antt =====
-- The inode cache of A5/xv6-public/fs.c: `icache.inode`, by slot, and the inodes on the disk, by their
-- number (`IBLOCK` and `IPB` place each at a block and an index of its own). The loops over `&icache`
-- and over the numbers are on the count that is left.
pub mod Search
pub mod Unique
pub mod Put
pub mod Tests
use oscassignments.Base.{
  ℕ, zero, suc, ◌+◌, ◌-◌, Bool, true, false, not, ◌&&◌, Option, none, some, ◌==◌, if◌then◌else◌,
  update, ltb,
}
use oscassignments.Xv6.Types.{Panic, Result, ok, panic, ◌>>=◌}
use oscassignments.Xv6.Fs.{Fs}
use oscassignments.Xv6.Inode.{Inode, itrunc}

abbrev pub ninode : ℕ
ninode = 50

-- `struct dinode`.
pub record Dinode : Type 0 where
  pub type : ℕ
  pub major : ℕ
  pub minor : ℕ
  pub nlink : ℕ
  pub size : ℕ
  pub addrs : ℕ → ℕ

abbrev pub is_cached : (dev inum : ℕ) → Inode → Bool
is_cached dev inum ip = not (ip.ref == 0) && (ip.dev == dev && ip.inum == inum)

abbrev pub is_empty : Inode → Bool
is_empty ip = ip.ref == 0

-- The loop of `iget`: the slot that holds the inode, and the first empty slot that it passed.
abbrev pub note_empty : Option ℕ → ℕ → Inode → Option ℕ
note_empty (some e) i ip = some e
note_empty none i ip = if is_empty ip then some i else none

unfoldable pub iget_scan :
    (dev inum : ℕ) → (ℕ → Inode) → (left i : ℕ) → (empty : Option ℕ) → Option ℕ × Option ℕ
iget_scan dev inum icache zero i empty = (none, empty)
iget_scan dev inum icache (suc left) i empty = elim (is_cached dev inum (icache i)) [
  | true ↦ (some i, empty)
  | false ↦ iget_scan dev inum icache left (i + 1) (note_empty empty i (icache i))
]

abbrev pub recycled : (dev inum : ℕ) → Inode → Inode
recycled dev inum ip = record ip { dev = dev; inum = inum; ref = 1; valid = false }

abbrev pub iget_of : (dev inum : ℕ) → (ℕ → Inode) → Option ℕ → Option ℕ → Result (ℕ × (ℕ → Inode))
iget_of dev inum icache (some i) empty =
    ok (i, update icache i (record (icache i) { ref = (icache i).ref + 1 }))
iget_of dev inum icache none (some i) = ok (i, update icache i (recycled dev inum (icache i)))
iget_of dev inum icache none none = panic Panic.no_inodes

unfoldable pub iget : (dev inum : ℕ) → (ℕ → Inode) → Result (ℕ × (ℕ → Inode))
iget dev inum icache =
    let found = iget_scan dev inum icache ninode 0 none in iget_of dev inum icache found.0 found.1

unfoldable pub idup : ℕ → (ℕ → Inode) → ℕ → Inode
idup i icache = update icache i (record (icache i) { ref = (icache i).ref + 1 })

unfoldable pub iupdate : Inode → (ℕ → Dinode) → ℕ → Dinode
iupdate ip dinodes = update dinodes ip.inum (record {
  type = ip.type;
  major = ip.major;
  minor = ip.minor;
  nlink = ip.nlink;
  size = ip.size;
  addrs = ip.addrs;
})

-- `ilock` once `acquiresleep` has returned.
unfoldable pub ilock : Inode → (ℕ → Dinode) → Result Inode
ilock ip dinodes =
    if ip.ref == 0
    then panic Panic.ilock_fault
    else (if ip.valid
        then ok ip
        else (let d = dinodes ip.inum in
            if d.type == 0
            then panic Panic.no_type
            else ok (record ip {
              type = d.type;
              major = d.major;
              minor = d.minor;
              nlink = d.nlink;
              size = d.size;
              addrs = d.addrs;
              valid = true;
            })))

-- `ialloc`: the first free inode on the disk, from number `inum` on.
unfoldable pub ialloc_from :
    (dev type : ℕ)
    → (left inum : ℕ) → (ℕ → Dinode)
    → (ℕ → Inode)
    → Result (ℕ × (ℕ → Dinode) × (ℕ → Inode))
ialloc_from dev type zero inum dinodes icache = panic Panic.no_inodes
ialloc_from dev type (suc left) inum dinodes icache = elim ((dinodes inum).type == 0) [
  | true ↦ do
    r ← iget dev inum icache
    ok (
      r.0,
      update dinodes inum
          (record { type = type; major = 0; minor = 0; nlink = 0; size = 0; addrs = λ i. 0 }),
      r.1,
    )
  | false ↦ ialloc_from dev type left (inum + 1) dinodes icache
]

unfoldable pub ialloc :
    (dev type ninodes : ℕ) → (ℕ → Dinode) → (ℕ → Inode) → Result (ℕ × (ℕ → Dinode) × (ℕ → Inode))
ialloc dev type ninodes dinodes icache = ialloc_from dev type (ninodes - 1) 1 dinodes icache

-- The free map and the blocks, the inodes on the disk, the cache.
pub record Files : Type 0 where
  pub fs : Fs
  pub dinodes : ℕ → Dinode
  pub icache : ℕ → Inode

-- `iput`: an inode that is valid, has no links and no other reference is truncated and freed.
unfoldable pub release_file : ℕ → Files → Result Files
release_file i s =
    let ip = s.icache i in
    if ip.valid && (ip.nlink == 0 && ip.ref == 1)
    then (do
      r ← itrunc ip s.fs
      let freed : Inode = record r.0 { type = 0; valid = false }
      ok (record {
        fs = r.1;
        dinodes = iupdate (record r.0 { type = 0 }) (iupdate r.0 s.dinodes);
        icache = update s.icache i freed;
      }))
    else ok s

unfoldable pub iput : ℕ → Files → Result Files
iput i s = do
  q ← release_file i s
  ok (record q { icache = update q.icache i (record (q.icache i) { ref = (q.icache i).ref - 1 }) })
