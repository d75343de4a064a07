-- ===== src/Xv6/Bcache.antt =====
-- The buffer cache of A5/xv6-public/bio.c. Buffers are named by their slots in `bcache.buf`, and the
-- list that runs from `bcache.head` is a list of slots, the most recently used first.
pub mod Search
pub mod Unique
pub mod Calls
pub mod Steps
pub mod Serve
pub mod Tests
use oscassignments.Base.{
  ℕ, zero, suc, ◌+◌, ◌-◌, Bool, true, false, not, ◌&&◌, Option, none, some, ◌==◌, if◌then◌else◌,
  update, leb, List, [], ◌∷◌,
}
use oscassignments.Xv6.Types.{Panic, Result, ok, panic, ◌>>=◌}

abbrev pub nbuf : ℕ
nbuf = 30

-- `struct buf`; `holder` is the process that holds the sleep lock.
pub record Buf : Type 0 where
  pub valid : Bool
  pub dirty : Bool
  pub dev : ℕ
  pub blockno : ℕ
  pub holder : Option ℕ
  pub refcnt : ℕ
  pub contents : ℕ

pub record Bcache : Type 0 where
  pub buf : ℕ → Buf
  pub order : List ℕ

abbrev pub is_block : (dev blockno : ℕ) → Buf → Bool
is_block dev blockno b = b.dev == dev && b.blockno == blockno

abbrev pub is_spare : Buf → Bool
is_spare b = b.refcnt == 0 && not b.dirty

-- The first slot in the list whose buffer passes, and the last one: the loops over `next` and `prev`.
unfoldable pub find_next : (Buf → Bool) → (ℕ → Buf) → List ℕ → Option ℕ
find_next test buf [] = none
find_next test buf (i ∷ is) = elim (test (buf i)) [ true ↦ some i | false ↦ find_next test buf is ]

unfoldable pub find_prev : (Buf → Bool) → (ℕ → Buf) → List ℕ → Option ℕ
find_prev test buf [] = none
find_prev test buf (i ∷ is) = elim (find_prev test buf is) [
  | some j ↦ some j
  | none ↦ if test (buf i) then some i else none
]

abbrev pub set_buf : ℕ → Buf → Bcache → Bcache
set_buf i b c = record c { buf = update c.buf i b }

-- `bget` up to the call of `acquiresleep`.
unfoldable pub bget : (dev blockno : ℕ) → Bcache → Result (ℕ × Bcache)
bget dev blockno c = elim (find_next (is_block dev blockno) c.buf c.order) [
  | some i ↦ ok (i, set_buf i (record (c.buf i) { refcnt = (c.buf i).refcnt + 1 }) c)
  | none ↦ elim (find_prev is_spare c.buf c.order) [
    | some i ↦ ok (
      i,
      set_buf i
          (record (c.buf i) {
            dev = dev;
            blockno = blockno;
            valid = false;
            dirty = false;
            refcnt = 1;
          })
          c,
    )
    | none ↦ panic Panic.no_buffers
  ]
]

abbrev pub holds : ℕ → Buf → Bool
holds cur b = elim b.holder [ none ↦ false | some p ↦ p == cur ]

-- `iderw` of the memory disk; `disk` has the contents of its blocks.
unfoldable pub iderw : (cur disksize : ℕ) → (ℕ → ℕ) → Buf → Result ((ℕ → ℕ) × Buf)
iderw cur disksize disk b =
    if not (holds cur b)
    then panic Panic.not_holding
    else (if b.valid && not b.dirty
        then panic Panic.nothing_to_do
        else (if not (b.dev == 1)
            then panic Panic.wrong_disk
            else (if leb disksize b.blockno
                then panic Panic.block_out_of_range
                else (if b.dirty
                    then ok
                        (update disk b.blockno b.contents, record b { dirty = false; valid = true })
                    else ok (disk, record b { contents = disk b.blockno; valid = true })))))

-- `acquiresleep` of the buffer's lock by `cur`; `none` while it waits.
unfoldable pub acquire_buf : (cur i : ℕ) → Bcache → Option Bcache
acquire_buf cur i c = elim (c.buf i).holder [
  | some p ↦ none
  | none ↦ some (set_buf i (record (c.buf i) { holder = some cur }) c)
]

-- `bread` once `bget` has returned the slot `i`.
unfoldable pub fill_buf : (cur disksize : ℕ) → (ℕ → ℕ) → ℕ → Bcache → Result ((ℕ → ℕ) × Bcache)
fill_buf cur disksize disk i c =
    if (c.buf i).valid
    then ok (disk, c)
    else (do r ← iderw cur disksize disk (c.buf i); ok (r.0, set_buf i r.1 c))

unfoldable pub bwrite : (cur disksize : ℕ) → (ℕ → ℕ) → ℕ → Bcache → Result ((ℕ → ℕ) × Bcache)
bwrite cur disksize disk i c =
    if holds cur (c.buf i)
    then (do
      r ← iderw cur disksize disk (record (c.buf i) { dirty = true })
      ok (r.0, set_buf i r.1 c))
    else panic Panic.not_holding

unfoldable pub remove : ℕ → List ℕ → List ℕ
remove i [] = []
remove i (j ∷ js) = elim (j == i) [ true ↦ js | false ↦ j ∷ remove i js ]

-- `brelse` by the process `cur`. The last user's release moves the buffer to the front of the list.
unfoldable pub brelse : (cur i : ℕ) → Bcache → Result Bcache
brelse cur i c =
    let b = c.buf i in
    if holds cur b
    then (let c1 = set_buf i (record b { holder = none; refcnt = b.refcnt - 1 }) c in
        ok (if b.refcnt - 1 == 0 then record c1 { order = i ∷ remove i c.order } else c1))
    else panic Panic.not_holding

-- `binit` on zeroed memory; the loop puts each slot in front of the ones before it.
unfoldable pub slots_down : ℕ → List ℕ
slots_down zero = []
slots_down (suc n) = n ∷ slots_down n

abbrev pub binit : Bcache
binit = record {
  buf = λ i. record {
    valid = false;
    dirty = false;
    dev = 0;
    blockno = 0;
    holder = none;
    refcnt = 0;
    contents = 0;
  };
  order = slots_down nbuf;
}
