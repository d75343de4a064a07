-- ===== src/Xv6/Bcache/Steps.antt =====
-- The calls of A5/xv6-public/bio.c in any order, by any processes.
use mathlib.Core.Path.{subst, sym}
use oscassignments.Base.{ℕ, ◌<◌, ◌≡◌, refl, Bool, true, some}
use oscassignments.Xv6.Types.{ok}
use oscassignments.Xv6.Bcache.{
  Bcache, set_buf, bget, fill_buf, bwrite, brelse, holds, acquire_buf, binit, nbuf,
}
use oscassignments.Xv6.Bcache.Unique.{set_buf-OneSlot, fill_buf-Kept, bwrite-Kept, Kept}
use oscassignments.Xv6.Bcache.Calls.{
  Whole, Sound, Good, brelse-Good, Got, bget-Got, Waited, acquire_buf-Waited, binit-Sound,
}

-- One call, by the process `cur`, on a disk of `disksize` blocks. The holder of a buffer's lock may put
-- anything into its contents, and `log_write` marks it dirty.
pub data Step (disksize : ℕ) : Bcache → (ℕ → ℕ) → Bcache → (ℕ → ℕ) → Type 0 where
  gets :
      (dev blockno : ℕ) (c : Bcache) (disk : ℕ → ℕ) (r : ℕ × Bcache)
      → bget dev blockno c ≡ ok r
      → Step disksize c disk r.1 disk
  locks :
      (cur i : ℕ) (c c' : Bcache) (disk : ℕ → ℕ)
      → acquire_buf cur i c ≡ some c'
      → Step disksize c disk c' disk
  fills :
      (cur i : ℕ) (c : Bcache) (disk : ℕ → ℕ) (r : (ℕ → ℕ) × Bcache)
      → fill_buf cur disksize disk i c ≡ ok r
      → Step disksize c disk r.1 r.0
  edits :
      (cur i x : ℕ) (d : Bool) (c : Bcache) (disk : ℕ → ℕ)
      → holds cur (c.buf i) ≡ true
      → Step disksize c disk (set_buf i (record (c.buf i) { contents = x; dirty = d }) c) disk
  writes :
      (cur i : ℕ) (c : Bcache) (disk : ℕ → ℕ) (r : (ℕ → ℕ) × Bcache)
      → bwrite cur disksize disk i c ≡ ok r
      → Step disksize c disk r.1 r.0
  releases :
      (cur i : ℕ) (c c' : Bcache) (disk : ℕ → ℕ)
      → i < nbuf
      → brelse cur i c ≡ ok c'
      → Step disksize c disk c' disk

pub data Reachable (disksize : ℕ) : Bcache → (ℕ → ℕ) → Type 0 where
  start : (disk : ℕ → ℕ) → Reachable disksize binit disk
  next :
      (c c' : Bcache) (disk disk' : ℕ → ℕ)
      → Reachable disksize c disk
      → Step disksize c disk c' disk'
      → Reachable disksize c' disk'

Step-Sound :
    (disksize : ℕ) (c c' : Bcache) (disk disk' : ℕ → ℕ)
    → Step disksize c disk c' disk'
    → Sound c
    → Sound c'
Step-Sound n c c' _ _ (gets dev k _ disk r e) s =
    let g : Got dev k c (ok r) = subst (Got dev k c) e (bget-Got dev k c s.0) in
    (g.0, subst Whole (sym g.1) s.1)
Step-Sound n c c' _ _ (locks cur i _ _ disk e) s = subst Waited e (acquire_buf-Waited cur i c s)
Step-Sound n c c' _ _ (fills cur i _ disk r e) s =
    let g : Kept c.order (ok r) = subst (Kept c.order) e (fill_buf-Kept cur n disk i c s.0) in
    (g.0, subst Whole (sym g.1) s.1)
Step-Sound n c c' _ _ (edits cur i x d _ disk e) s =
    (set_buf-OneSlot i (record (c.buf i) { contents = x; dirty = d }) c (refl, refl) s.0, s.1)
Step-Sound n c c' _ _ (writes cur i _ disk r e) s =
    let g : Kept c.order (ok r) = subst (Kept c.order) e (bwrite-Kept cur n disk i c s.0) in
    (g.0, subst Whole (sym g.1) s.1)
Step-Sound n c c' _ _ (releases cur i _ _ disk lt e) s = subst Good e (brelse-Good cur i c lt s)

-- However the calls interleave, no block of a disk is ever in two buffers, and every buffer stays in the
-- list.
pub Reachable-Sound :
    (disksize : ℕ) (c : Bcache) (disk : ℕ → ℕ) → Reachable disksize c disk → Sound c
Reachable-Sound n c _ (start disk) = binit-Sound
Reachable-Sound n c _ (next c0 _ d0 _ h s) = Step-Sound n c0 c d0 _ s (Reachable-Sound n c0 d0 h)
