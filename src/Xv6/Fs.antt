-- ===== src/Xv6/Fs.antt =====
-- The blocks of the file system of A5/xv6-public/fs.c and fs.h. A block's contents are kept in three
-- readings, each used for the blocks the code reads that way: the bits of a bitmap block, the bytes of
-- a data block, the numbers of an indirect block. `bread`, `log_write` and `brelse` read and write
-- them.
pub mod Bitmap
use oscassignments.Base.{
  ℕ, zero, suc, ◌+◌, ◌-◌, ◌*◌, ◌/◌, ◌%◌, Bool, true, false, not, Option, none, some, update, ltb,
  if◌then◌else◌,
}
use oscassignments.Xv6.Types.{Panic, Result, ok, panic}

abbrev pub bsize : ℕ
bsize = 512

abbrev pub bpb : ℕ
bpb = 4096

-- `struct superblock`, less `nblocks` and the place of the log.
pub record Superblock : Type 0 where
  pub size : ℕ
  pub ninodes : ℕ
  pub inodestart : ℕ
  pub bmapstart : ℕ

pub record Fs : Type 0 where
  pub sb : Superblock
  pub bits : ℕ → ℕ → Bool
  pub bytes : ℕ → ℕ → ℕ
  pub words : ℕ → ℕ → ℕ

abbrev pub bblock : ℕ → Superblock → ℕ
bblock b sb = b / bpb + sb.bmapstart

-- The bit of a block in the free map.
abbrev pub is_used : ℕ → Fs → Bool
is_used b fs = fs.bits (bblock b fs.sb) (b % bpb)

abbrev pub set_bit : ℕ → Bool → Fs → Fs
set_bit b v fs = record fs {
  bits = update fs.bits (bblock b fs.sb) (update (fs.bits (bblock b fs.sb)) (b % bpb) v);
}

unfoldable pub bzero : ℕ → Fs → Fs
bzero b fs = record fs { bytes = update fs.bytes b (λ i. 0); words = update fs.words b (λ i. 0) }

-- The inner loop of `balloc`, with `left` bits to go: a free block among those of one bitmap block.
unfoldable pub find_bit : Fs → (b : ℕ) → (left bi : ℕ) → Option ℕ
find_bit fs b zero bi = none
find_bit fs b (suc left) bi = elim (ltb (b + bi) fs.sb.size) [
  | false ↦ none
  | true ↦ elim (fs.bits (bblock b fs.sb) bi) [
    | false ↦ some (b + bi)
    | true ↦ find_bit fs b left (bi + 1)
  ]
]

-- The outer loop, on fuel: a pass moves `b` by `bpb`, so as many passes as blocks are enough.
unfoldable pub find_free : Fs → (fuel b : ℕ) → Option ℕ
find_free fs zero b = none
find_free fs (suc fuel) b = elim (ltb b fs.sb.size) [
  | false ↦ none
  | true ↦ elim (find_bit fs b bpb 0) [ some x ↦ some x | none ↦ find_free fs fuel (b + bpb) ]
]

unfoldable pub balloc : Fs → Result (ℕ × Fs)
balloc fs = elim (find_free fs fs.sb.size 0) [
  | some b ↦ ok (b, bzero b (set_bit b true fs))
  | none ↦ panic Panic.out_of_blocks
]

unfoldable pub bfree : ℕ → Fs → Result Fs
bfree b fs = if is_used b fs then ok (set_bit b false fs) else panic Panic.freeing_free_block
