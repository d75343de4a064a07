-- ===== src/Xv6/Kalloc.antt =====
-- The page allocator, A5/xv6-public/kalloc.c, on its free list. The junk that `kfree` fills a page
-- with and the lock taken once `use_lock` is set do not show here.
pub mod Pages
use oscassignments.Base.{
  ℕ, zero, suc, ◌+◌, ◌-◌, ◌*◌, ◌/◌, ◌%◌, ◌^◌, Bool, true, false, Option, none, some, List, [], ◌∷◌,
  ◌==◌, ltb, leb, ◌||◌, if◌then◌else◌,
}
use oscassignments.Xv6.Types.{Panic, Result, ok, panic, ◌>>=◌, sub32}

abbrev pub pgsize : ℕ
pgsize = 4096

abbrev pub kernbase : ℕ
kernbase = 0x8000_0000

abbrev pub phystop : ℕ
phystop = 0xE00_0000

-- `V2P`, on 32-bit addresses
abbrev pub v2p : ℕ → ℕ
v2p a = sub32 a kernbase

abbrev pub pg_round_up : ℕ → ℕ
pg_round_up a = (a + (pgsize - 1)) / pgsize * pgsize

-- `v % PGSIZE || v < end || V2P(v) >= PHYSTOP`
abbrev pub bad_page : (kernel_end : ℕ) → ℕ → Bool
bad_page kernel_end v = ltb 0 (v % pgsize) || (ltb v kernel_end || leb phystop (v2p v))

unfoldable pub kfree : (kernel_end : ℕ) → ℕ → List ℕ → Result (List ℕ)
kfree kernel_end v freelist =
    if bad_page kernel_end v then panic Panic.kfree_range else ok (v ∷ freelist)

unfoldable pub kalloc : List ℕ → Option ℕ × List ℕ
kalloc [] = (none, [])
kalloc (r ∷ rest) = (some r, rest)

-- The loop of `freerange` from page `p` on. Each round leaves fewer pages before `vend`.
unfoldable pub free_pages : ℕ → (kernel_end vend p : ℕ) → List ℕ → Result (List ℕ)
free_pages zero kernel_end vend p freelist = ok freelist
free_pages (suc f) kernel_end vend p freelist =
    if leb (p + pgsize) vend
    then (do
      freelist' ← kfree kernel_end p freelist
      free_pages f kernel_end vend (p + pgsize) freelist')
    else ok freelist

unfoldable pub freerange : (kernel_end vstart vend : ℕ) → List ℕ → Result (List ℕ)
freerange kernel_end vstart vend freelist =
    free_pages (vend / pgsize + 1) kernel_end vend (pg_round_up vstart) freelist
