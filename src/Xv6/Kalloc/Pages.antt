-- ===== src/Xv6/Kalloc/Pages.antt =====
-- The free list of A5/xv6-public/kalloc.c: which pages it holds, and that none is handed out twice.
use oscassignments.Base.{
  ℕ, zero, suc, ◌+◌, ◌*◌, ◌/◌, ◌%◌, ◌≤◌, ◌<◌, ◌≡◌, ◌≢◌, refl, true, false, some, List, [], ◌∷◌, All,
  Distinct, arith, leb,
}
use oscassignments.Xv6.Types.{ok}
use oscassignments.Xv6.Kalloc.{
  pgsize, kernbase, phystop, bad_page, kfree, kalloc, free_pages, freerange, pg_round_up,
}

-- Every page on the list may be freed again, and none is on it twice.
pub record PagesOk (kernel_end : ℕ) (freelist : List ℕ) : Type 0 where
  pub good : All (λ p. bad_page kernel_end p ≡ false) freelist
  pub distinct : Distinct freelist

-- A page that `kalloc` hands out is good and no longer on the list; `kfree` puts it back where it was.
pub kalloc_lem :
    (kernel_end page : ℕ) (freelist rest : List ℕ)
    → PagesOk kernel_end freelist
    → kalloc freelist ≡ (some page, rest)
    → PagesOk kernel_end rest
      × All (λ p. p ≢ page) rest
      × (kfree kernel_end page rest ≡ ok freelist)
unfolding kalloc kfree
kalloc_lem kernel_end page [] rest v e = cc
kalloc_lem kernel_end page (p ∷ ps) rest v e =
    let ep : p ≡ page = cc in
    let er : ps ≡ rest = cc in
    rw (← ep, ← er)
      (record { good = v.good.1; distinct = v.distinct.1 }, v.distinct.0, rw (v.good.0) refl)

-- A good page that is not on the list may be freed, and `kalloc` hands it out next.
pub kfree_lem :
    (kernel_end page : ℕ) (freelist : List ℕ)
    → PagesOk kernel_end freelist
    → bad_page kernel_end page ≡ false
    → All (λ p. p ≢ page) freelist
    → (freelist' : List ℕ) × (kfree kernel_end page freelist ≡ ok freelist')
      × PagesOk kernel_end freelist'
      × (kalloc freelist' ≡ (some page, freelist))
unfolding kalloc kfree
kfree_lem kernel_end page freelist v good new = (
  page ∷ freelist,
  rw good refl,
  record { good = (good, v.good); distinct = (new, v.distinct) },
  refl,
)

-- The pages from `p` on that fit before `vend`, the last one first.
abbrev pub pages_from : ℕ → ℕ → List ℕ → List ℕ
pages_from zero p freelist = freelist
pages_from (suc n) p freelist = pages_from n (p + pgsize) (p ∷ freelist)

good_page :
    (kernel_end p vend : ℕ)
    → p % pgsize ≡ 0
    → kernel_end ≤ p
    → kernbase ≤ p
    → p + pgsize ≤ vend
    → vend ≤ kernbase + phystop
    → bad_page kernel_end p ≡ false
good_page kernel_end p vend al he hb hp hv = ground arith

-- `freerange` frees each whole page between the two addresses.
free_pages-eq :
    (n f kernel_end vend p : ℕ) (freelist : List ℕ)
    → n < f
    → p % pgsize ≡ 0
    → kernel_end ≤ p
    → kernbase ≤ p
    → vend ≤ kernbase + phystop
    → p + n * pgsize ≤ vend
    → vend < p + (n + 1) * pgsize
    → free_pages f kernel_end vend p freelist ≡ ok (pages_from n p freelist)
unfolding free_pages kfree
free_pages-eq n zero kernel_end vend p freelist hf al he hb hv lo hi = absurd (omega arith)
free_pages-eq zero (suc f) kernel_end vend p freelist hf al he hb hv lo hi = ground arith
free_pages-eq (suc n) (suc f) kernel_end vend p freelist hf al he hb hv lo hi =
    rw (fits, good_page kernel_end p vend al he hb (omega arith) hv)
      (free_pages-eq n f kernel_end vend (p + pgsize) (p ∷ freelist) (omega arith) (omega arith)
        (omega arith) (omega arith) hv (omega arith) (omega arith))
  where
    fits : leb (p + pgsize) vend ≡ true
    fits = ground arith

-- `freerange` on memory behind the kernel frees every whole page from `vstart` up to `vend`, and does
-- not panic.
pub freerange_lem :
    (n kernel_end vstart vend : ℕ) (freelist : List ℕ)
    → kernel_end ≤ vstart
    → kernbase ≤ vstart
    → vend ≤ kernbase + phystop
    → pg_round_up vstart + n * pgsize ≤ vend
    → vend < pg_round_up vstart + (n + 1) * pgsize
    → freerange kernel_end vstart vend freelist ≡ ok (pages_from n (pg_round_up vstart) freelist)
unfolding freerange
freerange_lem n kernel_end vstart vend freelist he hb hv lo hi =
    free_pages-eq n (vend / pgsize + 1) kernel_end vend (pg_round_up vstart) freelist (omega arith)
      (omega arith) (omega arith) (omega arith) hv lo hi
