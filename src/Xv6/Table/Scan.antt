-- ===== src/Xv6/Table/Scan.antt =====
-- What the loops over the process table of A5/xv6-public/proc.c find and keep.
use oscassignments.Base.{ℕ, zero, suc, ◌+◌, ◌<◌, ◌≡◌, refl, arith}
use oscassignments.Xv6.Types.{Result, ok}
use oscassignments.Xv6.Kernel.{Kernel, for_procs}

-- A loop whose body never panics and keeps an assertion about the slots done ends with it.
pub for_procs_inv {ℓ} :
    (P : ℕ → Kernel → Type ℓ) (body : ℕ → Kernel → Result Kernel) (hi : ℕ)
    → ((i : ℕ) (k : Kernel) → i < hi → P i k → (k' : Kernel) × (body i k ≡ ok k') × P (i + 1) k')
    → (n i : ℕ) (k : Kernel) → i + n ≡ hi
    → P i k
    → (k' : Kernel) × (for_procs n i body k ≡ ok k') × P hi k'
unfolding for_procs
for_procs_inv P body hi step zero i k e h = (k, refl, let e' : i ≡ hi = omega arith in rw (← e') h)
for_procs_inv P body hi step (suc n) i k e h =
    let (k1, e1, h1) = step i k (omega arith) h in
    let (k2, e2, h2) = for_procs_inv P body hi step n (i + 1) k1 (omega arith) h1 in
    (k2, rw e1 e2, h2)
