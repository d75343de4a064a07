-- ===== src/Xv6/Bcache/Tests.antt =====
-- The buffer cache at a concrete disk.
use oscassignments.Base.{ℕ, ◌+◌, ◌≡◌, refl}
use oscassignments.Xv6.Types.{Result, ok, panic}
use oscassignments.Xv6.Bcache.{Bcache, find_next, find_prev, bget, binit, slots_down}
use oscassignments.Xv6.Bcache.Calls.{Sound}
use oscassignments.Xv6.Bcache.Steps.{gets, Reachable, start, next, Reachable-Sound}
use oscassignments.Xv6.Bcache.Serve.{Served, bget_lem}

abbrev disk_of_squares : ℕ → ℕ
disk_of_squares b = b + 100

abbrev or_binit : Result (ℕ × Bcache) → ℕ × Bcache
or_binit (ok r) = r
or_binit (panic p) = (0, binit)

abbrev got : ℕ × Bcache
unfolding bget find_next find_prev slots_down
got = or_binit (bget 1 7 binit)

takes_last : got.0 ≡ 0
unfolding bget find_next find_prev slots_down
takes_last = refl

bget-got : bget 1 7 binit ≡ ok got
unfolding bget find_next find_prev slots_down
bget-got = refl

Reachable-got : Reachable 1000 got.1 disk_of_squares
Reachable-got =
    next binit got.1 disk_of_squares disk_of_squares (start disk_of_squares)
      (gets 1 7 binit disk_of_squares got bget-got)

Reachable-Sound_example : Sound got.1
Reachable-Sound_example = Reachable-Sound 1000 got.1 disk_of_squares Reachable-got

bget_lem_example : Served 1 7 got.1 (bget 1 7 got.1)
bget_lem_example = bget_lem 1 7 got.1
