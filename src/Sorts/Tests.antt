-- ===== src/Sorts/Tests.antt =====
-- The theorems on the sorts at a concrete array: 2, 0, 1, 3, 4, 5.
use oscassignments.Base.{ℕ, ◌≡◌, Option, none, some, refl, arith, if◌then◌else◌, ◌==◌}
use oscassignments.Base.Int.{ℤ, pos}
use oscassignments.Sorts.Array.{Array, Rearranged}
use oscassignments.Sorts.Insertion.{insertion_sort, inner, outer}
use oscassignments.Sorts.Partition.{up, down, part, partition}
use oscassignments.Sorts.Split.{Split, partition_lem}
use oscassignments.Sorts.Quick.{quicksort, after_split, quicksort_lem}

abbrev six : Array
six i = if i == 0 then pos 2 else if i == 1 then pos 0 else if i == 2 then pos 1 else pos i

-- Let `rand` return zero each time: the first value is the pivot.
abbrev zeros : ℕ → ℕ
zeros n = 0

abbrev value : Option (ℕ × Array) → ℕ → ℤ
value none i = pos 9
value (some (n, a)) i = a i

abbrev result : Array
unfolding quicksort after_split partition part up down insertion_sort outer inner
result = value (quicksort zeros 7 0 six 0 6)

-- The quicksort leaves 1 before 0.
one_first : result 0 ≡ pos 1
unfolding result
one_first = refl

zero_after : result 1 ≡ pos 0
unfolding result
zero_after = refl

insertion_sort_sorts : insertion_sort six 0 3 1 ≡ pos 1
unfolding insertion_sort outer inner
insertion_sort_sorts = refl

partition_example :
    (top : ℕ) × (b : Array) × (partition 3 six 0 6 ≡ (top, b)) × Split 0 6 (six 3) six top b
partition_example = partition_lem 3 six 0 6 (omega arith)

quicksort_example :
    (n' : ℕ) × (b : Array) × (quicksort zeros 7 0 six 0 6 ≡ some (n', b)) × Rearranged 0 6 six b
quicksort_example = quicksort_lem zeros 0 six 0 6 (omega arith)
