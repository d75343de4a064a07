-- ===== src/Xv6/Path/Tests.antt =====
-- Paths at concrete strings: "/ab//c" is [47, 97, 98, 47, 47, 99].
use oscassignments.Base.{
  ltb, true, ℕ, ◌≡◌, refl, Bool, false, Option, none, some, ◌==◌, if◌then◌else◌, List, [], ◌∷◌,
  arith, leb,
}
use oscassignments.Xv6.Types.{Result, ok, panic}
use oscassignments.Xv6.Fs.{Fs}
use oscassignments.Xv6.Inode.{Inode, Devsw, readi, read_loop, bmap, addr_slot}
use oscassignments.Xv6.Path.Directory.{dirlookup, scan_entries, strncmp_is_zero}
use oscassignments.Xv6.Path.{skipelem, skip_slashes, element, after_element, walk, namex}
use oscassignments.Xv6.Path.Elements.{Spells, stop, elem, descend, start_of, namex_lem}

-- skipelem("///a//bb", name) = "bb", setting name = "a".
skips_one : skipelem (47 ∷ 47 ∷ 47 ∷ 97 ∷ 47 ∷ 47 ∷ 98 ∷ 98 ∷ []) ≡ some (97 ∷ [], 98 ∷ 98 ∷ [])
unfolding skipelem skip_slashes element after_element
skips_one = refl

-- skipelem("////", name) = 0.
skips_none : skipelem (47 ∷ 47 ∷ 47 ∷ 47 ∷ []) ≡ none
unfolding skipelem skip_slashes
skips_none = refl

abbrev ab_c : List ℕ
ab_c = 47 ∷ 97 ∷ 98 ∷ 47 ∷ 47 ∷ 99 ∷ []

ab_c-Spells : Spells ab_c ((97 ∷ 98 ∷ []) ∷ (99 ∷ []) ∷ [])
ab_c-Spells =
    elem 1 97 (98 ∷ []) (47 ∷ 47 ∷ 99 ∷ []) ((99 ∷ []) ∷ []) (omega arith) refl
      (elem 2 99 [] [] [] (omega arith) tt (stop 0))

-- Inode 1 is the root, 2 is "ab" in it, 3 is "c" in 2.
abbrev tree : ℕ → List ℕ → Option ℕ
tree i name = if i == 1 then some 2 else if i == 2 then some 3 else none

abbrev directories : ℕ → Bool
directories i = leb i 2

namex_lem_example :
    namex directories tree 1 1 false ab_c
    ≡ descend directories tree false (start_of 1 1 ab_c) ((97 ∷ 98 ∷ []) ∷ (99 ∷ []) ∷ []) []
namex_lem_example =
    namex_lem directories tree 1 1 false ab_c ((97 ∷ 98 ∷ []) ∷ (99 ∷ []) ∷ []) ab_c-Spells

finds_c : namex directories tree 1 1 false ab_c ≡ some (3, 99 ∷ [])
unfolding namex walk skipelem skip_slashes element after_element
finds_c = refl

-- A directory of two entries: "." is inode 1, and "ab" is inode 5.
abbrev two_entries : ℕ → ℕ
two_entries k =
    if k == 0
    then 1
    else if k == 2
    then 46
    else if k == 16
    then 5
    else if k == 18
    then 97
    else if k == 19
    then 98
    else 0

abbrev ab : ℕ → ℕ
ab k = if k == 0 then 97 else if k == 1 then 98 else 0

-- The directory is inode 4; its block is number 99 of a disk of 1000 blocks.
abbrev disk : Fs
disk = record {
  sb = record { size = 1000; ninodes = 200; inodestart = 32; bmapstart = 58 };
  bits = λ b i. ltb i 100;
  bytes = λ b i. two_entries i;
  words = λ b i. 0;
}

abbrev directory : Inode
directory = record {
  dev = 1;
  inum = 4;
  ref = 1;
  valid = true;
  type = 1;
  major = 0;
  minor = 0;
  nlink = 1;
  size = 32;
  addrs = λ i. if i == 0 then 99 else 0;
}

abbrev no_devices : Devsw
no_devices major = none

abbrev found : Result (Option (ℕ × ℕ) × Inode × Fs) → Option (ℕ × ℕ)
found (panic e) = none
found (ok r) = r.0

finds_ab : found (dirlookup no_devices ab two_entries directory disk) ≡ some (5, 16)
unfolding dirlookup scan_entries strncmp_is_zero readi read_loop bmap addr_slot
finds_ab = refl
