-- ===== src/Xv6/Path.antt =====
-- Path names in A5/xv6-public/fs.c. A string is the list of its characters, without the final NUL.
pub mod Elements
pub mod Directory
pub mod Tests
use oscassignments.Base.{
  ℕ, zero, suc, ◌+◌, ◌-◌, Bool, true, false, not, ◌&&◌, ◌||◌, Option, none, some, ◌==◌,
  if◌then◌else◌, List, [], ◌∷◌, length, leb,
}

abbrev pub slash : ℕ
slash = 47

abbrev pub dirsiz : ℕ
dirsiz = 14

-- The loops of `skipelem`: past the slashes, and past what is no slash.
unfoldable pub skip_slashes : List ℕ → List ℕ
skip_slashes [] = []
skip_slashes (c ∷ cs) = elim (c == slash) [ true ↦ skip_slashes cs | false ↦ c ∷ cs ]

unfoldable pub element : List ℕ → List ℕ
element [] = []
element (c ∷ cs) = elim (c == slash) [ true ↦ [] | false ↦ c ∷ element cs ]

unfoldable pub after_element : List ℕ → List ℕ
after_element [] = []
after_element (c ∷ cs) = elim (c == slash) [ true ↦ c ∷ cs | false ↦ after_element cs ]

unfoldable pub take : ℕ → List ℕ → List ℕ
take zero cs = []
take (suc n) [] = []
take (suc n) (c ∷ cs) = c ∷ take n cs

-- What the buffer `name` then holds, up to its NUL or its end: at most `DIRSIZ` characters.
abbrev pub element_name : List ℕ → List ℕ
element_name s = if leb dirsiz (length s) then take dirsiz s else s

-- `skipelem`: the name and the rest of the path, or the null pointer.
abbrev pub skip_from : List ℕ → Option (List ℕ × List ℕ)
skip_from [] = none
skip_from (c ∷ cs) = some (element_name (element (c ∷ cs)), skip_slashes (after_element (c ∷ cs)))

unfoldable pub skipelem : List ℕ → Option (List ℕ × List ℕ)
skipelem path = skip_from (skip_slashes path)

-- One pass of the loop of `namex` at the inode `i`, whose element is `name`: `dir` is the test of its
-- type, `last` that the walk stops here, `next` the reply of `dirlookup`.
abbrev pub go_down :
    (dir last : Bool) (next : Option ℕ) (i : ℕ) (name : List ℕ)
    → (ℕ → Option (ℕ × List ℕ))
    → Option (ℕ × List ℕ)
go_down dir last next i name onward = elim dir [
  | false ↦ none
  | true ↦ elim last [
    | true ↦ some (i, name)
    | false ↦ elim next [ none ↦ none | some j ↦ onward j ]
  ]
]

-- The loop over a tree of directories, on fuel: `is_dir` is the test of the inode's type, `lookup` is
-- `dirlookup`, and the locks and reference counts are left out. `parent` stops one level early and
-- returns the name as well.
unfoldable pub walk :
    (is_dir : ℕ → Bool) (lookup : ℕ → List ℕ → Option ℕ) (parent : Bool) (fuel : ℕ)
    → (inode : ℕ) (path name : List ℕ) → Option (ℕ × List ℕ)
walk is_dir lookup parent zero i path name = none
walk is_dir lookup parent (suc fuel) i path name = elim (skipelem path) [
  | none ↦ if parent then none else some (i, name)
  | some r ↦
      go_down (is_dir i) (parent && leb (length r.1) 0) (lookup i r.0) i r.0
        (λ next. walk is_dir lookup parent fuel next r.1 r.0)
]

-- `namex` from the inode `root` or `cwd`.
unfoldable pub namex :
    (is_dir : ℕ → Bool) (lookup : ℕ → List ℕ → Option ℕ) (root cwd : ℕ)
    → (parent : Bool) (path : List ℕ) → Option (ℕ × List ℕ)
namex is_dir lookup root cwd parent [] = walk is_dir lookup parent 1 cwd [] []
namex is_dir lookup root cwd parent (c ∷ cs) =
    walk is_dir lookup parent (suc (length (c ∷ cs))) (if c == slash then root else cwd) (c ∷ cs) []
