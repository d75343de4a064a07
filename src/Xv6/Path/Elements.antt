-- ===== src/Xv6/Path/Elements.antt =====
-- A path of A5/xv6-public/fs.c is read element by element: `skipelem` and `namex` against the list of
-- the elements.
use mathlib.Core.Path.{fun_ext, subst, ◌∙◌, sym, ap}
use oscassignments.Base.{
  ℕ, zero, suc, ◌+◌, ◌≡◌, ◌≢◌, ◌≤◌, ◌<◌, refl, Bool, Option, none, some, ◌==◌, if◌then◌else◌, List,
  [], ◌∷◌, length, leb, arith, ◌&&◌, eq→==, ne→==, All, ◌++◌, length-append, inl, inr, Bool-cases,
  true, false,
}
use oscassignments.Xv6.Path.{
  slash, skip_slashes, element, after_element, element_name, skip_from, skipelem, go_down, walk,
  namex, take,
}

abbrev pub slashes : ℕ → List ℕ → List ℕ
slashes zero rest = rest
slashes (suc n) rest = slash ∷ slashes n rest

-- What begins with no slash: the end, or a character.
abbrev pub NoSlash : List ℕ → Type 0
NoSlash [] = Unit
NoSlash (c ∷ cs) = c ≢ slash

skip_slashes-slashes : (n : ℕ) (rest : List ℕ) → NoSlash rest → skip_slashes (slashes n rest) ≡ rest
unfolding skip_slashes
skip_slashes-slashes zero [] h = refl
skip_slashes-slashes zero (c ∷ cs) h = rw (ne→== c slash h, skip_slashes) refl
skip_slashes-slashes (suc n) rest h = skip_slashes-slashes n rest h

-- Characters of an element, and what may follow an element: the end or a slash.
abbrev pub Plain : List ℕ → Type 0
Plain e = All (λ c. c ≢ slash) e

abbrev pub Closed : List ℕ → Type 0
Closed [] = Unit
Closed (c ∷ cs) = c ≡ slash

-- The path spells these elements, with any number of slashes in front of each and at the end.
pub data Spells : List ℕ → List (List ℕ) → Type 0 where
  stop : (n : ℕ) → Spells (slashes n []) []
  elem :
      (n c : ℕ) (cs rest : List ℕ) (es : List (List ℕ))
      → Plain (c ∷ cs)
      → Closed rest
      → Spells rest es
      → Spells (slashes n ((c ∷ cs) ++ rest)) ((c ∷ cs) ∷ es)

element-append : (e rest : List ℕ) → Plain e → Closed rest → element (e ++ rest) ≡ e
unfolding element
element-append [] [] p cl = refl
element-append [] (c ∷ cs) p cl = rw (eq→== c slash cl, element) refl
element-append (c ∷ cs) rest p cl =
    rw (ne→== c slash p.0, element) (ap (λ x. c ∷ x) (element-append cs rest p.1 cl))

after_element-append : (e rest : List ℕ) → Plain e → Closed rest → after_element (e ++ rest) ≡ rest
unfolding after_element
after_element-append [] [] p cl = refl
after_element-append [] (c ∷ cs) p cl = rw (eq→== c slash cl, after_element) refl
after_element-append (c ∷ cs) rest p cl =
    rw (ne→== c slash p.0, after_element) (after_element-append cs rest p.1 cl)

-- The element in front is split off, with the slashes after it.
skipelem-elem :
    (n c : ℕ) (cs rest : List ℕ)
    → Plain (c ∷ cs)
    → Closed rest
    → skipelem (slashes n ((c ∷ cs) ++ rest)) ≡ some (element_name (c ∷ cs), skip_slashes rest)
unfolding skipelem
skipelem-elem n c cs rest p cl =
    ap skip_from (skip_slashes-slashes n ((c ∷ cs) ++ rest) p.0)
    ∙ ap (λ e. some (element_name e, skip_slashes (after_element ((c ∷ cs) ++ rest))))
        (element-append (c ∷ cs) rest p cl)
    ∙ ap (λ r. some (element_name (c ∷ cs), skip_slashes r))
        (after_element-append (c ∷ cs) rest p cl)

skipelem-stop : (n : ℕ) → skipelem (slashes n []) ≡ none
unfolding skipelem
skipelem-stop n = ap skip_from (skip_slashes-slashes n [] tt)

skipped-Spells : (p : List ℕ) (es : List (List ℕ)) → Spells p es → Spells (skip_slashes p) es
skipped-Spells _ _ (stop n) = subst (λ x. Spells x []) (sym (skip_slashes-slashes n [] tt)) (stop 0)
skipped-Spells _ _ (elem n c cs rest es p cl s) =
    subst (λ x. Spells x ((c ∷ cs) ∷ es)) (sym (skip_slashes-slashes n ((c ∷ cs) ++ rest) p.0))
      (elem 0 c cs rest es p cl s)

-- What is left is empty exactly after the last element.
left_over :
    (p : List ℕ) (es : List (List ℕ))
    → Spells p es
    → leb (length (skip_slashes p)) 0 ≡ leb (length es) 0
left_over _ _ (stop n) = rw (skip_slashes-slashes n [] tt) refl
left_over _ _ (elem n c cs rest es p cl s) =
    rw (skip_slashes-slashes n ((c ∷ cs) ++ rest) p.0) (ground arith)

-- The first `n` characters of a name, and whether it is the last of a path.
abbrev pub cut : ℕ → List ℕ → List ℕ
cut zero cs = []
cut (suc n) [] = []
cut (suc n) (c ∷ cs) = c ∷ cut n cs

abbrev pub is_last : List (List ℕ) → Bool
is_last [] = true
is_last (e ∷ es) = false

-- The walk down the elements: each is looked up in a directory, by its first 14 characters.
unfoldable pub descend :
    (is_dir : ℕ → Bool) (lookup : ℕ → List ℕ → Option ℕ) (parent : Bool)
    → (inode : ℕ) (elements : List (List ℕ)) (name : List ℕ) → Option (ℕ × List ℕ)
descend is_dir lookup parent i [] name = if parent then none else some (i, name)
descend is_dir lookup parent i (e ∷ es) name =
    if is_dir i
    then (if parent && is_last es then some (i, cut 14 e) else elim (lookup i (cut 14 e)) [
      | none ↦ none
      | some next ↦ descend is_dir lookup parent next es (cut 14 e)
    ])
    else none

cut_all : (n : ℕ) (s : List ℕ) → length s ≤ n → cut n s ≡ s
cut_all zero [] le = refl
cut_all zero (c ∷ cs) le = absurd (omega arith)
cut_all (suc n) [] le = refl
cut_all (suc n) (c ∷ cs) le = ap (λ x. c ∷ x) (cut_all n cs (omega arith))

take-cut : (n : ℕ) (s : List ℕ) → take n s ≡ cut n s
unfolding take
take-cut zero s = refl
take-cut (suc n) [] = refl
take-cut (suc n) (c ∷ cs) = ap (λ x. c ∷ x) (take-cut n cs)

element_name-cut : (s : List ℕ) → element_name s ≡ cut 14 s
element_name-cut s = elim (Bool-cases (leb 14 (length s))) [
  | inl long ↦ rw long (take-cut 14 s)
  | inr short ↦ rw short (sym (cut_all 14 s (ground arith)))
]

no_more : (es : List (List ℕ)) → leb (length es) 0 ≡ is_last es
no_more [] = refl
no_more (e ∷ es) = ground arith

-- One level of the walk.
abbrev one_level :
    (dir last : Bool) (next : Option ℕ) (i : ℕ) (name : List ℕ)
    → (ℕ → Option (ℕ × List ℕ))
    → Option (ℕ × List ℕ)
one_level dir last next i name onward =
    if dir
    then (if last then some (i, name) else elim next [ none ↦ none | some j ↦ onward j ])
    else none

go_down_lem :
    (dir last : Bool) (next : Option ℕ) (i : ℕ) (name : List ℕ) (onward : ℕ → Option (ℕ × List ℕ))
    → go_down dir last next i name onward ≡ one_level dir last next i name onward
go_down_lem false last next i name onward = refl
go_down_lem true true next i name onward = refl
go_down_lem true false none i name onward = refl
go_down_lem true false (some j) i name onward = refl

walk-descend :
    (is_dir : ℕ → Bool) (lookup : ℕ → List ℕ → Option ℕ) (parent : Bool) (fuel i : ℕ)
    (path name : List ℕ) (es : List (List ℕ))
    → Spells path es
    → length es < fuel
    → walk is_dir lookup parent fuel i path name ≡ descend is_dir lookup parent i es name
unfolding walk descend
walk-descend is_dir lookup parent zero i path name es s lt = absurd (omega arith)
walk-descend is_dir lookup parent (suc fuel) i _ name _ (stop n) lt =
    rw (skipelem-stop n, walk) refl
walk-descend is_dir lookup parent (suc fuel) i _ name _ (elem n c cs rest es p cl s) lt =
    let e : List ℕ = element_name (c ∷ cs) in
    let onward : ℕ → Option (ℕ × List ℕ) =
      λ next. descend is_dir lookup parent next es (cut 14 (c ∷ cs)) in
    rw (skipelem-elem n c cs rest p cl, walk)
      (go_down_lem (is_dir i) (parent && leb (length (skip_slashes rest)) 0) (lookup i e) i e
          (λ next. walk is_dir lookup parent fuel next (skip_slashes rest) e)
        ∙ ap (one_level (is_dir i) (parent && leb (length (skip_slashes rest)) 0) (lookup i e) i e)
            (fun_ext (λ next.
              walk-descend is_dir lookup parent fuel next (skip_slashes rest) e es
                (skipped-Spells rest es s) (omega arith)
              ∙ ap (descend is_dir lookup parent next es) (element_name-cut (c ∷ cs))))
        ∙ ap (λ b. one_level (is_dir i) (parent && b) (lookup i e) i e onward)
            (left_over rest es s ∙ no_more es)
        ∙ ap (λ x. one_level (is_dir i) (parent && is_last es) (lookup i x) i x onward)
            (element_name-cut (c ∷ cs)))

longer : (n : ℕ) (p : List ℕ) → length p ≤ length (slashes n p)
longer zero p = omega arith
longer (suc n) p = let h = longer n p in omega arith

-- No path spells more elements than it has characters.
Spells-length : (p : List ℕ) (es : List (List ℕ)) → Spells p es → length es ≤ length p
Spells-length _ _ (stop n) = omega arith
Spells-length _ _ (elem n c cs rest es p cl s) =
    let h = Spells-length rest es s in
    let l = longer n ((c ∷ cs) ++ rest) in
    let e : length ((c ∷ cs) ++ rest) ≡ length (c ∷ cs) + length rest =
      length-append (c ∷ cs) rest in
    omega arith

-- Where the walk begins.
abbrev pub start_of : (root cwd : ℕ) → List ℕ → ℕ
start_of root cwd [] = cwd
start_of root cwd (c ∷ cs) = if c == slash then root else cwd

-- `namex` goes down the elements that the path spells, however many slashes stand between them: from
-- the root if the path begins with a slash and from the working directory if not, each element looked
-- up by its first 14 characters in a directory. With `parent` it stops at the directory of the last
-- element and returns that element's name; it fails on a path without elements, on an inode that is no
-- directory, and on a name that is not there.
pub namex_lem :
    (is_dir : ℕ → Bool) (lookup : ℕ → List ℕ → Option ℕ) (root cwd : ℕ) (parent : Bool)
    (path : List ℕ) (es : List (List ℕ))
    → Spells path es
    → namex is_dir lookup root cwd parent path
      ≡ descend is_dir lookup parent (start_of root cwd path) es []
unfolding namex
namex_lem is_dir lookup root cwd parent [] es s =
    let h = Spells-length [] es s in
    walk-descend is_dir lookup parent 1 cwd [] [] es s (omega arith)
namex_lem is_dir lookup root cwd parent (c ∷ cs) es s =
    let h = Spells-length (c ∷ cs) es s in
    walk-descend is_dir lookup parent (suc (length (c ∷ cs))) (if c == slash then root else cwd)
      (c ∷ cs) [] es s (omega arith)
