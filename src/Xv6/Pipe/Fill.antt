-- ===== src/Xv6/Pipe/Fill.antt =====
-- The loop of `pipewrite` in A5/xv6-public/pipe.c.
use oscassignments.Base.{
  ℕ, ◌≡◌, ◌⊎◌, inl, inr, refl, true, false, ◌==◌, List, [], ◌∷◌, ◌++◌, length, arith, Bool-cases,
  ap, ◌∙◌, ==→eq,
}
use oscassignments.Xv6.Pipe.{Pipe, pipesize, is_full, fill}
use oscassignments.Xv6.Pipe.Fifo.{Holds, put, put-Holds, full_iff}
use mathlib.Core.List.{append-nil, append_assoc}

-- The bytes `ys` of `bytes` went in behind `xs`; `left` is left over, and only if the pipe is full.
pub record Filled (bytes : List ℕ) (p : Pipe) (xs left : List ℕ) (p' : Pipe) : Type 0 where
  pub ys : List ℕ
  pub split : bytes ≡ ys ++ left
  pub holds : Holds p' (xs ++ ys)
  pub all_or_full : (left ≡ []) ⊎ (length (xs ++ ys) ≡ pipesize)
  pub readopen_same : p'.readopen ≡ p.readopen
  pub writeopen_same : p'.writeopen ≡ p.writeopen

fill_room :
    (b : ℕ) (bs : List ℕ) (p : Pipe) → is_full p ≡ false → fill (b ∷ bs) p ≡ fill bs (put b p)
unfolding fill
fill_room b bs p e = rw e refl

fill_full : (b : ℕ) (bs : List ℕ) (p : Pipe) → is_full p ≡ true → fill (b ∷ bs) p ≡ (b ∷ bs, p)
unfolding fill
fill_full b bs p e = rw e refl

-- The loop of `pipewrite` moves bytes into the pipe in their order, until none is left or the pipe
-- is full.
pub fill_lem :
    (bytes : List ℕ) (p : Pipe) (xs : List ℕ)
    → Holds p xs
    → (left : List ℕ) × (p' : Pipe) × (fill bytes p ≡ (left, p')) × Filled bytes p xs left p'
unfolding fill
fill_lem [] p xs h = (
  [],
  p,
  refl,
  record {
    ys = [];
    split = refl;
    holds = rw (append-nil xs) h;
    all_or_full = inl refl;
    readopen_same = refl;
    writeopen_same = refl;
  },
)
fill_lem (b ∷ bs) p xs h = elim (Bool-cases (length xs == pipesize)) [
  | inl full ↦ (
    b ∷ bs,
    p,
    fill_full b bs p (full_iff p xs h ∙ full),
    record {
      ys = [];
      split = refl;
      holds = rw (append-nil xs) h;
      all_or_full = inr (rw (append-nil xs) (==→eq (length xs) pipesize full));
      readopen_same = refl;
      writeopen_same = refl;
    },
  )
  | inr room ↦
      let (left, p', e, f) =
        fill_lem bs (put b p) (xs ++ (b ∷ []))
          (put-Holds b p xs h (let le = h.room in ground arith)) in
      (
        left,
        p',
        fill_room b bs p (full_iff p xs h ∙ room) ∙ e,
        record {
          ys = b ∷ f.ys;
          split = ap (λ zs. b ∷ zs) f.split;
          holds = rw (← append_assoc xs (b ∷ []) f.ys) f.holds;
          all_or_full = rw (← append_assoc xs (b ∷ []) f.ys) f.all_or_full;
          readopen_same = f.readopen_same;
          writeopen_same = f.writeopen_same;
        },
      )
]
