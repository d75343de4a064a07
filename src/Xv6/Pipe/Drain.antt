-- ===== src/Xv6/Pipe/Drain.antt =====
-- The loop of `piperead` in A5/xv6-public/pipe.c.
use oscassignments.Base.{
  ℕ, zero, suc, ◌%◌, ◌≤◌, ◌≡◌, ◌⊎◌, inl, inr, refl, true, false, List, [], ◌∷◌, ◌++◌, length, arith,
  ap, ◌∙◌, ne→==,
}
use oscassignments.Xv6.Types.{add32}
use oscassignments.Xv6.Pipe.{Pipe, pipesize, is_empty, drain}
use oscassignments.Xv6.Pipe.Fifo.{Holds, empty_iff}

drain_some :
    (n : ℕ) (p : Pipe)
    → is_empty p ≡ false
    → drain (suc n) p ≡ (
      p.cells (p.nread % pipesize) ∷ (drain n (record p { nread = add32 p.nread 1 })).0,
      (drain n (record p { nread = add32 p.nread 1 })).1,
    )
unfolding drain
drain_some n p e = rw e refl

drain_none : (n : ℕ) (p : Pipe) → is_empty p ≡ true → drain (suc n) p ≡ ([], p)
unfolding drain
drain_none n p e = rw e refl

-- The bytes `ys` came out of the front of `xs`: `n` of them, or fewer if the pipe is empty then.
pub record Drained (n : ℕ) (p : Pipe) (xs ys : List ℕ) (p' : Pipe) : Type 0 where
  pub rest : List ℕ
  pub split : xs ≡ ys ++ rest
  pub holds : Holds p' rest
  pub at_most : length ys ≤ n
  pub all_or_empty : (length ys ≡ n) ⊎ (rest ≡ [])
  pub readopen_same : p'.readopen ≡ p.readopen
  pub writeopen_same : p'.writeopen ≡ p.writeopen

-- The loop of `piperead` takes bytes from the pipe in their order, until it has enough or the pipe
-- is empty.
pub drain_lem :
    (n : ℕ) (p : Pipe) (xs : List ℕ)
    → Holds p xs
    → (ys : List ℕ) × (p' : Pipe) × (drain n p ≡ (ys, p')) × Drained n p xs ys p'
unfolding drain
drain_lem zero p xs h = (
  [],
  p,
  refl,
  record {
    rest = xs;
    split = refl;
    holds = h;
    at_most = omega arith;
    all_or_empty = inl refl;
    readopen_same = refl;
    writeopen_same = refl;
  },
)
drain_lem (suc n) p [] h = (
  [],
  p,
  drain_none n p (empty_iff p [] h),
  record {
    rest = [];
    split = refl;
    holds = h;
    at_most = omega arith;
    all_or_empty = inr refl;
    readopen_same = refl;
    writeopen_same = refl;
  },
)
drain_lem (suc n) p (x ∷ xs) h =
    let p1 : Pipe = record p { nread = add32 p.nread 1 } in
    let h1 : Holds p1 xs = record {
      read_in = omega arith;
      room = omega (arith, h.room);
      write_eq = omega (arith, h.write_eq, h.read_in, h.room);
      bytes = h.bytes.1;
    } in
    let (ys, p', e, d) = drain_lem n p1 xs h1 in
    (
      x ∷ ys,
      p',
      drain_some n p (empty_iff p (x ∷ xs) h ∙ ne→== (suc (length xs)) 0 (omega arith))
          ∙ rw (e, h.bytes.0) refl,
      record {
        rest = d.rest;
        split = ap (λ zs. x ∷ zs) d.split;
        holds = d.holds;
        at_most = omega (arith, d.at_most);
        all_or_empty = elim d.all_or_empty [ inl all ↦ inl (omega arith) | inr none ↦ inr none ];
        readopen_same = d.readopen_same;
        writeopen_same = d.writeopen_same;
      },
    )
