-- ===== src/Xv6/Pipe/Turns.antt =====
-- One turn of `pipewrite`, `piperead` and `pipeclose` of A5/xv6-public/pipe.c, with the processes that
-- they wake.
use oscassignments.Base.{
  ℕ, suc, ◌≤◌, ◌≡◌, ◌⊎◌, inl, inr, refl, true, false, not, ◌&&◌, ◌||◌, List, [], ◌∷◌, ◌++◌, length,
  arith, Bool-cases, ap, sym, ◌∙◌, ne→==, length-append,
}
use mathlib.Core.Path.{subst}
use mathlib.Core.List.{append-nil}
use oscassignments.Xv6.Types.{Chan, ok, nproc}
use oscassignments.Xv6.Kernel.{Kernel, Policy}
use oscassignments.Xv6.Mlfq.Invariant.{IsValid}
use oscassignments.Xv6.Table.{sleep}
use oscassignments.Xv6.Table.Wake.{WokenTo, wakeup1_lem}
use oscassignments.Xv6.Pipe.{
  Pipe, Turn, wrote, has_read, fails, sleeps, pipesize, is_empty, fill, drain, pipe_write,
  pipe_read, after_fill,
}
use oscassignments.Xv6.Pipe.Fifo.{Holds, empty_iff}
use oscassignments.Xv6.Pipe.Fill.{Filled, fill_lem}
use oscassignments.Xv6.Pipe.Drain.{Drained, drain_lem}

module _ (policy : Policy) (cur : ℕ) (nread_chan nwrite_chan : Chan) where
  -- The ends of a turn of `pipewrite`, by what is left to write.
  abbrev pub Written : Kernel → Pipe → List ℕ → Turn × (Kernel × Pipe) → Pipe → Type 0
  Written k p [] out p1 = (k1 : Kernel) × (out ≡ (wrote, (k1, p1))) × WokenTo nread_chan k nproc k1
  Written k p (b ∷ bs) out p1 =
      ((out ≡ (fails, (k, p1))) × ((not p.readopen || (k.procs cur).killed) ≡ true))
      ⊎ (((not p.readopen || (k.procs cur).killed) ≡ false)
          × ((k1 : Kernel) × (out ≡ (sleeps (b ∷ bs), (sleep cur nwrite_chan k1, p1)))
              × WokenTo nread_chan k nproc k1))

  write_ends :
      (left bytes : List ℕ) (k : Kernel) (p p1 : Pipe)
      → IsValid k
      → p1.readopen ≡ p.readopen
      → fill bytes p ≡ (left, p1)
      → (out : Turn × (Kernel × Pipe)) × (pipe_write policy cur nread_chan nwrite_chan bytes (k, p)
          ≡ ok out)
        × Written k p left out p1
  unfolding pipe_write after_fill
  write_ends [] bytes k p p1 v same e =
      let (k1, e1, w) = wakeup1_lem policy nread_chan k v in
      ((wrote, (k1, p1)), rw (e, e1) refl, (k1, refl, w))
  write_ends (b ∷ bs) bytes k p p1 v same e =
      elim (Bool-cases (not p.readopen || (k.procs cur).killed)) [
        | inl stop ↦ ((fails, (k, p1)), rw (e, same, stop) refl, inl (refl, stop))
        | inr go ↦
            let (k1, e1, w) = wakeup1_lem policy nread_chan k v in
            (
              (sleeps (b ∷ bs), (sleep cur nwrite_chan k1, p1)),
              rw (e, same, go, e1) refl,
              inr (go, (k1, refl, w)),
            )
      ]

  -- From a valid state, a turn of `pipewrite` does not panic. The bytes go in behind those in the
  -- pipe, in their order. If none is left it returns and has woken the readers; else the pipe is
  -- full: it fails if there is no reader or the process is killed, or else it has woken the readers
  -- and sleeps.
  pub pipe_write_lem :
      (bytes : List ℕ) (k : Kernel) (p : Pipe) (xs : List ℕ)
      → IsValid k
      → Holds p xs
      → (left : List ℕ) × (p1 : Pipe) × (out : Turn × (Kernel × Pipe)) × (pipe_write policy cur
            nread_chan nwrite_chan bytes
            (k, p)
          ≡ ok out)
        × Filled bytes p xs left p1
        × Written k p left out p1
  pipe_write_lem bytes k p xs v h =
      let (left, p1, e, f) = fill_lem bytes p xs h in
      let (out, e1, w) = write_ends left bytes k p p1 v f.readopen_same e in
      (left, p1, out, e1, f, w)

  -- The ends of a turn of `piperead`, by the bytes `xs` in the pipe.
  abbrev pub ReadDone : ℕ → Kernel → Pipe → List ℕ → Turn × (Kernel × Pipe) → Type 0
  ReadDone n k p xs out =
      (ys : List ℕ) × (k1 : Kernel) × (p1 : Pipe) × (out ≡ (has_read ys, (k1, p1)))
      × Drained n p xs ys p1
      × WokenTo nwrite_chan k nproc k1

  abbrev pub HasRead : ℕ → Kernel → Pipe → List ℕ → Turn × (Kernel × Pipe) → Type 0
  HasRead n k p [] out =
      ((p.writeopen ≡ false) × ReadDone n k p [] out)
      ⊎ ((p.writeopen ≡ true)
          × (((out ≡ (fails, (k, p))) × ((k.procs cur).killed ≡ true))
              ⊎ ((out ≡ (sleeps [], (sleep cur nread_chan k, p)))
                  × ((k.procs cur).killed ≡ false))))
  HasRead n k p (x ∷ xs) out = ReadDone n k p (x ∷ xs) out

  read_now :
      (n : ℕ) (k : Kernel) (p : Pipe) (xs : List ℕ)
      → IsValid k
      → Holds p xs
      → (is_empty p && p.writeopen) ≡ false
      → (out : Turn × (Kernel × Pipe)) × (pipe_read policy cur nread_chan nwrite_chan n (k, p)
          ≡ ok out)
        × ReadDone n k p xs out
  unfolding pipe_read
  read_now n k p xs v h e =
      let (ys, p1, e1, d) = drain_lem n p xs h in
      let (k1, e2, w) = wakeup1_lem policy nwrite_chan k v in
      ((has_read ys, (k1, p1)), rw (e, e1, e2) refl, (ys, k1, p1, refl, d, w))

  -- From a valid state, a turn of `piperead` does not panic. While the pipe holds bytes, or nobody can
  -- write any more, it returns the first ones in their order, `n` or all there are, and has woken the
  -- writers; else it fails if the process is killed, and sleeps if not.
  pub pipe_read_lem :
      (n : ℕ) (k : Kernel) (p : Pipe) (xs : List ℕ)
      → IsValid k
      → Holds p xs
      → (out : Turn × (Kernel × Pipe)) × (pipe_read policy cur nread_chan nwrite_chan n (k, p)
          ≡ ok out)
        × HasRead n k p xs out
  unfolding pipe_read
  pipe_read_lem n k p [] v h = elim (Bool-cases p.writeopen) [
    | inr closed ↦
        let (out, e, r) = read_now n k p [] v h (rw (empty_iff p [] h, closed) refl) in
        (out, e, inl (closed, r))
    | inl may_write ↦
        let waits : (is_empty p && p.writeopen) ≡ true = rw (empty_iff p [] h, may_write) refl in
        elim (Bool-cases (k.procs cur).killed) [
          | inl dead ↦ ((fails, (k, p)), rw (waits, dead) refl, inr (may_write, inl (refl, dead)))
          | inr live ↦ (
            (sleeps [], (sleep cur nread_chan k, p)),
            rw (waits, live) refl,
            inr (may_write, inr (refl, live)),
          )
        ]
  ]
  pipe_read_lem n k p (x ∷ xs) v h =
      read_now n k p (x ∷ xs) v h
        (rw (empty_iff p (x ∷ xs) h ∙ ne→== (suc (length xs)) 0 (omega arith)) refl)

nil_of_length : (xs : List ℕ) → length xs ≡ 0 → xs ≡ []
nil_of_length [] e = refl
nil_of_length (x ∷ xs) e = absurd (omega arith)

-- If all is there already, or no more is missing, nothing is left.
left_nil : (bytes ys left : List ℕ) → bytes ≡ ys ++ left → length bytes ≤ length ys → left ≡ []
left_nil bytes ys left e le = nil_of_length left (omega (arith, ap length e, length-append ys left))

whole : (bytes ys left : List ℕ) → bytes ≡ ys ++ left → left ≡ [] → bytes ≡ ys
whole bytes ys left e none = e ∙ ap (λ zs. ys ++ zs) none ∙ append-nil ys

-- What goes into an empty pipe comes out of it, byte for byte, wherever its counters stand.
pub write_then_read :
    (bytes : List ℕ) (p : Pipe)
    → Holds p []
    → length bytes ≤ pipesize
    → (p1 : Pipe) × (p2 : Pipe) × (fill bytes p ≡ ([], p1))
      × (drain (length bytes) p1 ≡ (bytes, p2))
      × Holds p2 []
write_then_read bytes p h le =
    let (left, p1, e, f) = fill_lem bytes p [] h in
    let (ys, p2, e1, d) = drain_lem (length bytes) p1 f.ys f.holds in
    let none_left : left ≡ [] = elim f.all_or_full [
      | inl none ↦ none
      | inr full ↦ left_nil bytes f.ys left f.split (omega arith)
    ] in
    let all_in = whole bytes f.ys left f.split none_left in
    let none_there : d.rest ≡ [] = elim d.all_or_empty [
      | inl all ↦ left_nil f.ys ys d.rest d.split (omega (arith, ap length all_in))
      | inr none ↦ none
    ] in
    let all_out = all_in ∙ whole f.ys ys d.rest d.split none_there in
    (
      p1,
      p2,
      e ∙ ap (λ zs. (zs, p1)) none_left,
      e1 ∙ ap (λ zs. (zs, p2)) (sym all_out),
      subst (Holds p2) none_there d.holds,
    )
