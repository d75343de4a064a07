-- ===== src/Xv6/Inode/Readi.antt =====
-- `readi` of A5/xv6-public/fs.c on every branch.
use mathlib.Core.Path.{◌∙◌, ap}
use oscassignments.Base.{
  ℕ, ◌+◌, ◌-◌, ◌%◌, ◌^◌, ◌≡◌, ◌≢◌, ◌≤◌, ◌<◌, refl, false, ltb, if◌then◌else◌, arith, ne→==, inr,
  Option, some,
}
use oscassignments.Xv6.Types.{Panic, Result, ok, panic, ◌>>=◌}
use oscassignments.Xv6.Fs.{Fs}
use oscassignments.Xv6.Inode.{Inode, read_loop, readi, Devsw, t_dev}
use oscassignments.Xv6.Inode.Place.{Sound}
use oscassignments.Xv6.Inode.Read.{Hole, Loaded, Same, file_byte, read_loop-Loaded}

-- The bytes from `off` on that the file has, at most `n`.
abbrev pub available : (size off n : ℕ) → ℕ
available size off n = if ltb size (off + n) then size - off else n

abbrev pub Answered :
    Inode → Fs → (dst : ℕ → ℕ) → (off n : ℕ) → Result (Option ℕ × (ℕ → ℕ) × Inode × Fs) → Type 0
Answered ip fs dst off n (ok r) =
    (r.0 ≡ some (available ip.size off n))
    × ((k : ℕ) → k < available ip.size off n → r.1 k ≡ file_byte ip fs (off + k))
    × ((k : ℕ) → available ip.size off n ≤ k → r.1 k ≡ dst k)
    × Same ip fs r.2 r.3
Answered ip fs dst off n (panic e) =
    (e ≡ Panic.out_of_blocks) × Hole ip fs off (off + available ip.size off n)

after_loop :
    (ip : Inode) (fs : Fs) (dst : ℕ → ℕ) (off n : ℕ) (r : Result ((ℕ → ℕ) × Inode × Fs))
    → Loaded ip fs dst 0 off (available ip.size off n) r
    → Answered ip fs dst off n (r >>= (λ r. ok (some (available ip.size off n), r.0, r.1, r.2)))
after_loop ip fs dst off n (panic e) h = (
  h.0,
  (
    h.1.0,
    h.1.1,
    (let hi = h.1.2 in
        let e : available ip.size off n - 0 ≡ available ip.size off n = omega arith in omega arith),
    h.1.3,
  ),
)
after_loop ip fs dst off n (ok r) h = (
  refl,
  (λ k lt.
      (h.0 k (omega arith) lt
        ∙ ap (λ i. file_byte ip fs (off + i)) (let e : k - 0 ≡ k = omega arith in e))),
  (λ k le. h.1 k (inr le)),
  h.2,
)

-- `readi` of a file whose size is within the largest a file can have, from an offset within the file:
-- it answers the number of bytes that lie within the file, copies exactly these, in order, and leaves
-- the rest of the destination, the size and every byte of the file as they were. It can only fail when
-- a block that it reads is missing and the disk is full.
pub readi_lem :
    (devsw : Devsw) (ip : Inode) (fs : Fs) (dst : ℕ → ℕ) (off n : ℕ)
    → ip.type ≢ t_dev
    → Sound ip fs
    → ip.size ≤ 71680
    → off ≤ ip.size
    → off + n < 2 ^ 32
    → Answered ip fs dst off n (readi devsw ip fs dst off n)
unfolding readi
readi_lem devsw ip fs dst off n file s max within small =
    let e : (off + n) % 2 ^ 32 ≡ off + n = omega arith in
    let e1 : ltb ip.size off ≡ false = ground arith in
    let e2 : ltb (off + n) off ≡ false = ground arith in
    rw (ne→== ip.type t_dev file, e, e1, e2)
      (after_loop ip fs dst off n
        (read_loop (available ip.size off n) ip fs dst 0 off (available ip.size off n))
        (read_loop-Loaded (available ip.size off n) ip fs dst 0 off (available ip.size off n)
          (omega arith) (omega arith) (ground arith) s))
