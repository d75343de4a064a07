-- ===== src/Xv6/File/Chunks.antt =====
-- `filewrite` of A5/xv6-public/file.c writes a file chunk by chunk.
use mathlib.Core.Path.{◌∙◌, ap, sym}
use oscassignments.Base.{
  ℕ, zero, suc, ◌+◌, ◌-◌, ◌≡◌, ◌≢◌, ◌≤◌, ◌<◌, refl, Bool, true, false, not, Option, none, some,
  ◌==◌, if◌then◌else◌, arith, Bool-cases, ◌⊎◌, inl, inr, ltb, ltb→lt, eq→==,
}
use oscassignments.Xv6.Types.{Panic, Result, ok, panic, ◌>>=◌}
use oscassignments.Xv6.Fs.{Fs}
use oscassignments.Xv6.Fs.Bitmap.{below_or}
use oscassignments.Xv6.Inode.{Inode, Devsw, writei, t_dev}
use oscassignments.Xv6.Inode.Place.{Sound}
use oscassignments.Xv6.Inode.Read.{file_byte}
use oscassignments.Xv6.Inode.Written.{Wrote, writei_lem}
use oscassignments.Xv6.File.{log_has_room, File, next_chunk, after_write, write_chunks, filewrite}

-- The loop has written the bytes of the source from `i` on, at the offset, and no others.
abbrev pub Filled :
    Inode → Fs → (src : ℕ → ℕ) → (i n off : ℕ) → Result (ℕ × ℕ × Inode × Fs) → Type 0
Filled ip fs src i n off (ok r) =
    (r.0 ≡ n)
    × (r.1 ≡ off + (n - i))
    × ((k : ℕ) → k < n - i → file_byte r.2 r.3 (off + k) ≡ src (i + k))
    × ((o : ℕ) → (o < off) ⊎ (off + (n - i) ≤ o) → file_byte r.2 r.3 o ≡ file_byte ip fs o)
    × (off + (n - i) ≤ r.2.size)
    × Sound r.2 r.3
Filled ip fs src i n off (panic e) = e ≡ Panic.out_of_blocks

next_chunk_lem : (i n : ℕ) → i < n → (1 ≤ next_chunk i n) × (i + next_chunk i n ≤ n)
next_chunk_lem i n lt = (ground arith, ground arith)

then_fill :
    (ip : Inode) (fs : Fs) (src : ℕ → ℕ) (i n off m : ℕ) (ip1 : Inode) (fs1 : Fs)
    (x : Result (ℕ × ℕ × Inode × Fs))
    → i + m ≤ n
    → Wrote log_has_room ip fs (λ k. src (i + k)) off m (ok (some m, ip1, fs1))
    → Filled ip1 fs1 src (i + m) n (off + m) x
    → Filled ip fs src i n off x
then_fill ip fs src i n off m ip1 fs1 (panic e) le w h = h
then_fill ip fs src i n off m ip1 fs1 (ok r) le w h =
    let rest : n - (i + m) + m ≡ n - i = omega arith in
    (
      h.0,
      h.1 ∙ (let e : off + m + (n - (i + m)) ≡ off + (n - i) = omega arith in e),
      λ k lt. elim (below_or k m) [
        | inl l ↦ h.3 (off + k) (inl (omega arith)) ∙ w.1 k l
        | inr g ↦
            ap (file_byte r.2 r.3) (let e : off + k ≡ off + m + (k - m) = omega arith in e)
            ∙ h.2 (k - m) (omega arith)
            ∙ ap src (let e : i + m + (k - m) ≡ i + k = omega arith in e)
      ],
      λ o out.
          h.3 o (elim out [ inl l ↦ inl (omega arith) | inr g ↦ inr (omega arith) ])
          ∙ w.2 o (elim out [ inl l ↦ inl l | inr g ↦ inr (omega arith) ]),
      (let s = h.4 in omega arith),
      h.5,
    )

fill_done :
    (ip : Inode) (fs : Fs) (src : ℕ → ℕ) (i n off : ℕ)
    → i ≡ n
    → off ≤ ip.size
    → Sound ip fs
    → Filled ip fs src i n off (ok (i, off, ip, fs))
fill_done ip fs src i n off e le s =
    (e, omega arith, λ k lt. absurd (omega arith), λ o out. refl, omega arith, s)

big_enough :
    (size old off m : ℕ)
    → off ≤ old
    → size ≡ (if ltb old (off + m) then off + m else old)
    → off + m ≤ size
big_enough size old off m within e = rw e (ground arith)

fill_more :
    (devsw : Devsw) (fuel : ℕ) (ip : Inode) (fs : Fs) (src : ℕ → ℕ) (i n off m : ℕ)
    → i + m ≤ n
    → off ≤ ip.size
    → (r : Result (Option ℕ × Inode × Fs)) → Wrote log_has_room ip fs (λ k. src (i + k)) off m r
    → ((ip1 : Inode) (fs1 : Fs)
        → Sound ip1 fs1
        → off + m ≤ ip1.size
        → ip1.type ≡ ip.type
        → Filled ip1 fs1 src
            (i + m)
            n
            (off + m)
            (write_chunks devsw fuel src (i + m) n (off + m) ip1 fs1))
    → Filled ip fs src i n off (
        r >>= (λ r.
          after_write r.0 m i off r.1 r.2
            (λ i1 off1 ip1 fs1. write_chunks devsw fuel src i1 n off1 ip1 fs1)))
fill_more devsw fuel ip fs src i n off m le within (panic e) w later = elim w [
  | inl out ↦ out
  | inr (big, t, lt, f) ↦ absurd (ground arith)
]
fill_more devsw fuel ip fs src i n off m le within (ok r) w later =
    rw (w.0, eq→== m m refl)
      (then_fill ip fs src i n off m r.1 r.2
        (write_chunks devsw fuel src (i + m) n (off + m) r.1 r.2) le
        (refl, w.1, w.2, w.3, w.4, w.5, w.6)
        (later r.1 r.2 w.4 (big_enough r.1.size ip.size off m within w.3) w.6))

write_chunks-Filled :
    (devsw : Devsw) (fuel : ℕ) (src : ℕ → ℕ) (i n off : ℕ) (ip : Inode) (fs : Fs)
    → n ≤ i + fuel
    → i ≤ n
    → ip.type ≢ t_dev
    → off ≤ ip.size
    → off + (n - i) ≤ 71680
    → Sound ip fs
    → Filled ip fs src i n off (write_chunks devsw fuel src i n off ip fs)
unfolding write_chunks
write_chunks-Filled devsw zero src i n off ip fs enough le file within max s =
    fill_done ip fs src i n off (omega arith) within s
write_chunks-Filled devsw (suc fuel) src i n off ip fs enough le file within max s =
    elim (Bool-cases (ltb i n)) [
      | inr over ↦ rw (over, write_chunks) (fill_done ip fs src i n off (ground arith) within s)
      | inl more ↦
          let c = next_chunk_lem i n (ltb→lt i n more) in
          let c0 = c.0 in
          let c1 = c.1 in
          rw (more, write_chunks)
            (fill_more devsw fuel ip fs src i n off (next_chunk i n) c1 within
              (writei devsw log_has_room ip fs (λ k. src (i + k)) off (next_chunk i n))
              (writei_lem devsw log_has_room ip fs (λ k. src (i + k)) off (next_chunk i n) file s
                within (omega arith))
              (λ ip1 fs1 s1 within1 same.
                write_chunks-Filled devsw fuel src (i + next_chunk i n) n (off + next_chunk i n) ip1
                  fs1 (omega arith) c1 (λ d. file (sym same ∙ d)) within1 (omega arith) s1))
    ]

abbrev pub FileWritten :
    File → Inode → Fs → (addr : ℕ → ℕ) → (n : ℕ) → Result (Option ℕ × File × Inode × Fs) → Type 0
FileWritten f ip fs addr n (ok r) =
    (r.0 ≡ some n)
    × (r.1.off ≡ f.off + n)
    × ((k : ℕ) → k < n → file_byte r.2 r.3 (f.off + k) ≡ addr k)
    × ((o : ℕ) → (o < f.off) ⊎ (f.off + n ≤ o) → file_byte r.2 r.3 o ≡ file_byte ip fs o)
    × (f.off + n ≤ r.2.size)
    × Sound r.2 r.3
FileWritten f ip fs addr n (panic e) = e ≡ Panic.out_of_blocks

after_chunks :
    (f : File) (ip : Inode) (fs : Fs) (addr : ℕ → ℕ) (n : ℕ) (r : Result (ℕ × ℕ × Inode × Fs))
    → Filled ip fs addr 0 n f.off r
    → FileWritten f ip fs addr n
        (r >>= (λ r. ok (if r.0 == n then some n else none, record f { off = r.1 }, r.2, r.3)))
after_chunks f ip fs addr n (panic e) h = h
after_chunks f ip fs addr n (ok r) h =
    let all : n - 0 ≡ n = omega arith in
    (
      rw (eq→== r.0 n h.0) refl,
      h.1 ∙ ap (λ m. f.off + m) all,
      λ k lt. h.2 k (omega arith) ∙ ap addr (let e : 0 + k ≡ k = omega arith in e),
      λ o out. h.3 o (elim out [ inl l ↦ inl l | inr g ↦ inr (omega arith) ]),
      (let s = h.4 in omega arith),
      h.5,
    )

granted :
    {A : Type 0} (P : A → Type 0) (b : Bool) (x y : A) → b ≡ true → P y → P (if not b then x else y)
granted P true x y e p = p
granted P false x y e p = absurd (ground arith)

-- `filewrite` to a writable file of an inode that is no device, from an offset within the file to an
-- end within the largest size: however many chunks it takes, it answers the count and moves the offset
-- behind it, the file then has these bytes from the old offset on and ends no earlier than they do, and
-- every other byte is as it was. It never stops the machine for a short write, and only if the disk is
-- full.
pub filewrite_lem :
    (devsw : Devsw) (f : File) (ip : Inode) (fs : Fs) (addr : ℕ → ℕ) (n : ℕ)
    → f.writable ≡ true
    → ip.type ≢ t_dev
    → Sound ip fs
    → f.off ≤ ip.size
    → f.off + n ≤ 71680
    → FileWritten f ip fs addr n (filewrite devsw f ip fs addr n)
unfolding filewrite
filewrite_lem devsw f ip fs addr n may file s within max =
    granted (FileWritten f ip fs addr n) f.writable _ _ may (
      after_chunks f ip fs addr n (write_chunks devsw n addr 0 n f.off ip fs) (
        write_chunks-Filled devsw n addr 0 n f.off ip fs (omega arith) (omega arith) file within
          (omega arith) s))
