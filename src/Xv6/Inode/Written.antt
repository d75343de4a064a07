-- ===== src/Xv6/Inode/Written.antt =====
-- The loop of `writei` and `writei` itself (A5/xv6-public/fs.c).
use mathlib.Core.Path.{◌∙◌, ap, sym}
use oscassignments.Base.{
  Bool, true, ℕ, zero, suc, ◌+◌, ◌-◌, ◌/◌, ◌%◌, ◌^◌, ◌≡◌, ◌≢◌, ◌≤◌, ◌<◌, refl, false, ltb, ◌&&◌,
  if◌then◌else◌, arith, ne→==, Bool-cases, ◌⊎◌, inl, inr, ltb→lt, Option, some,
}
use oscassignments.Xv6.Types.{Panic, Result, ok, panic, ◌>>=◌}
use oscassignments.Xv6.Fs.{Fs}
use oscassignments.Xv6.Fs.Bitmap.{below_or}
use oscassignments.Xv6.Inode.{
  Inode, bmap, move_bytes, chunk, write_loop, store_bytes, writei, Devsw, t_dev,
}
use oscassignments.Xv6.Inode.Place.{place, position, Sound, Keeps}
use oscassignments.Xv6.Inode.Slot.{Mapped}
use oscassignments.Xv6.Inode.Map.{bmap_lem}
use oscassignments.Xv6.Inode.Read.{file_byte, chunk_lem}
use oscassignments.Xv6.Inode.Write.{Present, Stored, pass_in, pass_out, store_bytes-Sound}

then_store :
    (log_full : ℕ → Bool) (ip : Inode) (fs : Fs) (src : ℕ → ℕ) (tot off n m a : ℕ) (ip1 : Inode)
    (fs1 : Fs) (x : Result (ℕ × Inode × Fs))
    → tot + m ≤ n
    → (le : off % 512 + m ≤ 512) → (at : place ip1 fs1 (position (off / 512)) ≡ a) → (full : a ≢ 0)
    → (k : Keeps (position (off / 512)) ip fs ip1 fs1)
    → Stored log_full ip1
        (store_bytes a (move_bytes (fs1.bytes a) (off % 512) src tot m) fs1)
        src
        (tot + m)
        (off + m)
        n
        x
    → Stored log_full ip fs src tot off n x
then_store log_full ip fs src tot off n m a ip1 fs1 (panic e) l le at full k h = elim h [
  | inl out ↦ inl out
  | inr (big, t, lo, hi, f) ↦ inr (big, t, omega arith, hi, f)
]
then_store log_full ip fs src tot off n m a ip1 fs1 (ok r) l le at full k h = (
  h.0 ∙ (let e : off + m + (n - (tot + m)) ≡ off + (n - tot) = omega arith in e),
  λ o lo hi. elim (below_or o (off + m)) [
    | inl lt ↦ h.2 o (inl lt) ∙ pass_in ip fs src tot off m a ip1 fs1 le at full k o lo lt
    | inr ge ↦
        h.1 o ge (omega arith)
        ∙ ap src (let e : tot + m + (o - (off + m)) ≡ tot + (o - off) = omega arith in e)
  ],
  λ o out.
      h.2 o (elim out [ inl lt ↦ inl (omega arith) | inr ge ↦ inr (omega arith) ])
      ∙ pass_out ip fs src tot off m a ip1 fs1 le at full k o
          (elim out [ inl lt ↦ inl lt | inr ge ↦ inr (omega arith) ]),
  h.3,
  h.4 ∙ k.size,
  (λ o lo hi. elim (below_or o (off + m)) [
    | inl lt ↦
        let e : o / 512 ≡ off / 512 = omega arith in
        rw e (h.6 (position (off / 512)) (λ z. full (sym at ∙ z)))
    | inr ge ↦ h.5 o ge (omega arith)
  ]),
  (λ q there. h.6 q (λ z. there (sym (k.stays q there) ∙ z))),
  h.7 ∙ k.type,
)

Stored-done :
    (log_full : ℕ → Bool) (ip : Inode) (fs : Fs) (src : ℕ → ℕ) (tot off n : ℕ)
    → n ≤ tot
    → Sound ip fs
    → Stored log_full ip fs src tot off n (ok (off, ip, fs))
Stored-done log_full ip fs src tot off n le s = (
  omega arith,
  λ o lo hi. absurd (omega arith),
  λ o out. refl,
  s,
  refl,
  λ o lo hi. absurd (omega arith),
  λ q there. there,
  refl,
)

abbrev pass :
    (full : Bool) (fuel : ℕ) (log_full : ℕ → Bool) (src : ℕ → ℕ) (tot off n : ℕ)
    → ℕ × Inode × Fs
    → Result (ℕ × Inode × Fs)
pass full fuel log_full src tot off n r = elim full [
  | true ↦ panic Panic.too_big_a_transaction
  | false ↦
      write_loop fuel log_full r.1
        (store_bytes r.0 (move_bytes (r.2.bytes r.0) (off % 512) src tot (chunk tot off n)) r.2) src
        (tot + chunk tot off n) (off + chunk tot off n) n
]

pass-Stored :
    (full : Bool) (fuel : ℕ) (log_full : ℕ → Bool) (ip : Inode) (fs : Fs) (src : ℕ → ℕ)
    (tot off n : ℕ)
    → log_full tot ≡ full
    → tot < n
    → (r : ℕ × Inode × Fs) → Mapped (position (off / 512)) ip fs (ok r)
    → ((ip1 : Inode) (fs1 : Fs)
        → Sound ip1 fs1
        → Stored log_full ip1 fs1 src (tot + chunk tot off n) (off + chunk tot off n) n (
            write_loop fuel log_full ip1 fs1 src (tot + chunk tot off n) (off + chunk tot off n) n))
    → Stored log_full ip fs src tot off n (pass full fuel log_full src tot off n r)
pass-Stored true fuel log_full ip fs src tot off n full lt r h later =
    inr (refl, tot, omega arith, lt, full)
pass-Stored false fuel log_full ip fs src tot off n free lt r h later =
    let c = chunk_lem tot off n lt in
    let g : ℕ → ℕ = move_bytes (r.2.bytes r.0) (off % 512) src tot (chunk tot off n) in
    then_store log_full ip fs src tot off n (chunk tot off n) r.0 r.1 r.2
      (write_loop fuel log_full r.1 (store_bytes r.0 g r.2) src (tot + chunk tot off n)
        (off + chunk tot off n) n)
      c.1 c.2 h.0 h.1 h.2
      (later r.1 (store_bytes r.0 g r.2)
        (store_bytes-Sound r.1 r.2 (off / 512) r.0 g h.2.sound h.0 h.1))

store_more :
    (fuel : ℕ) (log_full : ℕ → Bool) (ip : Inode) (fs : Fs) (src : ℕ → ℕ) (tot off n : ℕ)
    → tot < n
    → (r : Result (ℕ × Inode × Fs)) → Mapped (position (off / 512)) ip fs r
    → ((ip1 : Inode) (fs1 : Fs)
        → Sound ip1 fs1
        → Stored log_full ip1 fs1 src (tot + chunk tot off n) (off + chunk tot off n) n (
            write_loop fuel log_full ip1 fs1 src (tot + chunk tot off n) (off + chunk tot off n) n))
    → Stored log_full ip fs src tot off n (r >>= pass (log_full tot) fuel log_full src tot off n)
store_more fuel log_full ip fs src tot off n lt (panic e) h later = inl h.0
store_more fuel log_full ip fs src tot off n lt (ok r) h later =
    pass-Stored (log_full tot) fuel log_full ip fs src tot off n refl lt r h later

write_loop-Stored :
    (fuel : ℕ) (log_full : ℕ → Bool) (ip : Inode) (fs : Fs) (src : ℕ → ℕ) (tot off n : ℕ)
    → n ≤ tot + fuel
    → tot ≤ n
    → off + (n - tot) ≤ 71680
    → Sound ip fs
    → Stored log_full ip fs src tot off n (write_loop fuel log_full ip fs src tot off n)
unfolding write_loop
write_loop-Stored zero log_full ip fs src tot off n enough le max s =
    Stored-done log_full ip fs src tot off n (omega arith) s
write_loop-Stored (suc fuel) log_full ip fs src tot off n enough le max s =
    elim (Bool-cases (ltb tot n)) [
      | inr over ↦ rw (over, write_loop) (Stored-done log_full ip fs src tot off n (ground arith) s)
      | inl more ↦
          let lt = ltb→lt tot n more in
          let c = chunk_lem tot off n lt in
          rw (more, write_loop)
            (store_more fuel log_full ip fs src tot off n lt (bmap ip (off / 512) fs)
              (bmap_lem ip (off / 512) fs (omega arith) s)
              (λ ip1 fs1 s1.
                let c0 = c.0 in
                let c1 = c.1 in
                write_loop-Stored fuel log_full ip1 fs1 src (tot + chunk tot off n)
                  (off + chunk tot off n) n (omega arith) c1 (omega arith) s1))
    ]

abbrev pub Wrote :
    (log_full : ℕ → Bool)
    → Inode
    → Fs
    → (src : ℕ → ℕ) → (off n : ℕ) → Result (Option ℕ × Inode × Fs)
    → Type 0
Wrote log_full ip fs src off n (ok r) =
    (r.0 ≡ some n)
    × ((k : ℕ) → k < n → file_byte r.1 r.2 (off + k) ≡ src k)
    × ((o : ℕ) → (o < off) ⊎ (off + n ≤ o) → file_byte r.1 r.2 o ≡ file_byte ip fs o)
    × (r.1.size ≡ (if ltb ip.size (off + n) then off + n else ip.size))
    × Sound r.1 r.2
    × Present r.1 r.2 off (off + n)
    × (r.1.type ≡ ip.type)
Wrote log_full ip fs src off n (panic e) =
    (e ≡ Panic.out_of_blocks)
    ⊎ ((e ≡ Panic.too_big_a_transaction) × (t : ℕ) × (t < n) × (log_full t ≡ true))

grown_size :
    (size off n stop old : ℕ)
    → off ≤ size
    → stop ≡ off + n
    → old ≡ size
    → (if ltb 0 n && ltb old stop then stop else old)
      ≡ (if ltb size (off + n) then off + n else size)
grown_size size off n stop old within e1 e2 = rw (e1, e2) (ground arith)

after_store :
    (log_full : ℕ → Bool) (ip : Inode) (fs : Fs) (src : ℕ → ℕ) (off n : ℕ)
    (r : Result (ℕ × Inode × Fs))
    → off ≤ ip.size
    → Stored log_full ip fs src 0 off n r
    → Wrote log_full ip fs src off n (
        r >>= (λ r. ok (
          some n,
          record r.1 { size = if ltb 0 n && ltb (r.1.size) r.0 then r.0 else r.1.size },
          r.2,
        )))
after_store log_full ip fs src off n (panic e) within h = elim h [
  | inl out ↦ inl out
  | inr (big, t, lo, hi, f) ↦ inr (big, t, hi, f)
]
after_store log_full ip fs src off n (ok r) within h =
    let zero_off : n - 0 ≡ n = omega arith in
    (
      refl,
      λ k lt.
          h.1 (off + k) (omega arith) (omega arith)
          ∙ ap src (let e : 0 + (off + k - off) ≡ k = omega arith in e),
      λ o out. h.2 o (elim out [ inl lt ↦ inl lt | inr ge ↦ inr (omega arith) ]),
      grown_size ip.size off n r.0 r.1.size within (h.0 ∙ ap (λ m. off + m) zero_off) h.4,
      record { owned = h.3.owned; single = h.3.single; boot = h.3.boot },
      λ o lo hi. h.5 o lo (omega arith),
      h.7,
    )

pub writei_lem :
    (devsw : Devsw) (log_full : ℕ → Bool) (ip : Inode) (fs : Fs) (src : ℕ → ℕ) (off n : ℕ)
    → ip.type ≢ t_dev
    → Sound ip fs
    → off ≤ ip.size
    → off + n ≤ 71680
    → Wrote log_full ip fs src off n (writei devsw log_full ip fs src off n)
unfolding writei
writei_lem devsw log_full ip fs src off n file s within max =
    let e : (off + n) % 2 ^ 32 ≡ off + n = omega arith in
    let e1 : ltb ip.size off ≡ false = ground arith in
    let e2 : ltb (off + n) off ≡ false = ground arith in
    let e3 : ltb 71680 (off + n) ≡ false = ground arith in
    rw (ne→== ip.type t_dev file, e, e1, e2, e3)
      (after_store log_full ip fs src off n (write_loop n log_full ip fs src 0 off n) within (
        write_loop-Stored n log_full ip fs src 0 off n (omega arith) (omega arith) (omega arith) s))
