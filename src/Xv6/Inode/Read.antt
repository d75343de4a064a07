-- ===== src/Xv6/Inode/Read.antt =====
-- `readi` of A5/xv6-public/fs.c reads the bytes of the file.
use native.Mathlib.Decide.{ℕ_discrete}
use mathlib.Core.Path.{◌∙◌, sym, ap}
use oscassignments.Base.{
  ℕ, zero, suc, ◌+◌, ◌-◌, ◌/◌, ◌%◌, ◌≡◌, ◌≢◌, ◌≤◌, ◌<◌, refl, ltb, arith, ne→==, Bool-cases, ◌⊎◌,
  inl, inr, ltb→lt,
}
use oscassignments.Xv6.Types.{Panic, Result, ok, panic, ◌>>=◌}
use oscassignments.Xv6.Fs.{Fs}
use oscassignments.Xv6.Fs.Bitmap.{below_or}
use oscassignments.Xv6.Inode.{Inode, bmap, move_bytes, chunk, read_loop}
use oscassignments.Xv6.Inode.Place.{place, position, content, byte_of, Sound, Keeps}
use oscassignments.Xv6.Inode.Slot.{Mapped}
use oscassignments.Xv6.Inode.Map.{bmap_lem}

abbrev pub file_byte : Inode → Fs → ℕ → ℕ
file_byte ip fs o = content ip fs (o / 512) (o % 512)

-- A call that changes no byte of the file and takes no block away from it.
pub record Same (ip : Inode) (fs : Fs) (ip' : Inode) (fs' : Fs) : Type 0 where
  pub sound : Sound ip' fs'
  pub contents : (bn j : ℕ) → content ip' fs' bn j ≡ content ip fs bn j
  pub size : ip'.size ≡ ip.size
  pub type : ip'.type ≡ ip.type
  pub stays : (q : ℕ) → place ip fs q ≢ 0 → place ip' fs' q ≢ 0

-- A block that the bytes from `off` to `stop` lie in is missing.
abbrev pub Hole : Inode → Fs → (off stop : ℕ) → Type 0
Hole ip fs off stop = (o : ℕ) × (off ≤ o) × (o < stop) × (place ip fs (position (o / 512)) ≡ 0)

abbrev pub Loaded :
    Inode → Fs → (dst : ℕ → ℕ) → (tot off n : ℕ) → Result ((ℕ → ℕ) × Inode × Fs) → Type 0
Loaded ip fs dst tot off n (ok r) =
    ((k : ℕ) → tot ≤ k → k < n → r.0 k ≡ file_byte ip fs (off + (k - tot)))
    × ((k : ℕ) → (k < tot) ⊎ (n ≤ k) → r.0 k ≡ dst k)
    × Same ip fs r.1 r.2
Loaded ip fs dst tot off n (panic e) = (e ≡ Panic.out_of_blocks) × Hole ip fs off (off + (n - tot))

pub chunk_lem :
    (tot off n : ℕ)
    → tot < n
    → (1 ≤ chunk tot off n) × (tot + chunk tot off n ≤ n) × (off % 512 + chunk tot off n ≤ 512)
chunk_lem tot off n lt = (ground arith, ground arith, ground arith)

pub in_block :
    (ip : Inode) (fs : Fs) (bn j a : ℕ)
    → place ip fs (position bn) ≡ a
    → a ≢ 0
    → content ip fs bn j ≡ fs.bytes a j
in_block ip fs bn j a e ne = ap (λ x. byte_of fs.bytes x j) e ∙ rw (ne→== a 0 ne) refl

pub moved_in :
    (dst : ℕ → ℕ) (d : ℕ) (src : ℕ → ℕ) (s m k : ℕ)
    → d ≤ k
    → k < d + m
    → move_bytes dst d src s m k ≡ src (s + (k - d))
moved_in dst d src s m k lo hi = ground arith

pub moved_out :
    (dst : ℕ → ℕ) (d : ℕ) (src : ℕ → ℕ) (s m k : ℕ)
    → (k < d) ⊎ (d + m ≤ k)
    → move_bytes dst d src s m k ≡ dst k
moved_out dst d src s m k out = ground arith

-- A byte of the chunk lies in the block of `off`.
pub block_of : (off i m : ℕ) → off % 512 + m ≤ 512 → i < m → (off + i) / 512 ≡ off / 512
block_of off i m le lt = omega arith

pub byte_in : (off i m : ℕ) → off % 512 + m ≤ 512 → i < m → (off + i) % 512 ≡ off % 512 + i
byte_in off i m le lt = omega arith

-- A block that is missing later was missing before.
Hole-before :
    (ip : Inode) (fs : Fs) (ip1 : Inode) (fs1 : Fs) (off1 off stop1 stop p : ℕ)
    → off ≤ off1
    → stop1 ≤ stop
    → Keeps p ip fs ip1 fs1
    → Hole ip1 fs1 off1 stop1
    → Hole ip fs off stop
Hole-before ip fs ip1 fs1 off1 off stop1 stop p l1 l2 k h = (
  h.0,
  (let lo = h.1 in omega arith),
  (let hi = h.2 in omega arith),
  elim (ℕ_discrete (place ip fs (position (h.0 / 512))) 0) [
    | yes none ↦ none
    | no full ↦ sym (k.stays (position (h.0 / 512)) full) ∙ h.3
  ],
)

-- One pass and the rest of the loop.
then_load :
    (ip : Inode) (fs : Fs) (dst : ℕ → ℕ) (tot off n m a : ℕ) (ip1 : Inode) (fs1 : Fs)
    (x : Result ((ℕ → ℕ) × Inode × Fs))
    → 1 ≤ m
    → tot + m ≤ n
    → off % 512 + m ≤ 512
    → place ip1 fs1 (position (off / 512)) ≡ a
    → a ≢ 0
    → Keeps (position (off / 512)) ip fs ip1 fs1
    → Loaded ip1 fs1 (move_bytes dst tot (fs1.bytes a) (off % 512) m) (tot + m) (off + m) n x
    → Loaded ip fs dst tot off n x
then_load ip fs dst tot off n m a ip1 fs1 (panic e) l1 l2 l3 at full k h = (
  h.0,
  Hole-before ip fs ip1 fs1 (off + m) off (off + m + (n - (tot + m))) (off + (n - tot))
      (position (off / 512)) (omega arith) (omega arith) k h.1,
)
then_load ip fs dst tot off n m a ip1 fs1 (ok r) l1 l2 l3 at full k h = (
  λ i lo hi. elim (below_or i (tot + m)) [
    | inl lt ↦
        h.1 i (inl lt)
        ∙ moved_in dst tot (fs1.bytes a) (off % 512) m i lo lt
        ∙ sym (in_block ip1 fs1 (off / 512) (off % 512 + (i - tot)) a at full)
        ∙ k.contents (off / 512) (off % 512 + (i - tot))
        ∙ sym (
            ap (λ b. content ip fs b ((off + (i - tot)) % 512))
              (block_of off (i - tot) m l3 (omega arith))
            ∙ ap (content ip fs (off / 512)) (byte_in off (i - tot) m l3 (omega arith)))
    | inr ge ↦
        h.0 i ge hi
        ∙ k.contents ((off + m + (i - (tot + m))) / 512) ((off + m + (i - (tot + m))) % 512)
        ∙ ap (file_byte ip fs)
            (let e : off + m + (i - (tot + m)) ≡ off + (i - tot) = omega arith in e)
  ],
  λ i out.
      h.1 i (elim out [ inl lt ↦ inl (omega arith) | inr ge ↦ inr ge ])
      ∙ moved_out dst tot (fs1.bytes a) (off % 512) m i
          (elim out [ inl lt ↦ inl lt | inr ge ↦ inr (omega arith) ]),
  record {
    sound = h.2.sound;
    contents = λ bn j. h.2.contents bn j ∙ k.contents bn j;
    size = h.2.size ∙ k.size;
    type = h.2.type ∙ k.type;
    stays = λ q there. h.2.stays q (λ z. there (sym (k.stays q there) ∙ z));
  },
)

Loaded-done :
    (ip : Inode) (fs : Fs) (dst : ℕ → ℕ) (tot off n : ℕ)
    → n ≤ tot
    → Sound ip fs
    → Loaded ip fs dst tot off n (ok (dst, ip, fs))
Loaded-done ip fs dst tot off n le s = (
  λ k lo hi. absurd (omega arith),
  λ k out. refl,
  record { sound = s; contents = λ bn j. refl; size = refl; type = refl; stays = λ q there. there },
)

abbrev pass :
    (fuel : ℕ) (dst : ℕ → ℕ) (tot off n : ℕ) → ℕ × Inode × Fs → Result ((ℕ → ℕ) × Inode × Fs)
pass fuel dst tot off n r =
    read_loop fuel r.1 r.2 (move_bytes dst tot (r.2.bytes r.0) (off % 512) (chunk tot off n))
      (tot + chunk tot off n) (off + chunk tot off n) n

load_more :
    (fuel : ℕ) (ip : Inode) (fs : Fs) (dst : ℕ → ℕ) (tot off n : ℕ)
    → tot < n
    → (r : Result (ℕ × Inode × Fs)) → Mapped (position (off / 512)) ip fs r
    → ((ip1 : Inode) (fs1 : Fs) (dst1 : ℕ → ℕ)
        → Sound ip1 fs1
        → Loaded ip1 fs1 dst1
            (tot + chunk tot off n)
            (off + chunk tot off n)
            n
            (read_loop fuel ip1 fs1 dst1 (tot + chunk tot off n) (off + chunk tot off n) n))
    → Loaded ip fs dst tot off n (r >>= pass fuel dst tot off n)
load_more fuel ip fs dst tot off n lt (panic e) h later =
    (h.0, (off, omega arith, omega arith, h.1))
load_more fuel ip fs dst tot off n lt (ok r) h later =
    let c = chunk_lem tot off n lt in
    then_load ip fs dst tot off n (chunk tot off n) r.0 r.1 r.2 (pass fuel dst tot off n r) c.0 c.1
      c.2 h.0 h.1 h.2
      (later r.1 r.2 (move_bytes dst tot (r.2.bytes r.0) (off % 512) (chunk tot off n)) h.2.sound)

pub read_loop-Loaded :
    (fuel : ℕ) (ip : Inode) (fs : Fs) (dst : ℕ → ℕ) (tot off n : ℕ)
    → n ≤ tot + fuel
    → tot ≤ n
    → off + (n - tot) ≤ 71680
    → Sound ip fs
    → Loaded ip fs dst tot off n (read_loop fuel ip fs dst tot off n)
unfolding read_loop
read_loop-Loaded zero ip fs dst tot off n enough le max s =
    Loaded-done ip fs dst tot off n (omega arith) s
read_loop-Loaded (suc fuel) ip fs dst tot off n enough le max s = elim (Bool-cases (ltb tot n)) [
  | inr over ↦ rw (over, read_loop) (Loaded-done ip fs dst tot off n (ground arith) s)
  | inl more ↦
      let lt = ltb→lt tot n more in
      let c = chunk_lem tot off n lt in
      rw (more, read_loop)
        (load_more fuel ip fs dst tot off n lt (bmap ip (off / 512) fs)
          (bmap_lem ip (off / 512) fs (omega arith) s)
          (λ ip1 fs1 dst1 s1.
            let c0 = c.0 in
            let c1 = c.1 in
            read_loop-Loaded fuel ip1 fs1 dst1 (tot + chunk tot off n) (off + chunk tot off n) n
              (omega arith) c1 (omega arith) s1))
]
