-- ===== src/Xv6/Inode/Write.antt =====
-- The loop of `writei` of A5/xv6-public/fs.c stores the bytes of the source in the file.
use oscassignments.Base.{
  Bool, true, ℕ, ◌+◌, ◌-◌, ◌/◌, ◌%◌, ◌≡◌, ◌≢◌, ◌≤◌, ◌<◌, update, ◌==◌, if◌then◌else◌, arith, ne→==,
  ◌⊎◌, inl, inr, update_self, update_ne,
}
use native.Mathlib.Decide.{ℕ_discrete}
use mathlib.Core.Path.{◌∙◌, sym, ap}
use oscassignments.Xv6.Types.{Panic, Result, ok, panic}
use oscassignments.Xv6.Fs.{Fs}
use oscassignments.Xv6.Inode.{Inode, move_bytes, store_bytes}
use oscassignments.Xv6.Inode.Place.{place, position, content, byte_of, Sound, Keeps}
use oscassignments.Xv6.Inode.Read.{file_byte, moved_in, moved_out, in_block}

-- Every block that the bytes from `off` to `stop` lie in is there.
abbrev pub Present : Inode → Fs → (off stop : ℕ) → Type 0
Present ip fs off stop = (o : ℕ) → off ≤ o → o < stop → place ip fs (position (o / 512)) ≢ 0

abbrev pub Stored :
    (log_full : ℕ → Bool)
    → Inode
    → Fs
    → (src : ℕ → ℕ) → (tot off n : ℕ) → Result (ℕ × Inode × Fs)
    → Type 0
Stored log_full ip fs src tot off n (ok r) =
    (r.0 ≡ off + (n - tot))
    × ((o : ℕ) → off ≤ o → o < off + (n - tot) → file_byte r.1 r.2 o ≡ src (tot + (o - off)))
    × ((o : ℕ) → (o < off) ⊎ (off + (n - tot) ≤ o) → file_byte r.1 r.2 o ≡ file_byte ip fs o)
    × Sound r.1 r.2
    × (r.1.size ≡ ip.size)
    × Present r.1 r.2 off (off + (n - tot))
    × ((q : ℕ) → place ip fs q ≢ 0 → place r.1 r.2 q ≢ 0)
    × (r.1.type ≡ ip.type)
Stored log_full ip fs src tot off n (panic e) =
    (e ≡ Panic.out_of_blocks)
    ⊎ ((e ≡ Panic.too_big_a_transaction) × (t : ℕ) × (tot ≤ t) × (t < n) × (log_full t ≡ true))

position_ne : (b c : ℕ) → b ≢ c → position b ≢ position c
position_ne b c ne same = absurd (ground arith)

-- The block `a` of the file's block `b` takes the bytes `g`.
module _ (ip : Inode) (fs : Fs) (b a : ℕ) (g : ℕ → ℕ) (s : Sound ip fs)
    (at : place ip fs (position b) ≡ a) (full : a ≢ 0) where
  stored_here : (j : ℕ) → content ip (store_bytes a g fs) b j ≡ g j
  stored_here j =
      ap (λ x. byte_of (update fs.bytes a g) x j) at
      ∙ rw (ne→== a 0 full) (ap (λ (f : ℕ → ℕ). f j) (update_self fs.bytes a g))

  other_block : (c : ℕ) → c ≢ b → place ip fs (position c) ≢ 0 → place ip fs (position c) ≢ a
  other_block c ne some same =
      position_ne c b ne (s.single (position c) (position b) some (same ∙ sym at))

  stored_elsewhere : (c j : ℕ) → c ≢ b → content ip (store_bytes a g fs) c j ≡ content ip fs c j
  stored_elsewhere c j ne = elim (ℕ_discrete (place ip fs (position c)) 0) [
    | yes none ↦
        ap (λ x. byte_of (update fs.bytes a g) x j) none ∙ sym (ap (λ x. byte_of fs.bytes x j) none)
    | no some ↦
        ap (λ (f : ℕ → ℕ). if place ip fs (position c) == 0 then 0 else f j)
          (update_ne fs.bytes a g (place ip fs (position c)) (other_block c ne some))
  ]

  pub store_bytes-Sound : Sound ip (store_bytes a g fs)
  store_bytes-Sound = record { owned = s.owned; single = s.single; boot = s.boot }

-- One pass, on the bytes of the file.
module _ (ip : Inode) (fs : Fs) (src : ℕ → ℕ) (tot off m a : ℕ) (ip1 : Inode) (fs1 : Fs)
    (le : off % 512 + m ≤ 512) (at : place ip1 fs1 (position (off / 512)) ≡ a) (full : a ≢ 0)
    (k : Keeps (position (off / 512)) ip fs ip1 fs1) where
  abbrev pub pass_bytes : ℕ → ℕ
  pass_bytes = move_bytes (fs1.bytes a) (off % 512) src tot m

  pub pass_in :
      (o : ℕ)
      → off ≤ o
      → o < off + m
      → file_byte ip1 (store_bytes a pass_bytes fs1) o ≡ src (tot + (o - off))
  pass_in o lo hi =
      let e : o / 512 ≡ off / 512 = omega arith in
      let r : o % 512 ≡ off % 512 + (o - off) = omega arith in
      let i : off % 512 + (o - off) - off % 512 ≡ o - off = omega arith in
      ap (λ b. content ip1 (store_bytes a pass_bytes fs1) b (o % 512)) e
      ∙ stored_here ip1 fs1 (off / 512) a pass_bytes k.sound at full (o % 512)
      ∙ ap pass_bytes r
      ∙ moved_in (fs1.bytes a) (off % 512) src tot m (off % 512 + (o - off)) (omega arith)
          (omega arith)
      ∙ ap (λ x. src (tot + x)) i

  pub pass_out :
      (o : ℕ)
      → (o < off) ⊎ (off + m ≤ o)
      → file_byte ip1 (store_bytes a pass_bytes fs1) o ≡ file_byte ip fs o
  pass_out o out = elim (ℕ_discrete (o / 512) (off / 512)) [
    | yes e ↦
        ap (λ b. content ip1 (store_bytes a pass_bytes fs1) b (o % 512)) e
        ∙ stored_here ip1 fs1 (off / 512) a pass_bytes k.sound at full (o % 512)
        ∙ moved_out (fs1.bytes a) (off % 512) src tot m (o % 512)
            (elim out [ inl lt ↦ inl (omega arith) | inr ge ↦ inr (omega arith) ])
        ∙ sym (in_block ip1 fs1 (off / 512) (o % 512) a at full)
        ∙ k.contents (off / 512) (o % 512)
        ∙ ap (λ b. content ip fs b (o % 512)) (sym e)
    | no ne ↦
        stored_elsewhere ip1 fs1 (off / 512) a pass_bytes k.sound at full (o / 512) (o % 512) ne
        ∙ k.contents (o / 512) (o % 512)
  ]
