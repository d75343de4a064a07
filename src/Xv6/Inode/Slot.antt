-- ===== src/Xv6/Inode/Slot.antt =====
-- The first step of `bmap` of A5/xv6-public/fs.c, and the entries of the indirect block.
use native.Mathlib.Decide.{ℕ_discrete}
use mathlib.Core.Path.{◌∙◌, sym, ap}
use oscassignments.Base.{ℕ, ◌-◌, ◌≡◌, ◌≢◌, ◌≤◌, ◌<◌, refl, update, arith, ne→==}
use oscassignments.Xv6.Types.{Panic, Result, ok, panic, ◌>>=◌}
use oscassignments.Xv6.Fs.{Fs, balloc}
use oscassignments.Xv6.Fs.Bitmap.{balloc_lem, Allocated}
use oscassignments.Xv6.Inode.{Inode, addr_slot}
use oscassignments.Xv6.Inode.Place.{place_of, place, Sound, Keeps}
use oscassignments.Xv6.Inode.Grow.{used_ne, Grown-Keeps}

-- The block that stands at the place `p` afterwards, all else kept.
abbrev pub Mapped : (p : ℕ) (ip : Inode) (fs : Fs) → Result (ℕ × Inode × Fs) → Type 0
Mapped p ip fs (ok r) = (place r.1 r.2 p ≡ r.0) × (r.0 ≢ 0) × Keeps p ip fs r.1 r.2
Mapped p ip fs (panic e) = (e ≡ Panic.out_of_blocks) × (place ip fs p ≡ 0)

pub Keeps-refl : (p : ℕ) (ip : Inode) (fs : Fs) → Sound ip fs → Keeps p ip fs ip fs
Keeps-refl p ip fs s = record {
  sound = s;
  stays = λ q full. refl;
  apart = λ q _ _. refl;
  contents = λ bn j. refl;
  used = λ x u. u;
  size = refl;
  type = refl;
}

pub below_13 :
    (p : ℕ) (addrs : ℕ → ℕ) (words : ℕ → ℕ → ℕ) → p < 13 → place_of addrs words p ≡ addrs p
below_13 p addrs words lt = ground arith

pub at_slot :
    (p b : ℕ) (addrs : ℕ → ℕ) (words : ℕ → ℕ → ℕ) → p < 13 → place_of (update addrs p b) words p ≡ b
at_slot p b addrs words lt = ground arith

pub off_slot :
    (p b q : ℕ) (addrs : ℕ → ℕ) (words : ℕ → ℕ → ℕ)
    → p < 13
    → addrs p ≡ 0
    → b ≢ 0
    → (addrs 12 ≢ 0 → addrs 12 ≢ b)
    → q ≢ p
    → place_of (update addrs p b) (update words b (λ i. 0)) q ≡ place_of addrs words q
off_slot p b q addrs words lt none ne old other = elim (ℕ_discrete (addrs 12) 0) [
  | yes missing ↦ ground arith
  | no full ↦ let apart = old full in ground arith
]

pub slot_grown :
    (p : ℕ) (ip : Inode) (fs : Fs)
    → p < 13
    → ip.addrs p ≡ 0
    → Sound ip fs
    → (r : Result (ℕ × Fs)) → Allocated fs r
    → Mapped p ip fs (r >>= (λ r. ok (r.0, record ip { addrs = update ip.addrs p r.0 }, r.1)))
slot_grown p ip fs lt none s (panic e) h = (h.0, below_13 p ip.addrs fs.words lt ∙ none)
slot_grown p ip fs lt none s (ok r) h =
    let ne : r.0 ≢ 0 = λ e. used_ne r.0 0 fs h.0.2 s.boot (sym e) in
    (
      at_slot p r.0 ip.addrs (r.1.words) lt,
      ne,
      Grown-Keeps p r.0 ip fs (record ip { addrs = update ip.addrs p r.0 }) r.1 s
          (record {
            fresh = h.0.2;
            empty = below_13 p ip.addrs fs.words lt ∙ none;
            filled = at_slot p r.0 ip.addrs (r.1.words) lt;
            others = λ q other.
                ap (λ w. place_of (update ip.addrs p r.0) w q) h.3
                ∙ off_slot p r.0 q ip.addrs fs.words lt none ne
                    (λ full. used_ne r.0 (ip.addrs 12) fs h.0.2 (s.owned 12 full)) other;
            marked = h.1.0;
            rest = h.1.1;
            zeroed = h.2;
            size = refl;
            type = refl;
          }),
    )

pub addr_slot-Mapped :
    (p : ℕ) (ip : Inode) (fs : Fs) → p < 13 → Sound ip fs → Mapped p ip fs (addr_slot ip p fs)
unfolding addr_slot
addr_slot-Mapped p ip fs lt s = elim (ℕ_discrete (ip.addrs p) 0) [
  | yes none ↦ rw none (slot_grown p ip fs lt none s (balloc fs) (balloc_lem fs))
  | no full ↦
      rw (ne→== (ip.addrs p) 0 full) (below_13 p ip.addrs fs.words lt, full, Keeps-refl p ip fs s)
]

pub in_entry :
    (p a : ℕ) (addrs : ℕ → ℕ) (words : ℕ → ℕ → ℕ)
    → 13 ≤ p
    → addrs 12 ≡ a
    → a ≢ 0
    → place_of addrs words p ≡ words a (p - 13)
in_entry p a addrs words le e ne = ground arith

pub at_entry :
    (p b a : ℕ) (addrs : ℕ → ℕ) (words : ℕ → ℕ → ℕ)
    → 13 ≤ p
    → addrs 12 ≡ a
    → a ≢ 0
    → place_of addrs (update words a (update (words a) (p - 13) b)) p ≡ b
at_entry p b a addrs words le e ne = ground arith

pub off_entry :
    (p b a q : ℕ) (addrs : ℕ → ℕ) (words : ℕ → ℕ → ℕ)
    → 13 ≤ p
    → addrs 12 ≡ a
    → a ≢ 0
    → a ≢ b
    → q ≢ p
    → place_of addrs
        (update (update words b (λ i. 0)) a (update (update words b (λ i. 0) a) (p - 13) b))
        q
      ≡ place_of addrs words q
off_entry p b a q addrs words le e ne apart other = ground arith
