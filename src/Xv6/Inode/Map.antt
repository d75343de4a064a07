-- ===== src/Xv6/Inode/Map.antt =====
-- `bmap` of A5/xv6-public/fs.c on every branch.
use native.Mathlib.Decide.{ℕ_discrete}
use mathlib.Core.Path.{◌∙◌, sym, ap}
use oscassignments.Base.{
  ℕ, ◌+◌, ◌-◌, ◌≡◌, ◌≢◌, ◌≤◌, ◌<◌, refl, true, false, update, ltb, arith, ne→==, inl, inr, lt→ltb,
}
use oscassignments.Xv6.Types.{Result, ok, panic, ◌>>=◌}
use oscassignments.Xv6.Fs.{Fs, is_used, balloc}
use oscassignments.Xv6.Fs.Bitmap.{below_or, balloc_lem, Allocated}
use oscassignments.Xv6.Inode.{Inode, addr_slot, entry_slot, bmap}
use oscassignments.Xv6.Inode.Place.{place_of, position, Sound, Keeps}
use oscassignments.Xv6.Inode.Grow.{used_ne, Grown-Keeps}
use oscassignments.Xv6.Inode.Slot.{
  Mapped, Keeps-refl, addr_slot-Mapped, in_entry, at_entry, off_entry,
}

entry_grown :
    (p a : ℕ) (ip : Inode) (fs : Fs)
    → 13 ≤ p
    → ip.addrs 12 ≡ a
    → a ≢ 0
    → fs.words a (p - 13) ≡ 0
    → Sound ip fs
    → (r : Result (ℕ × Fs)) → Allocated fs r
    → Mapped p ip fs (
        r >>= (λ r. ok (
          r.0,
          ip,
          record r.1 { words = update (r.1.words) a (update (r.1.words a) (p - 13) r.0) },
        )))
entry_grown p a ip fs le e ne none s (panic x) h =
    (h.0, in_entry p a ip.addrs fs.words le e ne ∙ none)
entry_grown p a ip fs le e ne none s (ok r) h =
    let full : r.0 ≢ 0 = λ z. used_ne r.0 0 fs h.0.2 s.boot (sym z) in
    let indirect : is_used a fs ≡ true = rw (← e) (s.owned 12 (λ z. ne (sym e ∙ z))) in
    (
      at_entry p r.0 a ip.addrs (r.1.words) le e ne,
      full,
      Grown-Keeps p r.0 ip fs ip
          (record r.1 { words = update (r.1.words) a (update (r.1.words a) (p - 13) r.0) }) s
          (record {
            fresh = h.0.2;
            empty = in_entry p a ip.addrs fs.words le e ne ∙ none;
            filled = at_entry p r.0 a ip.addrs (r.1.words) le e ne;
            others = λ q other.
                ap (λ (w : ℕ → ℕ → ℕ). place_of ip.addrs (update w a (update (w a) (p - 13) r.0)) q)
                  h.3
                ∙ off_entry p r.0 a q ip.addrs fs.words le e ne (used_ne r.0 a fs h.0.2 indirect)
                    other;
            marked = h.1.0;
            rest = h.1.1;
            zeroed = h.2;
            size = refl;
            type = refl;
          }),
    )

entry_slot-Mapped :
    (p a : ℕ) (ip : Inode) (fs : Fs)
    → 13 ≤ p
    → ip.addrs 12 ≡ a
    → a ≢ 0
    → Sound ip fs
    → Mapped p ip fs (entry_slot a ip (p - 13) fs)
unfolding entry_slot
entry_slot-Mapped p a ip fs le e ne s = elim (ℕ_discrete (fs.words a (p - 13)) 0) [
  | yes none ↦ rw none (entry_grown p a ip fs le e ne none s (balloc fs) (balloc_lem fs))
  | no full ↦
      rw (ne→== (fs.words a (p - 13)) 0 full)
        (in_entry p a ip.addrs fs.words le e ne, full, Keeps-refl p ip fs s)
]

-- The indirect block first, then the place `p`.
Keeps-then :
    (p : ℕ) (ip ip' ip2 : Inode) (fs fs' fs2 : Fs)
    → Keeps 12 ip fs ip' fs'
    → Keeps p ip' fs' ip2 fs2
    → Keeps p ip fs ip2 fs2
Keeps-then p ip ip' ip2 fs fs' fs2 k l = record {
  sound = l.sound;
  stays = λ q full. l.stays q (λ z. full (sym (k.stays q full) ∙ z)) ∙ k.stays q full;
  apart = λ q ne nt. l.apart q ne nt ∙ k.apart q nt nt;
  contents = λ bn j. l.contents bn j ∙ k.contents bn j;
  used = λ x u. l.used x (k.used x u);
  size = l.size ∙ k.size;
  type = l.type ∙ k.type;
}

widen :
    (p : ℕ) (ip : Inode) (fs : Fs) (ip' : Inode) (fs' : Fs)
    → p ≢ 12
    → Keeps 12 ip fs ip' fs'
    → (r : Result (ℕ × Inode × Fs)) → Mapped p ip' fs' r
    → Mapped p ip fs r
widen p ip fs ip' fs' ne k (panic e) h = (h.0, sym (k.apart p ne ne) ∙ h.1)
widen p ip fs ip' fs' ne k (ok r) h = (h.0, h.1, Keeps-then p ip ip' r.1 fs fs' r.2 k h.2)

no_entry :
    (p : ℕ) (addrs : ℕ → ℕ) (words : ℕ → ℕ → ℕ)
    → 13 ≤ p
    → place_of addrs words 12 ≡ 0
    → place_of addrs words p ≡ 0
no_entry p addrs words le e = ground arith

then_entry :
    (p : ℕ) (ip : Inode) (fs : Fs) (r : Result (ℕ × Inode × Fs))
    → 13 ≤ p
    → Mapped 12 ip fs r
    → Mapped p ip fs (r >>= (λ r. entry_slot r.0 r.1 (p - 13) r.2))
then_entry p ip fs (panic e) le h = (h.0, no_entry p ip.addrs fs.words le h.1)
then_entry p ip fs (ok r) le h =
    widen p ip fs r.1 r.2 (λ same. absurd (omega arith)) h.2 (entry_slot r.0 r.1 (p - 13) r.2)
      (entry_slot-Mapped p r.0 r.1 r.2 le h.0 h.1 h.2.sound)

-- A block of the file that is within its bounds: `bmap` returns the block number at its place, which is
-- not 0 and is allocated first if it was missing. The block numbers of the inode stay distinct and
-- marked as used, those that were there stay, and no byte of the file changes. It can only fail when
-- the block was missing and the disk is full.
pub bmap_lem :
    (ip : Inode) (bn : ℕ) (fs : Fs)
    → bn < 140
    → Sound ip fs
    → Mapped (position bn) ip fs (bmap ip bn fs)
unfolding bmap
bmap_lem ip bn fs lt s = elim (below_or bn 12) [
  | inl low ↦ rw (lt→ltb bn 12 low, bmap) (addr_slot-Mapped bn ip fs (omega arith) s)
  | inr high ↦
      let e1 : ltb bn 12 ≡ false = ground arith in
      let e2 : ltb (bn - 12) 128 ≡ true = ground arith in
      let e3 : bn - 12 ≡ bn + 1 - 13 = omega arith in
      rw (e1, e2, e3, bmap)
        (then_entry (bn + 1) ip fs (addr_slot ip 12 fs) (omega arith)
          (addr_slot-Mapped 12 ip fs (omega arith) s))
]
