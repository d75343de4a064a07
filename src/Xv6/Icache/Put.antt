-- ===== src/Xv6/Icache/Put.antt =====
-- `iput`, `iupdate` and `ilock` of A5/xv6-public/fs.c.
use mathlib.Core.Path.{◌∙◌, ap, sym}
use oscassignments.Base.{
  ℕ, ◌-◌, ◌≡◌, ◌≢◌, refl, Bool, true, false, ◌==◌, ◌&&◌, Bool-cases, ◌⊎◌, inl, inr, update,
  update_self, update_ne, ne→==, eq→==,
}
use oscassignments.Xv6.Types.{Result, ok, panic, ◌>>=◌}
use oscassignments.Xv6.Fs.{Fs, is_used}
use oscassignments.Xv6.Inode.{Inode, itrunc}
use oscassignments.Xv6.Inode.Place.{Sound}
use oscassignments.Xv6.Inode.Direct.{IsBlock, Truncated}
use oscassignments.Xv6.Inode.Itrunc.{itrunc_lem}
use oscassignments.Xv6.Icache.{Dinode, Files, iput, release_file, iupdate, ilock}

-- The last reference to an inode that no directory names.
abbrev pub is_last : Inode → Bool
is_last ip = ip.valid && (ip.nlink == 0 && ip.ref == 1)

-- The inode and its blocks are free, and no other block or inode of the disk has changed.
abbrev pub Deleted : Inode → Files → Files → Type 0
Deleted ip s q =
    ((q.dinodes ip.inum).type ≡ 0)
    × ((k : ℕ) → k ≢ ip.inum → q.dinodes k ≡ s.dinodes k)
    × ((x : ℕ) → x ≢ 0 → IsBlock ip s.fs x → is_used x q.fs ≡ false)
    × ((x : ℕ) → (x ≡ 0) ⊎ (IsBlock ip s.fs x → ⊥) → is_used x q.fs ≡ is_used x s.fs)

abbrev pub Put : ℕ → Files → Result Files → Type 0
Put i s (ok q) =
    ((q.icache i).ref ≡ (s.icache i).ref - 1)
    × ((q.icache i).inum ≡ (s.icache i).inum)
    × ((j : ℕ) → j ≢ i → q.icache j ≡ s.icache j)
    × (((is_last (s.icache i) ≡ true) × ((q.icache i).valid ≡ false) × Deleted (s.icache i) s q)
        ⊎ ((is_last (s.icache i) ≡ false) × (q.fs ≡ s.fs) × (q.dinodes ≡ s.dinodes)))
Put i s (panic e) = ⊥

abbrev on_disk : Inode → Dinode
on_disk ip = record {
  type = ip.type;
  major = ip.major;
  minor = ip.minor;
  nlink = ip.nlink;
  size = ip.size;
  addrs = ip.addrs;
}

abbrev dropped : Inode → Inode
dropped ip = record ip { ref = ip.ref - 1 }

abbrev drop_ref : ℕ → Files → Result Files
drop_ref i q = ok (record q { icache = update q.icache i (dropped (q.icache i)) })

after_truncate :
    (i : ℕ) (s : Files) (r : Result (Inode × Fs))
    → is_last (s.icache i) ≡ true
    → Truncated (s.icache i) s.fs r
    → Put i s (
        (r >>= (λ r. ok (record {
          fs = r.1;
          dinodes = iupdate (record r.0 { type = 0 }) (iupdate r.0 s.dinodes);
          icache = update s.icache i (record r.0 { type = 0; valid = false });
        })))
        >>= drop_ref i)
unfolding iupdate
after_truncate i s (panic e) last t = t
after_truncate i s (ok r) last t =
    let freed : Inode = record r.0 { type = 0; valid = false } in
    let gone : Inode = record r.0 { type = 0 } in
    let once : ℕ → Dinode = update s.dinodes r.0.inum (on_disk r.0) in
    let here : update s.icache i freed i ≡ freed = update_self s.icache i freed in
    let own : r.0.inum ≡ (s.icache i).inum = ap (λ (a : Inode). a.inum) t.1 in
    let inside : update (update s.icache i freed) i (dropped (update s.icache i freed i)) i
        ≡ dropped freed =
      update_self (update s.icache i freed) i (dropped (update s.icache i freed i))
      ∙ ap dropped here in
    (
      ap (λ (a : Inode). a.ref) inside ∙ ap (λ (a : Inode). a.ref - 1) t.1,
      ap (λ (a : Inode). a.inum) inside ∙ own,
      λ j ne.
          update_ne (update s.icache i freed) i (dropped (update s.icache i freed i)) j ne
          ∙ update_ne s.icache i freed j ne,
      inl (
        last,
        ap (λ (a : Inode). a.valid) inside,
        (
          ap (λ k. (update once r.0.inum (on_disk gone) k).type) (sym own)
              ∙ ap (λ (d : Dinode). d.type) (update_self once r.0.inum (on_disk gone)),
          λ k ne.
              update_ne once r.0.inum (on_disk gone) k (λ z. ne (z ∙ own))
              ∙ update_ne s.dinodes r.0.inum (on_disk r.0) k (λ z. ne (z ∙ own)),
          t.2,
          t.3,
        ),
      ),
    )

-- `iput` drops one reference of the slot and leaves the other slots. The last reference to a valid inode
-- without links, whose blocks are marked as used and distinct, frees the inode on the disk and exactly
-- its blocks, and the slot is no longer valid; any other leaves the disk alone. It never stops the
-- machine.
pub iput_lem : (i : ℕ) (s : Files) → Sound (s.icache i) s.fs → Put i s (iput i s)
unfolding iput release_file
iput_lem i s sound = elim (Bool-cases (is_last (s.icache i))) [
  | inl last ↦
      rw last
        (after_truncate i s (itrunc (s.icache i) s.fs) last (itrunc_lem (s.icache i) s.fs sound))
  | inr more ↦ rw more (
    ap (λ (a : Inode). a.ref) (update_self s.icache i (dropped (s.icache i))),
    ap (λ (a : Inode). a.inum) (update_self s.icache i (dropped (s.icache i))),
    λ j ne. update_ne s.icache i (dropped (s.icache i)) j ne,
    inr (more, refl, refl),
  )
]

-- What `iupdate` has written, `ilock` reads into a slot that holds the inode and is not yet valid.
abbrev pub loaded : Inode → Inode → Inode
loaded slot ip = record slot {
  type = ip.type;
  major = ip.major;
  minor = ip.minor;
  nlink = ip.nlink;
  size = ip.size;
  addrs = ip.addrs;
  valid = true;
}

-- `ilock` of a referenced slot that holds the same inode number and is not valid reads back all that
-- `iupdate` has written of an inode in use: the type, the device numbers, the links, the size and the
-- block numbers.
pub ilock-iupdate :
    (ip slot : Inode) (dinodes : ℕ → Dinode)
    → ip.type ≢ 0
    → slot.ref ≢ 0
    → slot.valid ≡ false
    → slot.inum ≡ ip.inum
    → ilock slot (iupdate ip dinodes) ≡ ok (loaded slot ip)
unfolding ilock iupdate
ilock-iupdate ip slot dinodes used held new same =
    rw (ne→== slot.ref 0 held, new, eq→== slot.inum ip.inum same, ne→== ip.type 0 used) refl
