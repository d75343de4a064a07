-- ===== src/Xv6/Log/Crash.antt =====
-- Commit and recovery of A5/xv6-public/log.c when the machine may stop before any write to the disk.
use oscassignments.Base.{ℕ, zero, suc, ◌+◌, ◌≤◌, ◌<◌, ◌≡◌, refl, ◌∙◌, sym, ap, arith, eq→==, ne→==}
use mathlib.Core.Path.{subst}
use native.Mathlib.Decide.{ℕ_discrete}
use oscassignments.Xv6.Log.{
  Header, Machine, bwrite, write_head, copy_block, install_from, install_trans, forget,
}
use oscassignments.Xv6.Log.Writes.{Home, logged, view, Fits}
use oscassignments.Xv6.Log.Install.{AgreeTo, install-Installed, install-Shows}

pub install_off :
    (c tail : ℕ) (m : Machine)
    → m.power ≡ 0
    → ((install_from c tail m).disk.cells ≡ m.disk.cells)
      × ((install_from c tail m).disk.head ≡ m.disk.head)
      × ((install_from c tail m).power ≡ 0)
      × ((install_from c tail m).start ≡ m.start)
      × ((install_from c tail m).size ≡ m.size)
unfolding install_from bwrite
install_off zero tail m off = (refl, refl, off, refl, refl)
install_off (suc c) tail m off =
    let (cells, head, power, start, size) =
      install_off c (tail + 1) (copy_block (m.lh.block tail) (m.start + tail + 1) m)
        (omega arith) in
    (cells ∙ rw (eq→== m.power 0 off) refl, head, power, start, size)

-- The end of a commit, and of a recovery: install the entries, and clear the header.
abbrev pub settle : Machine → Machine
settle m = write_head (forget (install_trans m))

-- A machine whose log has been written and is on the disk as it is in memory.
pub record Logged (size : ℕ) (m : Machine) : Type 0 where
  pub fits : Fits m.start size m.lh
  pub head_eq : m.disk.head ≡ m.lh
  pub agree : AgreeTo m.lh.n m

pub record Settled (size : ℕ) (m m' : Machine) : Type 0 where
  pub start_same : m'.start ≡ m.start
  pub size_same : m'.size ≡ m.size
  pub fits : Fits m.start size m'.disk.head
  pub view_same : (b : ℕ) → Home m.start size b → view m.start m'.disk b ≡ view m.start m.disk b
  pub cleared : m.lh.n < m.power → m'.disk.head.n ≡ 0

pub empty-Fits : (start size n : ℕ) (lh : Header) → n + 1 ≤ size → lh.n ≡ 0 → Fits start size lh
empty-Fits start size n lh room e = record {
  room = omega arith;
  home = λ i lt. absurd (omega arith);
}

pub settle-Settled : (size : ℕ) (m : Machine) → Logged size m → Settled size m (settle m)
unfolding write_head install_trans
settle-Settled size m l =
    let n = m.lh.n in
    let fits = l.fits in
    let m3 = install_from n 0 m in
    let w = install-Installed n 0 n size m (omega arith) fits.room fits.home l.agree in
    let hd : m3.disk.head ≡ m.lh = w.head_same ∙ l.head_eq in
    let before =
      λ (b : ℕ). sym (ap (λ (h : Header). logged h.n m.start h.block m.disk.cells b) l.head_eq) in
    elim (ℕ_discrete m3.power 0) [
      | yes off ↦ rw (eq→== m3.power 0 off) (record {
        start_same = w.start_same;
        size_same = w.size_same;
        fits = subst (Fits m.start size) (sym hd) fits;
        view_same = λ b h.
            ap (λ (x : Header). logged x.n m.start x.block m3.disk.cells b) hd
            ∙ w.view_same b h
            ∙ before b;
        cleared = λ lt. absurd (omega (arith, w.power_eq));
      })
      | no on ↦ rw (ne→== m3.power 0 on) (record {
        start_same = w.start_same;
        size_same = w.size_same;
        fits = empty-Fits m.start size n (forget m3).lh fits.room refl;
        view_same = λ b h.
            install-Shows n 0 n size m (omega arith) fits.room fits.home l.agree
              (omega (arith, w.power_eq)) (λ x hx. refl) b h
            ∙ w.view_same b h
            ∙ before b;
        cleared = λ lt. refl;
      })
    ]
