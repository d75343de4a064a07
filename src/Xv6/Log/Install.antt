-- ===== src/Xv6/Log/Install.antt =====
-- What the loop of `install_trans` in A5/xv6-public/log.c leaves on the disk, whenever the machine stops.
use oscassignments.Base.{
  ℕ, zero, suc, ◌+◌, ◌-◌, ◌≤◌, ◌<◌, ◌≡◌, ◌≢◌, inl, inr, refl, ◌∙◌, sym, update, update_self,
  update_ne, arith, eq→==, ne→==,
}
use mathlib.Core.Path.{subst}
use native.Mathlib.Decide.{ℕ_discrete}
use oscassignments.Xv6.Log.{Machine, bwrite, copy_block, install_from}
use oscassignments.Xv6.Log.Writes.{Home, Home-ne, logged, logged-install}

copied_off :
    (to from : ℕ) (m : Machine) → m.power ≡ 0 → (copy_block to from m).disk.cells ≡ m.disk.cells
unfolding bwrite
copied_off to from m off = rw (eq→== m.power 0 off) refl

copied_on :
    (to from : ℕ) (m : Machine)
    → m.power ≢ 0
    → m.cache from ≡ m.disk.cells from
    → (copy_block to from m).disk.cells ≡ update m.disk.cells to (m.disk.cells from)
unfolding bwrite
copied_on to from m on read =
    rw (ne→== m.power 0 on, update_self m.cache to (m.cache from), read) refl

copied-logged :
    (n size t : ℕ) (m : Machine) (b : ℕ)
    → Home m.start size (m.lh.block t)
    → n + 1 ≤ size
    → t < n
    → m.cache (m.start + t + 1) ≡ m.disk.cells (m.start + t + 1)
    → logged n m.start m.lh.block ((copy_block (m.lh.block t) (m.start + t + 1) m).disk.cells) b
      ≡ logged n m.start m.lh.block m.disk.cells b
copied-logged n size t m b home room lt read = elim (ℕ_discrete m.power 0) [
  | yes off ↦ rw (copied_off (m.lh.block t) (m.start + t + 1) m off) refl
  | no on ↦
      rw (copied_on (m.lh.block t) (m.start + t + 1) m on read)
        (logged-install n m.start size t m.lh.block m.disk.cells b home room (inl lt))
]

-- The blocks of the log are left as they are, in the cache and on the disk.
abbrev pub AgreeTo : ℕ → Machine → Type 0
AgreeTo n m = (i : ℕ) → i < n → m.cache (m.start + i + 1) ≡ m.disk.cells (m.start + i + 1)

copied-AgreeTo :
    (n size t : ℕ) (m : Machine)
    → Home m.start size (m.lh.block t)
    → n + 1 ≤ size
    → t < n
    → AgreeTo n m
    → AgreeTo n (copy_block (m.lh.block t) (m.start + t + 1) m)
unfolding bwrite
copied-AgreeTo n size t m home room lt read i il =
    let to = m.lh.block t in
    let ne : m.start + i + 1 ≢ to = λ e. Home-ne m.start size to i home (omega arith) (sym e) in
    update_ne m.cache to (m.cache (m.start + t + 1)) (m.start + i + 1) ne
    ∙ read i il
    ∙ elim (ℕ_discrete m.power 0) [
      | yes off ↦ rw (copied_off to (m.start + t + 1) m off) refl
      | no on ↦
          rw (copied_on to (m.start + t + 1) m on (read t lt))
            (sym (update_ne m.disk.cells to (m.disk.cells (m.start + t + 1)) (m.start + i + 1) ne))
    ]

-- The machine after the entries up to `n` have been installed, the last `c` of them just now.
pub record Installed (c n size : ℕ) (m m' : Machine) : Type 0 where
  pub start_same : m'.start ≡ m.start
  pub size_same : m'.size ≡ m.size
  pub lh_same : m'.lh ≡ m.lh
  pub head_same : m'.disk.head ≡ m.disk.head
  pub power_eq : m'.power ≡ m.power - c
  pub view_same :
      (b : ℕ)
      → Home m.start size b
      → logged n m.start m.lh.block m'.disk.cells b ≡ logged n m.start m.lh.block m.disk.cells b

pub install-Installed :
    (c tail n size : ℕ) (m : Machine)
    → tail + c ≡ n
    → n + 1 ≤ size
    → ((i : ℕ) → i < n → Home m.start size (m.lh.block i))
    → AgreeTo n m
    → Installed c n size m (install_from c tail m)
unfolding install_from bwrite
install-Installed zero tail n size m e room home read = record {
  start_same = refl;
  size_same = refl;
  lh_same = refl;
  head_same = refl;
  power_eq = omega arith;
  view_same = λ b h. refl;
}
install-Installed (suc c) tail n size m e room home read =
    let m1 = copy_block (m.lh.block tail) (m.start + tail + 1) m in
    let w =
      install-Installed c (tail + 1) n size m1 (omega arith) room home
        (copied-AgreeTo n size tail m (home tail (omega arith)) room (omega arith) read) in
    record {
      start_same = w.start_same;
      size_same = w.size_same;
      lh_same = w.lh_same;
      head_same = w.head_same;
      power_eq = omega (arith, w.power_eq);
      view_same = λ b h.
          w.view_same b h
          ∙ copied-logged n size tail m b (home tail (omega arith)) room (omega arith)
              (read tail (omega arith));
    }

-- The home blocks show what the log holds for them.
abbrev pub Shows : ℕ → ℕ → Machine → Type 0
Shows n size m =
    (b : ℕ) → Home m.start size b → m.disk.cells b ≡ logged n m.start m.lh.block m.disk.cells b

shows_update :
    (t size start : ℕ) (block cells : ℕ → ℕ)
    → Home start size (block t)
    → t + 1 < size
    → ((b : ℕ) → Home start size b → cells b ≡ logged t start block cells b)
    → (b : ℕ) → Home start size b
    → update cells (block t) (cells (start + t + 1)) b
      ≡ logged (suc t) start block (update cells (block t) (cells (start + t + 1))) b
shows_update t size start block cells home room h b hb =
    let v = cells (start + t + 1) in
    elim (ℕ_discrete (block t) b) [
      | yes here ↦ rw (eq→== (block t) b here) (
          subst (λ x. update cells x v b ≡ update cells x v (start + t + 1)) (sym here)
            (update_self cells b v
              ∙ sym (
                  update_ne cells b v (start + t + 1)
                    (λ e. Home-ne start size b t hb room (sym e)))))
      | no other ↦ rw (ne→== (block t) b other) (
          update_ne cells (block t) v b (λ e. other (sym e))
          ∙ h b hb
          ∙ sym (logged-install t start size t block cells b home (omega arith) (inr other)))
    ]

copied-Shows :
    (t size : ℕ) (m : Machine)
    → m.power ≢ 0
    → Home m.start size (m.lh.block t)
    → t + 1 < size
    → m.cache (m.start + t + 1) ≡ m.disk.cells (m.start + t + 1)
    → Shows t size m
    → Shows (suc t) size (copy_block (m.lh.block t) (m.start + t + 1) m)
unfolding bwrite
copied-Shows t size m on home room read h b hb =
    subst (λ (f : ℕ → ℕ). f b ≡ logged (suc t) m.start m.lh.block f b)
      (sym (copied_on (m.lh.block t) (m.start + t + 1) m on read))
      (shows_update t size m.start m.lh.block m.disk.cells home room h b hb)

-- With power for all of them, the entries are all on their home blocks.
pub install-Shows :
    (c tail n size : ℕ) (m : Machine)
    → tail + c ≡ n
    → n + 1 ≤ size
    → ((i : ℕ) → i < n → Home m.start size (m.lh.block i))
    → AgreeTo n m
    → c ≤ m.power
    → Shows tail size m
    → (b : ℕ) → Home m.start size b
    → (install_from c tail m).disk.cells b
      ≡ logged n m.start m.lh.block (install_from c tail m).disk.cells b
unfolding install_from bwrite
install-Shows zero tail n size m e room home read on h = subst (λ k. Shows k size m) (omega arith) h
install-Shows (suc c) tail n size m e room home read on h =
    let next : suc tail ≡ tail + 1 = omega arith in
    install-Shows c (tail + 1) n size (copy_block (m.lh.block tail) (m.start + tail + 1) m)
      (omega arith) room home
      (copied-AgreeTo n size tail m (home tail (omega arith)) room (omega arith) read) (omega arith)
      (subst (λ k. Shows k size (copy_block (m.lh.block tail) (m.start + tail + 1) m)) next
        (copied-Shows tail size m (omega arith) (home tail (omega arith)) (omega arith)
          (read tail (omega arith)) h))

-- In the cache, too, the home blocks come to hold what the log holds for them; `cells` may be any
-- contents that agree with the log's blocks.
pub install-cache :
    (c tail n size : ℕ) (m : Machine) (cells : ℕ → ℕ)
    → tail + c ≡ n
    → n + 1 ≤ size
    → ((i : ℕ) → i < n → Home m.start size (m.lh.block i))
    → ((i : ℕ) → i < n → m.cache (m.start + i + 1) ≡ cells (m.start + i + 1))
    → ((b : ℕ) → Home m.start size b → m.cache b ≡ logged tail m.start m.lh.block cells b)
    → (b : ℕ) → Home m.start size b
    → (install_from c tail m).cache b ≡ logged n m.start m.lh.block cells b
unfolding install_from bwrite
install-cache zero tail n size m cells e room home read h b hb =
    let same : tail ≡ n = omega arith in rw (← same) (h b hb)
install-cache (suc c) tail n size m cells e room home read h b hb =
    let to = m.lh.block tail in
    let m1 = copy_block to (m.start + tail + 1) m in
    let to_home = home tail (omega arith) in
    let next : suc tail ≡ tail + 1 = omega arith in
    install-cache c (tail + 1) n size m1 cells (omega arith) room home
      (λ i lt.
        update_ne m.cache to (m.cache (m.start + tail + 1)) (m.start + i + 1)
          (λ e. Home-ne m.start size to i to_home (omega arith) (sym e))
        ∙ read i lt)
      (λ x hx. rw (← next) (elim (ℕ_discrete to x) [
        | yes here ↦ rw (eq→== to x here) (
            subst
              (λ y. update m.cache to (m.cache (m.start + tail + 1)) y ≡ cells (m.start + tail + 1))
              here
              (update_self m.cache to (m.cache (m.start + tail + 1)) ∙ read tail (omega arith)))
        | no other ↦
            rw (ne→== to x other)
              (update_ne m.cache to (m.cache (m.start + tail + 1)) x (λ e. other (sym e)) ∙ h x hx)
      ]))
      b hb
