-- ===== src/Xv6/Log/Writes.antt =====
-- What the loops of `write_log` and `install_trans` in A5/xv6-public/log.c leave on the disk, whenever
-- the machine stops.
use oscassignments.Base.{
  ℕ, zero, suc, ◌+◌, ◌-◌, ◌≤◌, ◌<◌, ◌≡◌, ◌≢◌, ◌⊎◌, inl, inr, refl, ◌∙◌, sym, ap, ◌==◌,
  if◌then◌else◌, update, update_self, update_ne, arith, eq→==, ne→==,
}
use native.Mathlib.Decide.{ℕ_discrete}
use oscassignments.Xv6.Log.{Header, Disk, Machine, bwrite, copy_block, write_log_from}

-- A block that is none of the log's.
abbrev pub Home : (start size b : ℕ) → Type 0
Home start size b = (b < start) ⊎ (start + size ≤ b)

-- The contents of a block once the first `n` blocks of the log are installed.
abbrev pub logged : (n start : ℕ) → (ℕ → ℕ) → (ℕ → ℕ) → ℕ → ℕ
logged zero start block cells b = cells b
logged (suc k) start block cells b =
    if block k == b then cells (start + k + 1) else logged k start block cells b

-- What recovery makes of a disk.
abbrev pub view : ℕ → Disk → ℕ → ℕ
view start d b = logged d.head.n start d.head.block d.cells b

-- The first `n` blocks of a header are at home outside of the log, and its log has room for them.
pub record Fits (start size : ℕ) (lh : Header) : Type 0 where
  pub room : lh.n + 1 ≤ size
  pub home : (i : ℕ) → i < lh.n → Home start size (lh.block i)

pub Home-ne : (start size b i : ℕ) → Home start size b → i + 1 < size → b ≢ start + i + 1
Home-ne start size b i (inl lo) lt = omega arith
Home-ne start size b i (inr hi) lt = omega arith

-- A write to the home of an entry that puts the entry's contents there does not show.
pub logged-install :
    (n start size t : ℕ) (block cells : ℕ → ℕ) (b : ℕ)
    → Home start size (block t)
    → n + 1 ≤ size
    → (t < n) ⊎ (block t ≢ b)
    → logged n start block (update cells (block t) (cells (start + t + 1))) b
      ≡ logged n start block cells b
logged-install zero start size t block cells b home room (inl lt) = absurd (omega arith)
logged-install zero start size t block cells b home room (inr other) =
    update_ne cells (block t) (cells (start + t + 1)) b (λ e. other (sym e))
logged-install (suc k) start size t block cells b home room which = elim (ℕ_discrete (block k) b) [
  | yes here ↦ rw (eq→== (block k) b here) (
      update_ne cells (block t) (cells (start + t + 1)) (start + k + 1)
        (λ e. Home-ne start size (block t) k home (omega arith) (sym e)))
  | no other ↦ rw (ne→== (block k) b other) (
      logged-install k start size t block cells b home (omega arith) (elim (ℕ_discrete t k) [
        | yes last ↦ inr (λ e. other (ap block (sym last) ∙ e))
        | no before ↦ elim which [ inl lt ↦ inl (omega arith) | inr off ↦ inr off ]
      ]))
]

-- Other contents on the same blocks of the log and on the block itself make no difference.
pub logged-cong :
    (n start : ℕ) (block cells cells' : ℕ → ℕ) (b : ℕ)
    → cells b ≡ cells' b
    → ((i : ℕ) → i < n → cells (start + i + 1) ≡ cells' (start + i + 1))
    → logged n start block cells b ≡ logged n start block cells' b
logged-cong zero start block cells cells' b e h = e
logged-cong (suc k) start block cells cells' b e h = elim (ℕ_discrete (block k) b) [
  | yes here ↦ rw (eq→== (block k) b here) (h k (omega arith))
  | no other ↦
      rw (ne→== (block k) b other)
        (logged-cong k start block cells cells' b e (λ i lt. h i (omega arith)))
]

abbrev pub written : ℕ → Machine → ℕ → ℕ
written b m = if m.power == 0 then m.disk.cells else update m.disk.cells b (m.cache b)

written_on : (b : ℕ) (m : Machine) → m.power ≢ 0 → written b m ≡ update m.disk.cells b (m.cache b)
written_on b m on = rw (ne→== m.power 0 on) refl

written_ne : (b : ℕ) (m : Machine) (x : ℕ) → x ≢ b → written b m x ≡ m.disk.cells x
written_ne b m x h = elim (ℕ_discrete m.power 0) [
  | yes off ↦ rw (eq→== m.power 0 off) refl
  | no on ↦ rw (ne→== m.power 0 on) (update_ne m.disk.cells b (m.cache b) x h)
]

-- The machine after the entries from `tail` on, `c` of them, have been written to the log.
pub record Wrote (c tail size : ℕ) (m m' : Machine) : Type 0 where
  pub start_same : m'.start ≡ m.start
  pub size_same : m'.size ≡ m.size
  pub lh_same : m'.lh ≡ m.lh
  pub head_same : m'.disk.head ≡ m.disk.head
  pub power_eq : m'.power ≡ m.power - c
  pub cells_same :
      (x : ℕ) → (x < m.start + tail + 1) ⊎ (m.start + size ≤ x) → m'.disk.cells x ≡ m.disk.cells x
  pub cache_same :
      (x : ℕ) → (x < m.start + tail + 1) ⊎ (m.start + size ≤ x) → m'.cache x ≡ m.cache x
  pub log_cells :
      c ≤ m.power
      → (i : ℕ) → tail ≤ i
      → i < tail + c
      → m'.disk.cells (m.start + i + 1) ≡ m.cache (m.lh.block i)
  pub log_cache :
      (i : ℕ) → tail ≤ i → i < tail + c → m'.cache (m.start + i + 1) ≡ m.cache (m.lh.block i)

outside :
    (start size tail x : ℕ)
    → tail + 1 < size
    → (x < start + tail + 1) ⊎ (start + size ≤ x)
    → (x ≢ start + tail + 1) × ((x < start + (tail + 1) + 1) ⊎ (start + size ≤ x))
outside start size tail x lt (inl lo) = (omega arith, inl (omega arith))
outside start size tail x lt (inr hi) = (omega arith, inr hi)

pub write_log-Wrote :
    (c tail size : ℕ) (m : Machine)
    → tail + c + 1 ≤ size
    → ((i : ℕ) → i < tail + c → Home m.start size (m.lh.block i))
    → Wrote c tail size m (write_log_from c tail m)
unfolding write_log_from bwrite
write_log-Wrote zero tail size m room home = record {
  start_same = refl;
  size_same = refl;
  lh_same = refl;
  head_same = refl;
  power_eq = omega arith;
  cells_same = λ x out. refl;
  cache_same = λ x out. refl;
  log_cells = λ on i lo hi. absurd (omega arith);
  log_cache = λ i lo hi. absurd (omega arith);
}
write_log-Wrote (suc c) tail size m room home =
    let to = m.start + tail + 1 in
    let m1 = copy_block to (m.lh.block tail) m in
    let w = write_log-Wrote c (tail + 1) size m1 (omega arith) (λ i lt. home i (omega arith)) in
    let m0 : Machine = record m { cache = update m.cache to (m.cache (m.lh.block tail)) } in
    let filled : m0.cache to ≡ m.cache (m.lh.block tail) =
      update_self m.cache to (m.cache (m.lh.block tail)) in
    let kept : (x : ℕ) → x ≢ to → m0.cache x ≡ m.cache x =
      λ x ne. update_ne m.cache to (m.cache (m.lh.block tail)) x ne in
    let kept_home : (i : ℕ) → i < tail + suc c → m0.cache (m.lh.block i) ≡ m.cache (m.lh.block i) =
      λ i lt.
        kept (m.lh.block i) (Home-ne m.start size (m.lh.block i) tail (home i lt) (omega arith)) in
    record {
      start_same = w.start_same;
      size_same = w.size_same;
      lh_same = w.lh_same;
      head_same = w.head_same;
      power_eq = omega (arith, w.power_eq);
      cells_same = λ x out.
          let o = outside m.start size tail x (omega arith) out in
          w.cells_same x o.1 ∙ written_ne to m0 x o.0;
      cache_same = λ x out.
          let o = outside m.start size tail x (omega arith) out in w.cache_same x o.1 ∙ kept x o.0;
      log_cells = λ on i lo hi. elim (ℕ_discrete i tail) [
        | yes first ↦ rw first (
            w.cells_same to (inl (omega arith))
            ∙ ap (λ (f : ℕ → ℕ). f to) (written_on to m0 (omega arith))
            ∙ update_self m.disk.cells to (m0.cache to)
            ∙ filled)
        | no later ↦ w.log_cells (omega arith) i (omega arith) (omega arith) ∙ kept_home i hi
      ];
      log_cache = λ i lo hi. elim (ℕ_discrete i tail) [
        | yes first ↦ rw first (w.cache_same to (inl (omega arith)) ∙ filled)
        | no later ↦ w.log_cache i (omega arith) (omega arith) ∙ kept_home i hi
      ];
    }
