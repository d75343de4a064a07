-- ===== src/Xv6/Log/Commit.antt =====
-- `commit` of A5/xv6-public/log.c from a machine between two commits.
use oscassignments.Base.{
  ℕ, zero, suc, ◌+◌, ◌≤◌, ◌<◌, ◌≡◌, ◌≢◌, ◌⊎◌, inl, inr, refl, ◌∙◌, sym, ap, arith, Bool-cases,
  eq→==, ne→==, ltb, ltb→lt,
}
use mathlib.Core.Path.{subst}
use native.Mathlib.Decide.{ℕ_discrete}
use oscassignments.Xv6.Log.{
  Header, Machine, write_head, install_from, install_trans, write_log, write_log_from, commit,
}
use oscassignments.Xv6.Log.Writes.{Home, logged, view, Fits, Wrote, write_log-Wrote}
use oscassignments.Xv6.Log.Install.{install-cache}
use oscassignments.Xv6.Log.Crash.{install_off, settle, Logged, settle-Settled, empty-Fits}

-- Between two commits: the log on the disk is empty, the entries in memory fit into it, and only
-- their blocks may differ between the cache and the disk.
pub record Idle (m : Machine) : Type 0 where
  pub cleared : m.disk.head.n ≡ 0
  pub fits : Fits m.start m.size m.lh
  pub cached :
      (b : ℕ)
      → Home m.start m.size b
      → ((i : ℕ) → i < m.lh.n → m.lh.block i ≢ b)
      → m.disk.cells b ≡ m.cache b

-- What the log holds for a block is what the cache holds.
logged-cache :
    (n start : ℕ) (block cells cache : ℕ → ℕ) (b : ℕ)
    → ((i : ℕ) → i < n → cells (start + i + 1) ≡ cache (block i))
    → (((i : ℕ) → i < n → block i ≢ b) → cells b ≡ cache b)
    → logged n start block cells b ≡ cache b
logged-cache zero start block cells cache b h other = other (λ i lt. absurd (omega arith))
logged-cache (suc k) start block cells cache b h other = elim (ℕ_discrete (block k) b) [
  | yes here ↦ rw (eq→== (block k) b here) (h k (omega arith) ∙ ap cache here)
  | no off ↦ rw (ne→== (block k) b off) (
      logged-cache k start block cells cache b (λ i lt. h i (omega arith))
        (λ none. other (λ i lt. elim (ℕ_discrete i k) [
          | yes last ↦ λ e. off (ap block (sym last) ∙ e)
          | no before ↦ none i (omega arith)
        ])))
]

-- The disk after a commit that may have been cut short: all as before, as the header has not been
-- written, or all as in the cache.
pub record Committed (m m' : Machine) : Type 0 where
  pub start_same : m'.start ≡ m.start
  pub size_same : m'.size ≡ m.size
  pub fits : Fits m.start m.size m'.disk.head
  pub old_or_new :
      ((m.power ≤ m.lh.n)
        × ((b : ℕ) → Home m.start m.size b → view m.start m'.disk b ≡ m.disk.cells b))
      ⊎ ((m.lh.n < m.power)
          × ((b : ℕ) → Home m.start m.size b → view m.start m'.disk b ≡ m.cache b))

module _ (m : Machine) (idle : Idle m) where
  abbrev after_log : Machine
  after_log = write_log_from m.lh.n 0 m

  logged_well : Wrote m.lh.n 0 m.size m after_log
  logged_well =
      write_log-Wrote m.lh.n 0 m.size m (omega (arith, idle.fits.room))
        (λ i lt. idle.fits.home i (omega arith))

  Home-out : (b : ℕ) → Home m.start m.size b → (b < m.start + 0 + 1) ⊎ (m.start + m.size ≤ b)
  Home-out b (inl lo) = inl (omega arith)
  Home-out b (inr hi) = inr hi

  -- The header is not reached.
  cut_short : m.power ≤ m.lh.n → Committed m (settle (write_head after_log))
  unfolding write_head install_trans
  cut_short le =
      let w = logged_well in
      let off : after_log.power ≡ 0 = omega (arith, w.power_eq) in
      let m2 = write_head after_log in
      let (cells, head, power, start, size) = install_off m2.lh.n 0 m2 (omega arith) in
      let head' : (settle m2).disk.head ≡ m.disk.head =
        rw (eq→== (install_from m2.lh.n 0 m2).power 0 power)
          (head ∙ rw (eq→== after_log.power 0 off) refl ∙ w.head_same) in
      record {
        start_same = start ∙ w.start_same;
        size_same = size ∙ w.size_same;
        fits =
            empty-Fits m.start m.size m.lh.n ((settle m2).disk.head) idle.fits.room
              (ap (λ (x : Header). x.n) head' ∙ idle.cleared);
        old_or_new = inl (
          le,
          λ b h.
              ap (λ (x : Header). logged x.n m.start x.block ((settle m2).disk.cells) b) head'
              ∙ ap (λ k. logged k m.start m.disk.head.block ((settle m2).disk.cells) b) idle.cleared
              ∙ ap (λ (f : ℕ → ℕ). f b) cells
              ∙ w.cells_same b (Home-out b h),
        );
      }

  -- The header is reached.
  module _ (lt : m.lh.n < m.power) where
    abbrev headed : Machine
    headed = write_head after_log

    powered : after_log.power ≢ 0
    powered = let p = logged_well.power_eq in omega arith

    headed_head : headed.disk.head ≡ m.lh
    unfolding write_head
    headed_head = rw (ne→== after_log.power 0 powered) (logged_well.lh_same)

    headed-Logged : Logged m.size headed
    unfolding write_head
    headed-Logged =
        let w = logged_well in
        record {
          fits = rw (w.start_same, w.lh_same) (idle.fits);
          head_eq = headed_head ∙ sym w.lh_same;
          agree = λ i il.
              let il' : i < m.lh.n = subst (λ (h : Header). i < h.n) w.lh_same il in
              rw (w.start_same) (
                w.log_cache i (omega arith) (omega arith)
                ∙ sym (w.log_cells (omega arith) i (omega arith) (omega arith)));
        }

    headed_view : (b : ℕ) → Home m.start m.size b → view m.start headed.disk b ≡ m.cache b
    unfolding write_head
    headed_view b h =
        let w = logged_well in
        ap (λ (x : Header). logged x.n m.start x.block after_log.disk.cells b) headed_head
        ∙ logged-cache m.lh.n m.start m.lh.block after_log.disk.cells m.cache b
            (λ i il. w.log_cells (omega arith) i (omega arith) (omega arith))
            (λ none. w.cells_same b (Home-out b h) ∙ idle.cached b h none)

    headed_start : headed.start ≡ m.start
    unfolding write_head
    headed_start = logged_well.start_same

    headed_size : headed.size ≡ m.size
    unfolding write_head
    headed_size = logged_well.size_same

    carried_out : Committed m (settle headed)
    carried_out =
        let s = settle-Settled m.size headed headed-Logged in
        record {
          start_same = s.start_same ∙ headed_start;
          size_same = s.size_same ∙ headed_size;
          fits = subst (λ k. Fits k m.size (settle headed).disk.head) headed_start s.fits;
          old_or_new = inr (
            lt,
            λ b h.
                subst (λ k. view k (settle headed).disk b ≡ view k headed.disk b) headed_start
                  (s.view_same b (subst (λ k. Home k m.size b) (sym headed_start) h))
                ∙ headed_view b h,
          );
        }

    settled_cache : (b : ℕ) → Home m.start m.size b → (settle headed).cache b ≡ m.cache b
    unfolding write_head install_trans
    settled_cache b h =
        let w = logged_well in
        let fits = headed-Logged.fits in
        install-cache headed.lh.n 0 headed.lh.n m.size headed after_log.cache (omega arith)
          fits.room fits.home (λ i il. refl) (λ x hx. refl) b
          (subst (λ k. Home k m.size b) (sym headed_start) h)
        ∙ rw (w.start_same, w.lh_same)
            (logged-cache m.lh.n m.start m.lh.block after_log.cache m.cache b
              (λ i il. w.log_cache i (omega arith) (omega arith))
              (λ none. w.cache_same b (Home-out b h)))

    -- With power for all writes, the machine is idle again.
    carried_out-Idle : m.lh.n + 1 + m.lh.n < m.power → Idle (settle headed)
    unfolding write_head install_trans
    carried_out-Idle power =
        let s = settle-Settled m.size headed headed-Logged in
        let w = logged_well in
        let n_eq : headed.lh.n ≡ m.lh.n = ap (λ (h : Header). h.n) w.lh_same in
        let start_eq = s.start_same ∙ headed_start in
        let size_eq = s.size_same ∙ w.size_same in
        let empty : (settle headed).disk.head.n ≡ 0 = s.cleared (omega (arith, w.power_eq)) in
        record {
          cleared = empty;
          fits =
              empty-Fits (settle headed).start (settle headed).size m.lh.n (settle headed).lh
                (let r = idle.fits.room in omega arith) refl;
          cached = λ b h none.
              let hb : Home m.start m.size b =
                subst (λ k. Home k m.size b) start_eq
                  (subst (λ k. Home (settle headed).start k b) size_eq h) in
              sym (
                ap
                  (λ k.
                    logged k m.start ((settle headed).disk.head.block) ((settle headed).disk.cells)
                      b)
                  empty)
              ∙ subst (λ k. view k (settle headed).disk b ≡ view k headed.disk b) headed_start
                  (s.view_same b (subst (λ k. Home k m.size b) (sym headed_start) hb))
              ∙ headed_view b hb
              ∙ sym (settled_cache b hb);
        }

  empty_view : (b : ℕ) → view m.start m.disk b ≡ m.disk.cells b
  empty_view b = ap (λ k. logged k m.start m.disk.head.block m.disk.cells b) idle.cleared

  pub commit-Committed : Committed m (commit m)
  unfolding commit
  commit-Committed = elim (Bool-cases (ltb 0 m.lh.n)) [
    | inl some_left ↦ rw some_left (elim (Bool-cases (ltb m.lh.n m.power)) [
      | inl lt ↦ unfold write_log in carried_out (ltb→lt m.lh.n m.power lt)
      | inr le ↦ unfold write_log in cut_short (ground arith)
    ])
    | inr none_left ↦ rw none_left (record {
      start_same = refl;
      size_same = refl;
      fits = empty-Fits m.start m.size m.lh.n m.disk.head idle.fits.room idle.cleared;
      old_or_new = elim (Bool-cases (ltb m.lh.n m.power)) [
        | inl lt ↦ inr (
          ltb→lt m.lh.n m.power lt,
          λ b h. empty_view b ∙ idle.cached b h (λ i il. absurd (ground arith)),
        )
        | inr le ↦ inl (ground arith, λ b h. empty_view b)
      ];
    })
  ]

  -- A commit that is not cut short puts the contents of the cache on the disk.
  pub commit_lem :
      m.lh.n + 1 + m.lh.n < m.power
      → Idle (commit m) × ((b : ℕ) → Home m.start m.size b → (commit m).disk.cells b ≡ m.cache b)
  unfolding commit write_log
  commit_lem power = elim (Bool-cases (ltb 0 m.lh.n)) [
    | inl some_left ↦ rw some_left (
      carried_out-Idle (omega arith) power,
      λ b h.
          let lt : m.lh.n < m.power = omega arith in
          elim (carried_out lt).old_or_new [
            | inl (le, old) ↦ absurd (omega arith)
            | inr (lt', new) ↦
                sym (
                  ap
                    (λ k.
                      logged k m.start (settle (headed lt)).disk.head.block
                        (settle (headed lt)).disk.cells b)
                    (carried_out-Idle lt power).cleared)
                ∙ new b h
          ],
    )
    | inr none_left ↦ rw none_left (idle, λ b h. idle.cached b h (λ i il. absurd (ground arith)))
  ]
