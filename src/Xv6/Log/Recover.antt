-- ===== src/Xv6/Log/Recover.antt =====
-- Recovery of A5/xv6-public/log.c, which may be cut short and repeated.
use oscassignments.Base.{ℕ, ◌≤◌, ◌<◌, ◌≡◌, ◌⊎◌, inl, inr, refl, ◌∙◌, sym, ap, arith, List, [], ◌∷◌}
use mathlib.Core.Path.{subst}
use oscassignments.Xv6.Log.{Machine, read_head, recover_from_log, commit, boot}
use oscassignments.Xv6.Log.Writes.{Home, logged, view, Fits}
use oscassignments.Xv6.Log.Crash.{Logged, Settled, settle-Settled}
use oscassignments.Xv6.Log.Commit.{Idle, commit-Committed}

-- The machine starts with the disk of `m`, and stops again when `power` blocks have been written.
abbrev pub restart : ℕ → Machine → Machine
restart power m = recover_from_log (boot m power)

-- Starts that are cut short, the first of the list first.
abbrev pub restarts : List ℕ → Machine → Machine
restarts [] m = m
restarts (p ∷ ps) m = restarts ps (restart p m)

-- What has come of a disk: its view on the home blocks is the same, and so is the log's place.
record Kept (m m' : Machine) : Type 0 where
  start_same : m'.start ≡ m.start
  size_same : m'.size ≡ m.size
  fits : Fits m'.start m'.size m'.disk.head
  view_same : (b : ℕ) → Home m.start m.size b → view m.start m'.disk b ≡ view m.start m.disk b

module _ (m : Machine) (fits : Fits m.start m.size m.disk.head) where
  read-Logged : (power : ℕ) → Logged m.size (read_head (boot m power))
  unfolding read_head
  read-Logged power = record { fits = fits; head_eq = refl; agree = λ i lt. refl }

  restart-Settled : (power : ℕ) → Settled m.size (read_head (boot m power)) (restart power m)
  unfolding recover_from_log
  restart-Settled power = settle-Settled m.size (read_head (boot m power)) (read-Logged power)

  restart-Kept : (power : ℕ) → Kept m (restart power m)
  unfolding read_head
  restart-Kept power =
      let s = restart-Settled power in
      record {
        start_same = s.start_same;
        size_same = s.size_same;
        fits =
            subst (λ k. Fits k (restart power m).size (restart power m).disk.head)
              (sym s.start_same)
              (subst (λ k. Fits m.start k (restart power m).disk.head) (sym s.size_same) s.fits);
        view_same = s.view_same;
      }

restarts-Kept :
    (ps : List ℕ) (m : Machine) → Fits m.start m.size m.disk.head → Kept m (restarts ps m)
restarts-Kept [] m fits = record {
  start_same = refl;
  size_same = refl;
  fits = fits;
  view_same = λ b h. refl;
}
restarts-Kept (p ∷ ps) m fits =
    let one = restart-Kept m fits p in
    let rest = restarts-Kept ps (restart p m) one.fits in
    record {
      start_same = rest.start_same ∙ one.start_same;
      size_same = rest.size_same ∙ one.size_same;
      fits = rest.fits;
      view_same = λ b h.
          subst (λ k. view k (restarts ps (restart p m)).disk b ≡ view k (restart p m).disk b)
            one.start_same
            (rest.view_same b (
              subst (λ k. Home k (restart p m).size b) (sym one.start_same)
                (subst (λ k. Home m.start k b) (sym one.size_same) h)))
          ∙ one.view_same b h;
    }

-- A start with power for all writes shows the view of the disk on the home blocks.
restart_full :
    (m : Machine) (power : ℕ)
    → Fits m.start m.size m.disk.head
    → m.size ≤ power
    → (b : ℕ) → Home m.start m.size b
    → (restart power m).disk.cells b ≡ view m.start m.disk b
unfolding read_head
restart_full m power fits full b h =
    let s = restart-Settled m fits power in
    sym (
      ap
        (λ k. logged k m.start ((restart power m).disk.head.block) ((restart power m).disk.cells) b)
        (s.cleared (omega (arith, fits.room))))
    ∙ s.view_same b h

full_view :
    (m m' : Machine) (power : ℕ)
    → Kept m m'
    → m'.size ≤ power
    → (b : ℕ) → Home m.start m.size b
    → (restart power m').disk.cells b ≡ view m.start m.disk b
full_view m m' power k full b h =
    restart_full m' power k.fits full b (
      subst (λ x. Home x m'.size b) (sym k.start_same)
        (subst (λ x. Home m.start x b) (sym k.size_same) h))
    ∙ ap (λ x. view x m'.disk b) k.start_same
    ∙ k.view_same b h

-- However a commit and any number of recoveries after it are cut short, once a recovery is carried
-- out the blocks outside of the log are all as before the transaction, which happens exactly if the
-- machine stopped before the header was written, or all as the transaction has left them.
pub crash_safe :
    (m : Machine) (cuts : List ℕ) (power : ℕ)
    → Idle m
    → m.size ≤ power
    → ((m.power ≤ m.lh.n)
        × ((b : ℕ)
            → Home m.start m.size b
            → (restart power (restarts cuts (commit m))).disk.cells b ≡ m.disk.cells b))
      ⊎ ((m.lh.n < m.power)
          × ((b : ℕ)
              → Home m.start m.size b
              → (restart power (restarts cuts (commit m))).disk.cells b ≡ m.cache b))
crash_safe m cuts power idle full =
    let c = commit-Committed m idle in
    let fits1 : Fits (commit m).start (commit m).size (commit m).disk.head =
      rw (c.start_same, c.size_same) (c.fits) in
    let k = restarts-Kept cuts (commit m) fits1 in
    let same : (b : ℕ)
        → Home m.start m.size b
        → (restart power (restarts cuts (commit m))).disk.cells b ≡ view m.start (commit m).disk b =
      λ b h.
        full_view (commit m) (restarts cuts (commit m)) power k
          (subst (λ x. x ≤ power) (sym (k.size_same ∙ c.size_same)) full) b
          (subst (λ x. Home x (commit m).size b) (sym c.start_same)
            (subst (λ x. Home m.start x b) (sym c.size_same) h))
        ∙ ap (λ x. view x (commit m).disk b) c.start_same in
    elim c.old_or_new [
      | inl (le, old) ↦ inl (le, λ b h. same b h ∙ old b h)
      | inr (lt, new) ↦ inr (lt, λ b h. same b h ∙ new b h)
    ]
