-- ===== src/Xv6/Log/Tests.antt =====
-- The theorems on the log at a concrete disk: the log takes blocks 2 to 32, and a transaction has
-- changed blocks 40 and 41.
use oscassignments.Base.{
  ℕ, ◌+◌, ◌≤◌, ◌<◌, ◌≡◌, ◌⊎◌, inr, refl, arith, ◌==◌, if◌then◌else◌, true, false, update, some, [],
  ◌∷◌,
}
use oscassignments.Xv6.Types.{ok}
use oscassignments.Xv6.Log.{
  Machine, bwrite, write_head, install_from, write_log_from, install_trans, write_log, commit,
  begin_op, log_write, note_block,
}
use oscassignments.Xv6.Log.Writes.{Home}
use oscassignments.Xv6.Log.Commit.{Idle, commit_lem}
use oscassignments.Xv6.Log.Recover.{restart, restarts, crash_safe}
use oscassignments.Xv6.Log.Note.{IsDistinct, log_write-Idle}
use oscassignments.Xv6.Log.Space.{ops, begins, Reachable, begin, next, log_write_fits, Noted}

abbrev changed : (power : ℕ) → Machine
changed power = record {
  start = 2;
  size = 31;
  outstanding = 0;
  committing = true;
  lh = record { n = 2; block = λ i. 40 + i };
  disk = record { head = record { n = 0; block = λ i. 0 }; cells = λ b. 0 };
  cache = λ b. if b == 40 then 7 else if b == 41 then 8 else 0;
  power = power;
}

changed-Idle : (power : ℕ) → Idle (changed power)
changed-Idle power = record {
  cleared = refl;
  fits = record { room = omega arith; home = λ i lt. inr (omega arith) };
  cached = λ b h none. let x = none 0 (omega arith) in let y = none 1 (omega arith) in ground arith;
}

-- The machine stops while it installs, and again while it recovers.
crash_safe_example :
    ((4 ≤ 2)
      × ((b : ℕ)
          → Home 2 31 b
          → (restart 31 (restarts (1 ∷ []) (commit (changed 4)))).disk.cells b ≡ 0))
    ⊎ ((2 < 4)
        × ((b : ℕ)
            → Home 2 31 b
            → (restart 31 (restarts (1 ∷ []) (commit (changed 4)))).disk.cells b
              ≡ (changed 4).cache b))
crash_safe_example = crash_safe (changed 4) (1 ∷ []) 31 (changed-Idle 4) (omega arith)

-- The first block is at its home by then, the second one is not.
half_installed : (commit (changed 4)).disk.cells 40 ≡ 7
unfolding commit write_log write_log_from write_head install_trans install_from bwrite
half_installed = refl

half_missing : (commit (changed 4)).disk.cells 41 ≡ 0
unfolding commit write_log write_log_from write_head install_trans install_from bwrite
half_missing = refl

commit_example :
    Idle (commit (changed 9))
    × ((b : ℕ) → Home 2 31 b → (commit (changed 9)).disk.cells b ≡ (changed 9).cache b)
commit_example = commit_lem (changed 9) (changed-Idle 9) (omega arith)

abbrev under_way : Machine
under_way = record (changed 9) { outstanding = 1; committing = false }

under_way-Idle : Idle under_way
under_way-Idle = record {
  cleared = refl;
  fits = (changed-Idle 9).fits;
  cached = (changed-Idle 9).cached;
}

abbrev logged_more : Machine
logged_more = record under_way {
  cache = update under_way.cache 41 5;
  lh = note_block 41 under_way.lh;
}

logs_more : log_write 41 5 under_way ≡ ok logged_more
unfolding log_write
logs_more = refl

log_write_example : Idle logged_more × IsDistinct logged_more.lh
log_write_example =
    log_write-Idle 41 5 under_way logged_more (inr (omega arith)) under_way-Idle
      (λ i j lt jn. omega arith) logs_more

abbrev empty_log : Machine
empty_log = record (changed 9) {
  committing = false;
  size = 30;
  lh = record { n = 0; block = λ i. 0 };
}

abbrev one_begun : Machine
one_begun = record empty_log { outstanding = 1 }

one_begins : begin_op empty_log ≡ some one_begun
unfolding begin_op
one_begins = refl

one_begun-Reachable : Reachable 30 (ops one_begun (10 ∷ []))
one_begun-Reachable =
    next (ops empty_log []) (ops one_begun (10 ∷ [])) (begin empty_log refl refl refl refl)
      (begins empty_log one_begun [] one_begins)

log_write_fits_example : Noted 30 40 1 one_begun (10 ∷ []) (log_write 40 1 one_begun)
log_write_fits_example = log_write_fits 30 one_begun [] [] 9 40 1 (omega arith) one_begun-Reachable
