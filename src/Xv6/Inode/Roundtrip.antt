-- ===== src/Xv6/Inode/Roundtrip.antt =====
-- What `writei` of A5/xv6-public/fs.c has written, `readi` reads.
use mathlib.Core.Path.{subst, ◌∙◌, ap, sym}
use oscassignments.Base.{Bool, ℕ, ◌+◌, ◌≡◌, ◌≢◌, ◌≤◌, ◌<◌, Option, some, arith, ltb, if◌then◌else◌}
use oscassignments.Xv6.Types.{Result, ok, panic}
use oscassignments.Xv6.Fs.{Fs}
use oscassignments.Xv6.Inode.{Inode, readi, writei, Devsw, t_dev}
use oscassignments.Xv6.Inode.Place.{Sound}
use oscassignments.Xv6.Inode.Read.{file_byte}
use oscassignments.Xv6.Inode.Readi.{Answered, available, readi_lem}
use oscassignments.Xv6.Inode.Write.{Present}
use oscassignments.Xv6.Inode.Written.{Wrote, writei_lem}

-- The reply to a read of `n` bytes: all of them, and they are those of the source.
abbrev pub Echoed : (src : ℕ → ℕ) (n : ℕ) → Result (Option ℕ × (ℕ → ℕ) × Inode × Fs) → Type 0
Echoed src n (ok q) = (q.0 ≡ some n) × ((k : ℕ) → k < n → q.1 k ≡ src k)
Echoed src n (panic e) = ⊥

all_of_it :
    (size old off n : ℕ)
    → off ≤ old
    → size ≡ (if ltb old (off + n) then off + n else old)
    → available size off n ≡ n
all_of_it size old off n within e = rw e (ground arith)

grown_enough :
    (size old off n : ℕ)
    → off ≤ old
    → old ≤ 71680
    → off + n ≤ 71680
    → size ≡ (if ltb old (off + n) then off + n else old)
    → (off ≤ size) × (size ≤ 71680)
grown_enough size old off n within max max' e = rw e (ground arith, ground arith)

Answered-Echoed :
    (src : ℕ → ℕ) (ip : Inode) (fs : Fs) (dst : ℕ → ℕ) (off n : ℕ)
    (q : Result (Option ℕ × (ℕ → ℕ) × Inode × Fs))
    → available ip.size off n ≡ n
    → ((k : ℕ) → k < n → file_byte ip fs (off + k) ≡ src k)
    → Present ip fs off (off + n)
    → Answered ip fs dst off n q
    → Echoed src n q
Answered-Echoed src ip fs dst off n (ok q) e same there h =
    (h.0 ∙ ap some e, λ k lt. h.1 k (rw e lt) ∙ same k lt)
Answered-Echoed src ip fs dst off n (panic x) e same there h =
    there h.1.0 h.1.1 (subst (λ m. h.1.0 < off + m) e h.1.2) h.1.3

-- Where `writei` has stored `n` bytes in a file, `readi` at the same offset answers `n`, copies exactly
-- these bytes, and does not stop the machine. The write starts within the file and ends within the
-- largest size.
pub readi-writei :
    (devsw : Devsw) (log_full : ℕ → Bool) (ip : Inode) (fs : Fs) (src dst : ℕ → ℕ) (off n : ℕ)
    (r : Option ℕ × Inode × Fs)
    → ip.type ≢ t_dev
    → Sound ip fs
    → off ≤ ip.size
    → ip.size ≤ 71680
    → off + n ≤ 71680
    → writei devsw log_full ip fs src off n ≡ ok r
    → Echoed src n (readi devsw r.1 r.2 dst off n)
readi-writei devsw log_full ip fs src dst off n r file s within max max' e =
    let w : Wrote log_full ip fs src off n (ok r) =
      subst (Wrote log_full ip fs src off n) e
        (writei_lem devsw log_full ip fs src off n file s within max') in
    let z = grown_enough r.1.size ip.size off n within max max' w.3 in
    Answered-Echoed src r.1 r.2 dst off n (readi devsw r.1 r.2 dst off n)
      (all_of_it r.1.size ip.size off n within w.3) w.1 w.5
      (readi_lem devsw r.1 r.2 dst off n (λ d. file (sym w.6 ∙ d)) w.4 z.1 z.0 (omega arith))
