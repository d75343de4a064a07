-- ===== src/Xv6/Scheduler/Choice.antt =====
-- Which process the FCFS part of `scheduler` (A5/xv6-public/proc.c) chooses, and the priority that the
-- PBS part looks for.
use oscassignments.Base.{
  ℕ, zero, suc, ◌+◌, ◌≤◌, ◌<◌, ◌≡◌, refl, sym, ◌∙◌, Bool, true, false, ◌&&◌, Option, none, some,
  arith, Bool-cases, inl, inr, ◌⊎◌, if◌then◌else◌,
}
use native.Mathlib.Decide.{ℕ_discrete}
use oscassignments.Base.Int.{ℤ, signed32, ltb_ℤ, ◌≤ℤ◌}
use oscassignments.Xv6.Types.{nproc, is_runnable}
use oscassignments.Xv6.Kernel.{Kernel}
use oscassignments.Xv6.Scheduler.{fcfs_better, fcfs_scan, fcfs_pick, min_prio}

abbrev pub runnable_at : Kernel → ℕ → Bool
runnable_at k i = is_runnable (k.procs i).state

-- the creation time, as the int that the code compares
abbrev pub created : Kernel → ℕ → ℤ
created k i = signed32 (k.procs i).ctime

-- Of the slots below `hi`: none is runnable, or `b` is, no runnable one was created before it, and none
-- in a lower slot at the same time.
abbrev pub Oldest : Kernel → ℕ → Option ℕ → Type 0
Oldest k hi none = (i : ℕ) → i < hi → runnable_at k i ≡ false
Oldest k hi (some b) =
    (b < hi)
    × (runnable_at k b ≡ true)
    × ((i : ℕ) → i < hi → runnable_at k i ≡ true → created k b ≤ℤ created k i)
    × ((i : ℕ) → i < b → runnable_at k i ≡ true → ltb_ℤ (created k b) (created k i) ≡ true)

≤ℤ_refl : (a : ℤ) → a ≤ℤ a
≤ℤ_refl a = omega arith

≤ℤ_trans : (a b c : ℤ) → a ≤ℤ b → b ≤ℤ c → a ≤ℤ c
≤ℤ_trans a b c h g = omega arith

lt_le_trans : (a b c : ℤ) → ltb_ℤ a b ≡ true → b ≤ℤ c → (a ≤ℤ c) × (ltb_ℤ a c ≡ true)
lt_le_trans a b c h g = ground arith

and-true : (a b : Bool) → (a && b) ≡ true → (a ≡ true) × (b ≡ true)
and-true a b h = ground arith

keep-Oldest :
    (k : Kernel) (i : ℕ) (best : Option ℕ)
    → fcfs_better k best i ≡ false
    → Oldest k i best
    → Oldest k (i + 1) best
unfolding fcfs_better
keep-Oldest k i none e h =
    λ m up. elim (ℕ_discrete m i) [ yes same ↦ rw same e | no other ↦ h m (omega arith) ]
keep-Oldest k i (some b) e h = (
  omega arith,
  h.1,
  λ m up run. elim (ℕ_discrete m i) [
    | yes same ↦
        rw same (not_younger b i (let e' : runnable_at k i ≡ true = rw same at run in rw e' at e))
    | no other ↦ h.2 m (omega arith) run
  ],
  h.3,
)
  where
    not_younger : (b i : ℕ) → ltb_ℤ (created k i) (created k b) ≡ false → created k b ≤ℤ created k i
    not_younger b i g = ground arith

new-Oldest :
    (k : Kernel) (i : ℕ) (best : Option ℕ)
    → fcfs_better k best i ≡ true
    → Oldest k i best
    → Oldest k (i + 1) (some i)
unfolding fcfs_better
new-Oldest k i none e h = (
  omega arith,
  e,
  λ m up run. elim (ℕ_discrete m i) [
    | yes same ↦ rw same (≤ℤ_refl (created k i))
    | no other ↦ cc (h m (omega arith))
  ],
  λ m up run. cc (h m up),
)
new-Oldest k i (some b) e h =
    let (run_i, less) = and-true (runnable_at k i) (ltb_ℤ (created k i) (created k b)) e in
    (
      omega arith,
      run_i,
      λ m up run. elim (ℕ_discrete m i) [
        | yes same ↦ rw same (≤ℤ_refl (created k i))
        | no other ↦
            (lt_le_trans (created k i) (created k b) (created k m) less (h.2 m (omega arith) run)).0
      ],
      λ m up run. (lt_le_trans (created k i) (created k b) (created k m) less (h.2 m up run)).1,
    )

fcfs_scan-Oldest :
    (n i hi : ℕ) (k : Kernel) (best : Option ℕ)
    → i + n ≡ hi
    → Oldest k i best
    → Oldest k hi (fcfs_scan n i k best)
unfolding fcfs_scan
fcfs_scan-Oldest zero i hi k best e h = let e' : i ≡ hi = omega arith in rw (← e') h
fcfs_scan-Oldest (suc n) i hi k best e h = elim (Bool-cases (fcfs_better k best i)) [
  | inl t ↦
      rw (t, fcfs_scan)
        (fcfs_scan-Oldest n (i + 1) hi k (some i) (omega arith) (new-Oldest k i best t h))
  | inr t ↦
      rw (t, fcfs_scan)
        (fcfs_scan-Oldest n (i + 1) hi k best (omega arith) (keep-Oldest k i best t h))
]

-- FCFS chooses the runnable process that was created first, the one in the lowest slot of those, and
-- none only if no process is runnable.
pub fcfs_pick-Oldest : (k : Kernel) → Oldest k nproc (fcfs_pick k)
unfolding fcfs_pick
fcfs_pick-Oldest k =
    fcfs_scan-Oldest nproc 0 nproc k none (omega arith) (λ i up. absurd (omega arith))

-- Of the slots from `i` up to `hi`, and `m0`: `m` is the least priority.
pub record Least (k : Kernel) (i hi : ℕ) (m0 m : ℤ) : Type 0 where
  pub below_start : m ≤ℤ m0
  pub below_all : (j : ℕ) → i ≤ j → j < hi → runnable_at k j ≡ true → m ≤ℤ (k.procs j).priority
  pub reached :
      (m ≡ m0)
      ⊎ ((j : ℕ) × (i ≤ j) × (j < hi) × (runnable_at k j ≡ true) × ((k.procs j).priority ≡ m))

-- The value that the loop goes on with after slot `i`.
abbrev lower : Kernel → ℕ → ℤ → ℤ
lower k i m0 = if runnable_at k i && ltb_ℤ (k.procs i).priority m0 then (k.procs i).priority else m0

lower-le : (run : Bool) (a m0 : ℤ) → (if run && ltb_ℤ a m0 then a else m0) ≤ℤ m0
lower-le run a m0 = ground arith

lower-le_own : (run : Bool) (a m0 : ℤ) → run ≡ true → (if run && ltb_ℤ a m0 then a else m0) ≤ℤ a
lower-le_own run a m0 h = ground arith

lower-cases :
    (run : Bool) (a m0 : ℤ)
    → ((if run && ltb_ℤ a m0 then a else m0) ≡ m0)
      ⊎ ((run ≡ true) × ((if run && ltb_ℤ a m0 then a else m0) ≡ a))
lower-cases run a m0 = elim (Bool-cases (run && ltb_ℤ a m0)) [
  | inl t ↦ rw t (inr ((and-true run (ltb_ℤ a m0) t).0, refl))
  | inr t ↦ rw t (inl refl)
]

-- PBS looks for the least priority of a runnable process, or 101 if all are above that.
pub min_prio-Least :
    (n i hi : ℕ) (k : Kernel) (m0 : ℤ) → i + n ≡ hi → Least k i hi m0 (min_prio n i k m0)
unfolding min_prio
min_prio-Least zero i hi k m0 e = record {
  below_start = omega arith;
  below_all = λ j lo up run. absurd (omega arith);
  reached = inl refl;
}
min_prio-Least (suc n) i hi k m0 e =
    let a : ℤ = (k.procs i).priority in
    let run : Bool = runnable_at k i in
    let rest : Least k (i + 1) hi (lower k i m0) (min_prio n (i + 1) k (lower k i m0)) =
      min_prio-Least n (i + 1) hi k (lower k i m0) (omega arith) in
    record {
      below_start = ≤ℤ_trans _ (lower k i m0) m0 rest.below_start (lower-le run a m0);
      below_all = λ j lo up go. elim (ℕ_discrete j i) [
        | yes same ↦
            rw same
              (≤ℤ_trans _ (lower k i m0) a rest.below_start (lower-le_own run a m0 (rw same at go)))
        | no other ↦ rest.below_all j (omega arith) up go
      ];
      reached = elim rest.reached [
        | inr (j, lo, up, go, e') ↦ inr (j, omega arith, up, go, e')
        | inl e' ↦ elim (lower-cases run a m0) [
          | inl same ↦ inl (e' ∙ same)
          | inr (go, own) ↦ inr (i, omega arith, omega arith, go, sym (e' ∙ own))
        ]
      ];
    }
