-- ===== src/Xv6/Trap/Slice.antt =====
-- When the running process gives up the processor at a timer interrupt (A5/xv6-public/trap.c).
use oscassignments.Base.{
  ℕ, ◌^◌, ◌≤◌, ◌<◌, ◌≡◌, ◌≢◌, refl, ◌∙◌, Bool, true, false, some, arith, inl, inr, ◌⊎◌, ◌↔◌, ltb,
  sym,
}
use native.Mathlib.Decide.{dec_le, ℕ_discrete}
use oscassignments.Base.Int.{pos}
use oscassignments.Xv6.Types.{ok, nproc, is_running, is_runnable}
use oscassignments.Xv6.Kernel.{Kernel, mlfq}
use oscassignments.Xv6.Mlfq.{get_ticks}
use oscassignments.Xv6.Mlfq.Invariant.{IsValid}
use oscassignments.Xv6.Scheduler.{time_to_preempt}
use oscassignments.Xv6.Scheduler.Preempt.{Ahead, time_to_preempt_lem}
use oscassignments.Xv6.Trap.{must_yield}

-- With MLFQ: the process of queue `q` has run for `n` ticks.
module _ (k : Kernel) (p q n : ℕ) (v : IsValid k)
    (pids : (i : ℕ) → i < nproc → is_runnable (k.procs i).state ≡ true → (k.procs i).pid ≢ 0)
    (running : is_running (k.procs p).state ≡ true) (queue : (k.procs p).alloted_q ≡ pos q)
    (ran : get_ticks k p ≡ pos n) where
  used_up : n ≢ 0 → 2 ^ q ≤ n → must_yield mlfq (some p) k ≡ ok true
  unfolding must_yield
  used_up h g = ground arith

  still_left :
      (n ≡ 0) ⊎ (n < 2 ^ q)
      → must_yield mlfq (some p) k ≡ ok (ltb 0 (time_to_preempt mlfq (pos q) false k))
  unfolding must_yield
  still_left (inl h) = ground arith
  still_left (inr h) = ground arith

  -- A running process yields exactly if it has used up its time slice of 2 ^ q ticks, or some runnable
  -- process stands in a queue of higher priority.
  pub must_yield_lem :
      (yes_no : Bool) × (must_yield mlfq (some p) k ≡ ok yes_no)
      × ((yes_no ≡ true) ↔ (
          ((n ≢ 0) × (2 ^ q ≤ n)) ⊎ ((i : ℕ) × (i < nproc) × Ahead mlfq (pos q) false (k.procs i))))
  must_yield_lem = elim (dec_le (2 ^ q) n) [
    | yes g ↦ elim (ℕ_discrete n 0) [
      | yes z ↦ asks (inl z)
      | no nz ↦ (true, used_up nz g, (λ _. inl (nz, g), λ _. refl))
    ]
    | no g ↦ asks (inr (omega arith))
  ]
    where
      ahead_of :
          (yes_no : Bool)
          → ltb 0 (time_to_preempt mlfq (pos q) false k) ≡ yes_no
          → (yes_no ≡ true) ↔ ((i : ℕ) × (i < nproc) × Ahead mlfq (pos q) false (k.procs i))
      ahead_of yes_no e =
          let both = time_to_preempt_lem mlfq (pos q) false k v pids in
          (λ t. both.0 (pos_ne (e ∙ t)), λ a. sym e ∙ ne_pos (both.1 a))
        where
          pos_ne : {m : ℕ} → ltb 0 m ≡ true → m ≢ 0
          pos_ne h = ground arith

          ne_pos : {m : ℕ} → m ≢ 0 → ltb 0 m ≡ true
          ne_pos h = ground arith

      asks :
          (n ≡ 0) ⊎ (n < 2 ^ q)
          → (yes_no : Bool) × (must_yield mlfq (some p) k ≡ ok yes_no)
            × ((yes_no ≡ true) ↔ (
                ((n ≢ 0) × (2 ^ q ≤ n))
                ⊎ ((i : ℕ) × (i < nproc) × Ahead mlfq (pos q) false (k.procs i))))
      asks left =
          let yes_no : Bool = ltb 0 (time_to_preempt mlfq (pos q) false k) in
          let iff = ahead_of yes_no refl in
          (
            yes_no,
            still_left left,
            (
              λ t. inr (iff.0 t),
              λ s. elim s [
                | inl (nz, g) ↦ absurd (elim left [ inl z ↦ nz z | inr l ↦ omega arith ])
                | inr a ↦ iff.1 a
              ],
            ),
          )
