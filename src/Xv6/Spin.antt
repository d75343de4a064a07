-- ===== src/Xv6/Spin.antt =====
-- Spin locks and the nesting of interrupts off (A5/xv6-public/spinlock.c).
pub mod Nesting
pub mod Tests
use oscassignments.Base.{
  ℕ, zero, suc, ◌+◌, ◌-◌, Bool, true, false, not, ◌&&◌, Option, none, some, ◌==◌, if◌then◌else◌,
  List, [], ◌∷◌,
}
use oscassignments.Xv6.Types.{Panic, Result, ok, panic, ◌>>=◌}

-- `ncli` and `intena` of `struct cpu`, and the interrupt flag of the processor.
pub record Cpu : Type 0 where
  pub ncli : ℕ
  pub intena : Bool
  pub interrupts : Bool

-- `struct spinlock`, less its name and the call stack.
pub record Spinlock : Type 0 where
  pub locked : Bool
  pub cpu : Option ℕ

unfoldable pub pushcli : Cpu → Cpu
pushcli c = record {
  ncli = c.ncli + 1;
  intena = if c.ncli == 0 then c.interrupts else c.intena;
  interrupts = false;
}

unfoldable pub popcli : Cpu → Result Cpu
popcli c =
    if c.interrupts
    then panic Panic.popcli_interruptible
    else (if c.ncli == 0
        then panic Panic.popcli
        else ok (record c { ncli = c.ncli - 1; interrupts = c.ncli - 1 == 0 && c.intena }))

abbrev pub is_mine : ℕ → Spinlock → Bool
is_mine me l = l.locked && (elim l.cpu [ none ↦ false | some p ↦ p == me ])

unfoldable pub holding : ℕ → Spinlock → Cpu → Result (Bool × Cpu)
holding me l c = do c1 ← popcli (pushcli c); ok (is_mine me l, c1)

-- `acquire` by the processor `me` at a turn of its loop; no lock is returned while it spins.
abbrev pub taken : ℕ → Spinlock → Bool × Cpu → Result (Option (Spinlock × Cpu))
taken me l r =
    if r.0
    then panic Panic.acquire
    else (if l.locked then ok none else ok (some (record { locked = true; cpu = some me }, r.1)))

unfoldable pub acquire : ℕ → Spinlock → Cpu → Result (Option (Spinlock × Cpu))
acquire me l c = do r ← holding me l (pushcli c); taken me l r

abbrev pub given_back : Bool × Cpu → Result (Spinlock × Cpu)
given_back r =
    if r.0
    then (do c1 ← popcli r.1; ok (record { locked = false; cpu = none }, c1))
    else panic Panic.release

unfoldable pub release : ℕ → Spinlock → Cpu → Result (Spinlock × Cpu)
release me l c = do r ← holding me l c; given_back r

-- A run of calls.
pub data Call : Type 0 where
  push pop : Call

unfoldable pub run : List Call → Cpu → Result Cpu
run [] c = ok c
run (Call.push ∷ calls) c = run calls (pushcli c)
run (Call.pop ∷ calls) c = do c1 ← popcli c; run calls c1
