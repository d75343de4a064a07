-- ===== src/Xv6/Machine.antt =====
-- A concrete machine, on which the theorems about the kernel are tried: `init`, a shell, a job and its zombie child.
use oscassignments.Base.{
  refl, false, none, some, ◌==◌, if◌then◌else◌, update, arith, Bool-cases, inl, inr, [], ◌∷◌, ℕ,
  ◌≢◌, ◌≡◌, ◌<◌, true,
}
use oscassignments.Base.Int.{pos}
use oscassignments.Xv6.Types.{Proc, Procstate, null, on_proc, nproc, is_runnable}
use oscassignments.Xv6.Kernel.{Kernel}
use oscassignments.Xv6.Mlfq.Invariant.{IsValid}
use oscassignments.Xv6.Table.Alloc.{PidsOk}

abbrev pub blank : Proc
blank = record {
  sz = 0;
  pgdir = none;
  kstack = none;
  state = Procstate.unused;
  pid = 0;
  parent = none;
  chan = null;
  killed = false;
  name = 0;
  ctime = 0;
  etime = pos 0;
  rtime = 0;
  priority = pos 0;
  num_run = 0;
  alloted_q = pos 0;
  alloted_pos = pos 0;
  actual_ticks = λ _. 0;
  latest_q_time = 0;
}

abbrev pub init : Proc
init = record blank {
  state = Procstate.sleeping;
  pid = 1;
  chan = on_proc 0;
  kstack = some 0x8040_0000;
  ctime = 1;
  priority = pos 60;
}

abbrev pub shell : Proc
shell = record blank {
  state = Procstate.runnable;
  pid = 2;
  parent = some 0;
  kstack = some 0x8040_1000;
  ctime = 5;
  priority = pos 50;
  alloted_q = pos 1;
}

abbrev pub job : Proc
job = record blank {
  state = Procstate.running;
  pid = 3;
  parent = some 0;
  kstack = some 0x8040_2000;
  ctime = 7;
  priority = pos 70;
  alloted_q = pos 2;
  latest_q_time = 96;
}

abbrev pub corpse : Proc
corpse = record blank {
  state = Procstate.zombie;
  pid = 4;
  parent = some 2;
  kstack = some 0x8040_3000;
  pgdir = some 0x8040_4000;
  ctime = 20;
  rtime = 30;
}

abbrev pub machine : Kernel
machine = record {
  procs = λ i.
      if i == 0
      then init
      else if i == 1
      then shell
      else if i == 2
      then job
      else if i == 3
      then corpse
      else blank;
  queues = λ q.
      if q == 1
      then (record { cells = update (λ _. none) 0 (some 1); start = 0; size = 1 })
      else (record { cells = λ _. none; start = 0; size = 0 });
  nextpid = 5;
  ticks = 100;
  initproc = some 0;
  freelist = 0x8050_0000 ∷ 0x8050_1000 ∷ [];
  kernel_end = 0x8010_0000;
}

pub machine-IsValid : IsValid machine
machine-IsValid = record {
  queue_ok = λ q hq. elim (Bool-cases (q == 1)) [
    | inl e ↦ rw e (record {
      slots = 1 ∷ [];
      rep = record { start_in = omega arith; size_eq = refl; room = omega arith; seg = (refl, tt) };
      distinct = (tt, tt);
      in_table = (omega arith, tt);
    })
    | inr e ↦ rw e (record {
      slots = [];
      rep = record { start_in = omega arith; size_eq = refl; room = omega arith; seg = tt };
      distinct = tt;
      in_table = tt;
    })
  ];
  alloted = λ i. ground arith;
}

pub machine-PidsOk : PidsOk machine
machine-PidsOk = record { fresh = λ i. ground arith; unique = λ i j h e. ground arith }

pub pids_set :
    (i : ℕ) → i < nproc → is_runnable (machine.procs i).state ≡ true → (machine.procs i).pid ≢ 0
pids_set i h run = ground arith
