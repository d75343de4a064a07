-- ===== src/Xv6/Table.antt =====
-- The process table of A5/xv6-public/proc.c: `allocproc`, `fork`, `exit`, `wait`, `waitx`, `sleep`,
-- `wakeup1`, `yield`, `kill`, `set_prio` and `getpinfo`. The current process is the argument `cur`.
pub mod Scan
pub mod Wake
pub mod Alloc
pub mod Reparent
pub mod Exit
pub mod Wait
pub mod Kill
pub mod Fork
use oscassignments.Base.{
  List, [], ◌∷◌, ℕ, zero, suc, ◌+◌, ◌-◌, ◌/◌, Bool, true, false, not, Option, none, some, ◌==◌, ltb,
  ◌&&◌, ◌||◌, if◌then◌else◌, update, find_first,
}
use oscassignments.Base.Int.{ℤ, pos, negsuc, signed32, ltb_ℤ}
use oscassignments.Xv6.Types.{
  Proc, Procstate, Chan, null, on_proc, on_addr, chan_eq, Panic, Result, ok, panic, ◌>>=◌, pq_count,
  nproc, sub32, is_runnable, is_sleeping, is_unused, is_zombie,
}
use oscassignments.Xv6.Kalloc.{kalloc, kfree}
use oscassignments.Xv6.Kernel.{Kernel, set_proc, for_procs, Policy, mlfq, pbs}
use oscassignments.Xv6.Mlfq.{push_back, get_q_idx}

-- C's -1
abbrev pub minus_one : ℤ
minus_one = negsuc 0

abbrev pub default_priority : ℤ
default_priority = pos 60

abbrev pub set_state : ℕ → Procstate → Kernel → Kernel
set_state p st k = set_proc p (record (k.procs p) { state = st }) k

-- `p->parent == curproc`
abbrev pub parent_is : Option ℕ → ℕ → Bool
parent_is none cur = false
parent_is (some q) cur = q == cur

abbrev pub has_parent : Proc → ℕ → Bool
has_parent p cur = parent_is p.parent cur

abbrev pub restamped : ℕ → Kernel → Kernel
restamped p k = set_proc p (record (k.procs p) { latest_q_time = k.ticks }) k

abbrev pub stamped : ℕ → Kernel → Kernel
stamped p k = set_proc p (record (k.procs p) { ctime = k.ticks; rtime = 0; etime = minus_one }) k

unfoldable pub init_proc_my_style : Policy → ℕ → Kernel → Result Kernel
init_proc_my_style policy p k = if (k.procs p).pid == 0 then ok k else elim policy [
  | Policy.mlfq ↦ (do k' ← push_back (pos 0) p k; ok (stamped p (restamped p k')))
  | _ ↦ ok (stamped p k)
]

-- An unused slot becomes an embryo with the next pid.
abbrev pub claimed : ℕ → Kernel → Kernel
claimed p k = record k {
  procs = update k.procs p (record (k.procs p) { state = Procstate.embryo; pid = k.nextpid });
  nextpid = k.nextpid + 1;
}

abbrev pub with_stack : Policy → ℕ → ℕ → Kernel → Kernel
with_stack policy p page k =
    set_proc p
      (record (k.procs p) {
        kstack = some page;
        priority = elim policy [ Policy.pbs ↦ default_priority | _ ↦ (k.procs p).priority ];
      })
      k

unfoldable pub allocproc : Policy → Kernel → Result (Option ℕ × Kernel)
unfolding init_proc_my_style
allocproc policy k = elim (find_first (λ i. is_unused (k.procs i).state) nproc 0) [
  | none ↦ ok (none, k)
  | some p ↦
      let k1 = claimed p k in
      let (page, rest) = kalloc k1.freelist in
      elim page [
        | none ↦ ok (none, set_state p Procstate.unused k1)
        | some stack ↦ (do
          k2 ←
              init_proc_my_style policy p
                (with_stack policy p stack (record k1 { freelist = rest }))
          ok (some p, k2))
      ]
]

-- The child's fields that `fork` sets once the address space is copied.
abbrev pub child_of : Policy → ℕ → ℕ → ℕ → Kernel → Proc
child_of policy cur np pgdir k =
    let c = k.procs np in
    record c {
      pgdir = some pgdir;
      sz = (k.procs cur).sz;
      parent = some cur;
      name = (k.procs cur).name;
      priority = elim policy [
        | Policy.pbs ↦ if ltb 2 c.pid then pos (c.pid / 2) else default_priority
        | _ ↦ c.priority
      ];
      state = Procstate.runnable;
    }

-- `fork` without an address space for the child: its slot and its stack are given back.
abbrev pub unforked : ℕ → Kernel → Result (ℤ × Kernel)
unforked np k = elim ((k.procs np).kstack) [
  | none ↦ panic Panic.kfree_range
  | some stack ↦ (do
    freelist' ← kfree k.kernel_end stack k.freelist
    ok (
      minus_one,
      set_proc np (record (k.procs np) { pgdir = none; kstack = none; state = Procstate.unused })
          (record k { freelist = freelist' }),
    ))
]

-- `copyuvm` of vm.c takes pages from the free list, and gives some back: what it makes of the list.
abbrev pub Copyuvm : Type 0
Copyuvm = List ℕ → Result (Option ℕ × List ℕ)

unfoldable pub fork : Policy → (cur : ℕ) → Copyuvm → Kernel → Result (ℤ × Kernel)
fork policy cur copyuvm k = do
  got ← allocproc policy k
  let k1 = got.1
  elim (got.0) [
    | none ↦ ok (minus_one, k1)
    | some np ↦ do
      copied ← copyuvm k1.freelist
      let k2 = record k1 { freelist = copied.1 }
      elim (copied.0) [
        | none ↦ unforked np k2
        | some pgdir ↦ ok (pos (k2.procs np).pid, set_proc np (child_of policy cur np pgdir k2) k2)
      ]
  ]

-- The body of the loop of `wakeup1`.
unfoldable pub wake : Policy → Chan → ℕ → Kernel → Result Kernel
wake policy chan i k =
    if is_sleeping (k.procs i).state && chan_eq (k.procs i).chan chan
    then elim policy [
      | Policy.mlfq ↦ (do
        k' ← push_back (get_q_idx k i) i k
        ok (set_state i Procstate.runnable k'))
      | _ ↦ ok (set_state i Procstate.runnable k)
    ]
    else ok k

unfoldable pub wakeup1 : Policy → Chan → Kernel → Result Kernel
wakeup1 policy chan k = for_procs nproc 0 (wake policy chan) k

-- the address of a process, which may be null
abbrev pub chan_of : Option ℕ → Chan
chan_of none = null
chan_of (some p) = on_proc p

-- The body of the loop of `exit` that hands children to `init`.
unfoldable pub reparent : Policy → (cur : ℕ) → ℕ → Kernel → Result Kernel
reparent policy cur i k =
    if has_parent (k.procs i) cur
    then (let k' = set_proc i (record (k.procs i) { parent = k.initproc }) k in
        if is_zombie (k.procs i).state then wakeup1 policy (chan_of k.initproc) k' else ok k')
    else ok k

abbrev pub is_init : Kernel → ℕ → Bool
is_init k cur = parent_is k.initproc cur

-- `exit` up to its call of `sched`, which does not return.
unfoldable pub exit : Policy → (cur : ℕ) → Kernel → Result Kernel
exit policy cur k = if is_init k cur then panic Panic.init_exiting else (do
  let k1 = set_proc cur (record (k.procs cur) { etime = signed32 k.ticks }) k
  k2 ← wakeup1 policy (chan_of (k1.procs cur).parent) k1
  k3 ← for_procs nproc 0 (reparent policy cur) k2
  ok (set_state cur Procstate.zombie k3))

-- What `wait` comes to in one scan of the table: a child reaped, -1, or a sleep on `curproc`.
pub data Waited : Type 0 where
  reaped : (pid wtime rtime : ℕ) → Waited
  gives_up : Waited
  sleeps : Waited

abbrev pub freed : Kernel → Proc → Proc
freed k p = record p {
  kstack = none;
  pid = 0;
  parent = none;
  name = 0;
  killed = false;
  state = Procstate.unused;
  etime = signed32 k.ticks;
}

-- A page directory and, in order, the pages of memory and of page tables that `freevm` finds in it.
abbrev pub PagesOf : Type 0
PagesOf = ℕ → List ℕ

unfoldable pub free_each : (kernel_end : ℕ) → List ℕ → List ℕ → Result (List ℕ)
free_each kernel_end [] freelist = ok freelist
free_each kernel_end (v ∷ vs) freelist = do
  freelist' ← kfree kernel_end v freelist
  free_each kernel_end vs freelist'

unfoldable pub freevm : PagesOf → (kernel_end : ℕ) → Option ℕ → List ℕ → Result (List ℕ)
freevm pages kernel_end none freelist = panic Panic.freevm_no_pgdir
freevm pages kernel_end (some pgdir) freelist = do
  freelist' ← free_each kernel_end (pages pgdir) freelist
  kfree kernel_end pgdir freelist'

-- `wait` and `waitx`, one turn of `for (;;)`. `waitx` hands out the times, `wait` only the pid.
unfoldable pub waitx : PagesOf → (cur : ℕ) → Kernel → Result (Waited × Kernel)
waitx pages cur k =
    elim (find_first (λ i. has_parent (k.procs i) cur && is_zombie (k.procs i).state) nproc 0) [
      | some i ↦
          let p = k.procs i in
          elim (p.kstack) [
            | none ↦ panic Panic.kfree_range
            | some stack ↦ (do
              freelist1 ← kfree k.kernel_end stack k.freelist
              freelist2 ← freevm pages k.kernel_end p.pgdir freelist1
              ok (
                reaped p.pid (sub32 (sub32 k.ticks p.ctime) p.rtime) p.rtime,
                set_proc i (freed k p) (record k { freelist = freelist2 }),
              ))
          ]
      | none ↦ elim (find_first (λ i. has_parent (k.procs i) cur) nproc 0) [
        | none ↦ ok (gives_up, k)
        | some _ ↦ if (k.procs cur).killed then ok (gives_up, k) else ok (sleeps, k)
      ]
    ]

-- `sleep` up to its call of `sched`, and from there on.
unfoldable pub sleep : (cur : ℕ) → Chan → Kernel → Kernel
sleep cur chan k = set_proc cur (record (k.procs cur) { chan = chan; state = Procstate.sleeping }) k

unfoldable pub awake : (cur : ℕ) → Kernel → Kernel
awake cur k = set_proc cur (record (k.procs cur) { chan = null }) k

unfoldable pub yield : (cur : ℕ) → Kernel → Kernel
yield cur k = set_state cur Procstate.runnable k

abbrev pub killed_proc : Proc → Proc
killed_proc p = record p {
  killed = true;
  state = if is_sleeping p.state then Procstate.runnable else p.state;
}

unfoldable pub kill : ℕ → Kernel → ℤ × Kernel
kill pid k = elim (find_first (λ i. (k.procs i).pid == pid) nproc 0) [
  | none ↦ (minus_one, k)
  | some i ↦ (pos 0, set_proc i (killed_proc (k.procs i)) k)
]

unfoldable pub set_prio : (cur : ℕ) → ℤ → Kernel → ℤ × Kernel
set_prio cur new k =
    if ltb_ℤ new minus_one || ltb_ℤ (pos 100) new
    then (minus_one, k)
    else ((k.procs cur).priority, set_proc cur (record (k.procs cur) { priority = new }) k)

-- `struct proc_stat` as `getpinfo` fills it in
pub record ProcStat : Type 0 where
  pub pid : ℕ
  pub runtime : ℕ
  pub num_run : ℕ
  pub alloted_q : ℤ
  pub alloted_pos : ℤ
  pub ticks : ℕ → ℕ

unfoldable pub getpinfo : ℕ → Kernel → Result (Option ProcStat)
getpinfo pid k =
    if pid == 0
    then panic Panic.no_pid
    else elim (find_first (λ i. (k.procs i).pid == pid) nproc 0) [
      | none ↦ ok none
      | some i ↦
          let p = k.procs i in
          ok (
            some (record {
              pid = pid;
              runtime = p.rtime;
              num_run = p.num_run;
              alloted_q = p.alloted_q;
              alloted_pos = p.alloted_pos;
              ticks = p.actual_ticks;
            }))
    ]
