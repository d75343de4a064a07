-- ===== src/Xv6/Types.antt =====
-- The data of the process table (A5/xv6-public/proc.h, procstat.h, param.h) and the outcome of a
-- kernel function, which may stop the machine by `panic`.
use oscassignments.Base.{ℕ, ◌+◌, ◌%◌, ◌-◌, ◌^◌, Bool, true, false, Option, ◌==◌}
use oscassignments.Base.Int.{ℤ}

abbrev pub nproc : ℕ
nproc = 64

abbrev pub pq_count : ℕ
pq_count = 5

pub data Procstate : Type 0 where
  unused embryo sleeping runnable running zombie : Procstate

-- An address to sleep on: null, a process structure, or any other.
pub data Chan : Type 0 where
  null : Chan
  on_proc : ℕ → Chan
  on_addr : ℕ → Chan

abbrev pub chan_eq : Chan → Chan → Bool
chan_eq null null = true
chan_eq (on_proc p) (on_proc q) = p == q
chan_eq (on_addr a) (on_addr b) = a == b
chan_eq _ _ = false

-- `struct proc`, less what the functions here hand on unread: the trap frame, the context, the open
-- files and the working directory. A process is named by its slot in `ptable.proc`; `none` is the null
-- pointer. `alloted_q` and `alloted_pos` are `stat.allotedQ[0]` and `stat.allotedQ[1]`, an int each.
-- `ctime`, `latest_q_time` and `rtime` are kept as 32-bit patterns, `etime` and `priority` as ints.
pub record Proc : Type 0 where
  pub sz : ℕ
  pub pgdir : Option ℕ
  pub kstack : Option ℕ
  pub state : Procstate
  pub pid : ℕ
  pub parent : Option ℕ
  pub chan : Chan
  pub killed : Bool
  pub name : ℕ
  pub ctime : ℕ
  pub etime : ℤ
  pub rtime : ℕ
  pub priority : ℤ
  pub num_run : ℕ
  pub alloted_q : ℤ
  pub alloted_pos : ℤ
  pub actual_ticks : ℕ → ℕ
  pub latest_q_time : ℕ

-- The calls of `panic`, by their message. `fault` is an access that C leaves undefined: an index out
-- of its array, or a null pointer followed.
pub data Panic : Type 0 where
  empty_front empty_pop already_deleted invalid_qi invalid_q no_queue : Panic
  not_runnable no_pid init_exiting kfree_range freevm_no_pgdir not_cpu0 zombie_exit fault : Panic
  too_big_a_transaction outside_of_trans log_committing : Panic
  dirlookup_not_dir dirlookup_read : Panic
  filedup fileclose short_filewrite popcli_interruptible popcli acquire release : Panic
  out_of_blocks freeing_free_block bmap_out_of_range no_inodes ilock_fault iunlock_fault no_type :
      Panic
  no_buffers not_holding nothing_to_do wrong_disk block_out_of_range : Panic

pub data Result {ℓ} (A : Type ℓ) : Type ℓ where
  ok : A → Result A
  panic : Panic → Result A

infixl 5 ◌>>=◌ ◌>>◌
abbrev pub ◌>>=◌ {ℓ κ} : {A : Type ℓ} {B : Type κ} → Result A → (A → Result B) → Result B
ok a >>= f = f a
panic e >>= f = panic e

abbrev pub ◌>>◌ {ℓ} : {B : Type ℓ} → Result (Unit {0}) → Result B → Result B
m >> k = m >>= λ _. k

-- unsigned 32-bit addition and subtraction
abbrev pub add32 : ℕ → ℕ → ℕ
add32 a b = (a + b) % 2 ^ 32

abbrev pub sub32 : ℕ → ℕ → ℕ
sub32 a b = (a + 2 ^ 32 - b) % 2 ^ 32

abbrev pub is_runnable : Procstate → Bool
is_runnable Procstate.runnable = true
is_runnable _ = false

abbrev pub is_sleeping : Procstate → Bool
is_sleeping Procstate.sleeping = true
is_sleeping _ = false

abbrev pub is_running : Procstate → Bool
is_running Procstate.running = true
is_running _ = false

abbrev pub is_unused : Procstate → Bool
is_unused Procstate.unused = true
is_unused _ = false

abbrev pub is_zombie : Procstate → Bool
is_zombie Procstate.zombie = true
is_zombie _ = false
