-- ===== src/Kernel.antt =====
-- The kernel's data: struct proc and the process table (proc.h, proc.c), struct file (file.h), and
-- the mutexes and condition variables of kthread.h, in one record that the operations change.
-- A pointer into a table is the index of its entry; `none` is the null pointer.
use assignment.Prelude.{
  ℕ, Bool, true, false, List, Option, none, some, ℤ, ◌==◌, get_elem?, pos, negsuc, modify,
}

-- `enum procstate`
pub data ProcState : Type 0 where
  unused embryo sleeping runnable running zombie blocking : ProcState

-- The value of the enum, by which states are compared.
abbrev pub state_no : ProcState → ℕ
state_no unused = 0
state_no embryo = 1
state_no sleeping = 2
state_no runnable = 3
state_no running = 4
state_no zombie = 5
state_no blocking = 6

infix 50 ◌==state◌
abbrev pub ◌==state◌ : ProcState → ProcState → Bool
a ==state b = state_no a == state_no b

-- A sleep channel is an address: null, that of a process, or another object's.
pub data Chan : Type 0 where
  null : Chan
  proc_chan : ℕ → Chan
  address : ℕ → Chan

infix 50 ◌==chan◌
abbrev pub ◌==chan◌ : Chan → Chan → Bool
null ==chan null = true
proc_chan i ==chan proc_chan j = i == j
address a ==chan address b = a == b
_ ==chan _ = false

-- The channel that a pointer to a process is.
abbrev pub to_chan : Option ℕ → Chan
to_chan none = Chan.null
to_chan (some i) = Chan.proc_chan i

-- `p == q` on pointers
abbrev pub same_ptr : Option ℕ → Option ℕ → Bool
same_ptr none none = true
same_ptr (some i) (some j) = i == j
same_ptr _ _ = false

-- The registers of `struct trapframe` that the process code sets; the others are copied whole.
pub record TrapFrame : Type 0 where
  pub eax : ℕ
  pub eip : ℕ
  pub esp : ℕ
  pub others : List ℕ

-- Where a process goes on when the scheduler switches to it: into `forkret`, or back into `sched`.
pub data Context : Type 0 where
  to_forkret in_sched : Context

-- `struct proc`. A null page is 0.
pub record Proc : Type 0 where
  pub sz : ℕ
  pub pgdir : ℕ
  pub kstack : ℕ
  pub state : ProcState
  pub pid : ℕ
  pub parent : Option ℕ
  pub tf : TrapFrame
  pub context : Context
  pub chan : Chan
  pub killed : Bool
  pub ofile : List (Option ℕ)
  pub cwd : Option ℕ
  pub name : List ℕ
  pub thread_id : ℤ
  pub sleeping_threads : List (Option ℕ)

-- The type field of `struct file`
pub data FileType : Type 0 where
  fd_none fd_pipe fd_inode : FileType

-- `struct file`
pub record File : Type 0 where
  pub type : FileType
  pub ref : ℕ
  pub readable : Bool
  pub writable : Bool
  pub pipe : Option ℕ
  pub ip : Option ℕ
  pub off : ℕ

-- The queue fields that `kthread_mutex_t` and `kthread_cond_t` both declare.
pub record TidQueue : Type 0 where
  pub sleeping_tid : List ℤ
  pub count : ℤ
  pub start_index : ℕ

pub data MutexStatus : Type 0 where
  m_unused m_unlocked m_locked : MutexStatus

-- `kthread_mutex_t`
pub record Mutex : Type 0 where
  pub tid : ℤ
  pub status : MutexStatus
  pub queue : TidQueue

pub data CondStatus : Type 0 where
  c_unused c_used : CondStatus

-- `kthread_cond_t`
pub record Cond : Type 0 where
  pub status : CondStatus
  pub queue : TidQueue
  pub waiting_mutex_id : ℤ

-- The tables and counters of proc.c, the free list of kalloc.c with the address `end` of the linker
-- script, the file table of file.c and the reference counts of the inode cache.
pub record Kernel : Type 0 where
  pub procs : List Proc
  pub nextpid : ℕ
  pub next_thread : ℕ
  pub initproc : Option ℕ
  pub freelist : List ℕ
  pub kernel_end : ℕ
  pub files : List File
  pub inode_refs : List ℕ
  pub mtable : List Mutex
  pub ctable : List Cond

abbrev pub nproc : ℕ
nproc = 64

abbrev pub max_threads : ℕ
max_threads = 256

abbrev pub max_mutexes : ℕ
max_mutexes = 64

abbrev pub max_conds : ℕ
max_conds = 64

-- `a[i]` with an `int` index; `none` is an access outside the array.
abbrev pub at {ℓ} : {A : Type ℓ} → List A → ℤ → Option A
at xs (pos i) = get_elem? xs i
at xs (negsuc n) = none

-- A change of `a[i]`, with an index that an access before it has shown to be inside.
abbrev pub modify_at {ℓ} : {A : Type ℓ} → List A → ℤ → (A → A) → List A
modify_at xs (pos i) f = modify xs i f
modify_at xs (negsuc n) f = xs
