-- ===== src/Samples.antt =====
-- Small kernels for the tests.
use assignment.Prelude.{ℕ, true, false, List, [], ◌∷◌, none, some, ℤ, pos, modify, replicate}
use assignment.Kernel.{
  Kernel, Proc, ProcState, unused, null, in_sched, TidQueue, Mutex, m_locked, Cond, fd_pipe,
}
use assignment.Sync.Queue.{empty}
use assignment.Env.{Env}

-- A thread of a process, with its id and state.
abbrev pub thread : ℕ → ℤ → ProcState → Proc
thread pid tid state = record {
  sz = 4096;
  pgdir = 0x8D000000;
  kstack = 0x80400000;
  state = state;
  pid = pid;
  parent = none;
  tf = record { eax = 7; eip = 16; esp = 4000; others = [] };
  context = in_sched;
  chan = null;
  killed = false;
  ofile = some 0 ∷ some 0 ∷ replicate 14 none;
  cwd = some 0;
  name = 97 ∷ replicate 15 0;
  thread_id = tid;
  sleeping_threads = replicate 64 none;
}

abbrev pub free_entry : Proc
free_entry = record (thread 0 (pos 0) unused) { ofile = replicate 16 none }

-- One thread waits in the queue.
abbrev pub one_waits : ℤ → TidQueue
one_waits tid = record empty {
  sleeping_tid = modify (empty.sleeping_tid) 0 (λ _. tid);
  count = pos 1;
}

abbrev pub held_by : ℤ → TidQueue → Mutex
held_by tid queue = record { tid = tid; status = m_locked; queue = queue }

abbrev pub kernel : List Proc → List Mutex → List Cond → Kernel
kernel procs mutexes conds = record {
  procs = procs;
  nextpid = 5;
  next_thread = 2;
  initproc = some 9;
  freelist = 0x80401000 ∷ 0x80402000 ∷ [];
  kernel_end = 0x80110000;
  files =
      record {
        type = fd_pipe;
        ref = 2;
        readable = true;
        writable = true;
        pipe = some 0;
        ip = none;
        off = 0;
      }
      ∷ [];
  inode_refs = 1 ∷ [];
  mtable = mutexes;
  ctable = conds;
}

-- Memory that is copied without a page of the list, and given back without one.
abbrev pub easy : Env
easy = record {
  copyuvm = λ pgdir sz freelist. (0x8E000000, freelist);
  freevm = λ pgdir freelist. some freelist;
  close_last = λ f k. some k;
  iput = λ ip k. some k;
}

-- Memory that cannot be copied.
abbrev pub full : Env
full = record easy { copyuvm = λ pgdir sz freelist. (0, freelist) }
