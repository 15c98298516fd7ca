-- ===== src/Syscall/Calls.antt =====
-- sysproc.c: the calls on processes, kernel threads, mutexes and condition variables, between the
-- words of the caller's stack and the functions of proc.c. A call that comes back to its caller
-- later returns what that function does. `sys_sbrk` is listed with the virtual memory.
use assignment.Prelude.{
  ℕ, ◌-◌, ◌+◌, ◌%◌, ◌^◌, Bool, Option, none, some, ℤ, pos, minus_one, ltb, if◌then◌else◌, get_elem?,
}
use assignment.Kernel.{Kernel}
use assignment.Env.{Env}
use assignment.Syscall.Args.{User, argint}
use assignment.Syscall.Dispatch.{to_int}
use assignment.Proc.Table.{kill}
use assignment.Proc.Fork.{fork, kthread_create}
use assignment.Proc.Exit.{kthread_exit, exit}
use assignment.Proc.Join.{Scan, wait, Joining, kthread_join}
use assignment.Sync.Mutex.{Round, thread_of, mutex_alloc, mutex_dealloc, mutex_lock, mutex_unlock}
use assignment.Sync.Cond.{cond_alloc, cond_dealloc, cond_wait, cond_signal}

-- A variable after `argint(n, &x)` whose result is not looked at: `junk` is what it held before.
unfoldable pub arg_or : ℕ → ℕ → User → ℕ
arg_or junk n u = elim (argint n u) [ none ↦ junk | some w ↦ w ]

-- The calls with no argument.
unfoldable pub sys_fork : Env → ℕ → Kernel → Option (ℤ × Kernel)
sys_fork env cur k = fork env cur k

unfoldable pub sys_wait : Env → ℕ → Kernel → Option (Scan × Kernel)
sys_wait env cur k = wait env cur k

unfoldable pub sys_exit : Env → ℕ → Kernel → Option Kernel
sys_exit env cur k = exit env cur k

unfoldable pub sys_kthread_id : ℕ → Kernel → Option ℤ
sys_kthread_id cur k = thread_of cur k

unfoldable pub sys_getpid : ℕ → Kernel → Option ℕ
sys_getpid cur k = elim (get_elem? k.procs cur) [ none ↦ none | some p ↦ some p.pid ]

unfoldable pub sys_kill : User → Kernel → ℤ × Kernel
sys_kill u k = elim (argint 0 u) [ none ↦ (minus_one, k) | some pid ↦ kill pid k ]

-- One round of the loop of `sys_sleep` that began at `ticks0`: `none` sleeps on. The difference of two
-- `uint`s is compared as one.
unfoldable pub sleep_round : ℕ → ℕ → ℕ → Bool → Option ℤ
sleep_round n ticks0 ticks killed =
    if ltb ((ticks + 2 ^ 32 - ticks0) % 2 ^ 32) n
    then (if killed then some minus_one else none)
    else some (pos 0)

-- `sys_sleep` up to its first sleep: the result, or the number of ticks and `ticks0` for the next rounds.
unfoldable pub sys_sleep : User → ℕ → Bool → Option ℤ × ℕ × ℕ
sys_sleep u ticks killed = elim (argint 0 u) [
  | none ↦ (some minus_one, 0, ticks)
  | some n ↦ (sleep_round n ticks ticks killed, n, ticks)
]

unfoldable pub sys_uptime : ℕ → ℤ
sys_uptime ticks = to_int ticks

module _ (env : Env) (cur : ℕ) where
  unfoldable pub sys_kthread_create : (junk0 junk1 junk2 : ℕ) → User → Kernel → Option (ℤ × Kernel)
  sys_kthread_create junk0 junk1 junk2 u k =
      kthread_create env (arg_or junk0 0 u) (arg_or junk1 1 u) (arg_or junk2 2 u) cur k

  unfoldable pub sys_kthread_exit : Kernel → Option Kernel
  sys_kthread_exit k = kthread_exit env cur k

unfoldable pub sys_kthread_join : ℕ → ℕ → User → Kernel → Option (Joining × Kernel)
sys_kthread_join cur junk u k = kthread_join (to_int (arg_or junk 0 u)) cur k

unfoldable pub sys_kthread_mutex_alloc : Kernel → ℤ × Kernel
sys_kthread_mutex_alloc k = mutex_alloc k

unfoldable pub sys_kthread_mutex_dealloc : ℕ → User → Kernel → Option (ℤ × Kernel)
sys_kthread_mutex_dealloc junk u k = mutex_dealloc (to_int (arg_or junk 0 u)) k

unfoldable pub sys_kthread_mutex_lock : ℕ → ℕ → User → Kernel → Option (Round × Kernel)
sys_kthread_mutex_lock cur junk u k = mutex_lock cur (to_int (arg_or junk 0 u)) k

unfoldable pub sys_kthread_mutex_unlock : ℕ → ℕ → User → Kernel → Option (ℤ × Kernel)
sys_kthread_mutex_unlock cur junk u k = mutex_unlock cur (to_int (arg_or junk 0 u)) k

unfoldable pub sys_kthread_cond_alloc : Kernel → ℤ × Kernel
sys_kthread_cond_alloc k = cond_alloc k

unfoldable pub sys_kthread_cond_dealloc : ℕ → User → Kernel → Option (ℤ × Kernel)
sys_kthread_cond_dealloc junk u k = cond_dealloc (to_int (arg_or junk 0 u)) k

unfoldable pub sys_kthread_cond_wait :
    (cur junk0 junk1 : ℕ) → User → Kernel → Option (Round × Kernel)
sys_kthread_cond_wait cur junk0 junk1 u k =
    cond_wait cur (to_int (arg_or junk0 0 u)) (to_int (arg_or junk1 1 u)) k

unfoldable pub sys_kthread_cond_signal : ℕ → User → Kernel → Option (ℤ × Kernel)
sys_kthread_cond_signal junk u k = cond_signal (to_int (arg_or junk 0 u)) k
