-- ===== src/Syscall/Dispatch.antt =====
-- `syscall` (syscall.c): the table of the system calls and the choice of one by its number. What a
-- call does, and the state that it does it to, are parameters.
use assignment.Prelude.{
  ℕ, ◌-◌, ◌^◌, List, [], ◌∷◌, Option, none, some, ℤ, pos, negsuc, ltb, if◌then◌else◌, length,
  get_elem?,
}

-- The functions that the table names.
pub data Call : Type 0 where
  sys_fork sys_exit sys_wait sys_pipe sys_read sys_kill sys_exec sys_fstat sys_chdir sys_dup : Call
  sys_getpid sys_sbrk sys_sleep sys_uptime sys_open sys_write sys_mknod sys_unlink sys_link : Call
  sys_mkdir sys_close sys_kthread_create sys_kthread_id sys_kthread_exit sys_kthread_join : Call
  sys_kthread_mutex_alloc sys_kthread_mutex_dealloc sys_kthread_mutex_lock : Call
  sys_kthread_mutex_unlock sys_kthread_cond_alloc sys_kthread_cond_dealloc : Call
  sys_kthread_cond_wait sys_kthread_cond_signal : Call

-- The numbers of syscall.h.
abbrev pub number : Call → ℕ
number sys_fork = 1
number sys_exit = 2
number sys_wait = 3
number sys_pipe = 4
number sys_read = 5
number sys_kill = 6
number sys_exec = 7
number sys_fstat = 8
number sys_chdir = 9
number sys_dup = 10
number sys_getpid = 11
number sys_sbrk = 12
number sys_sleep = 13
number sys_uptime = 14
number sys_open = 15
number sys_write = 16
number sys_mknod = 17
number sys_unlink = 18
number sys_link = 19
number sys_mkdir = 20
number sys_close = 21
number sys_kthread_create = 22
number sys_kthread_id = 23
number sys_kthread_exit = 24
number sys_kthread_join = 25
number sys_kthread_mutex_alloc = 26
number sys_kthread_mutex_dealloc = 27
number sys_kthread_mutex_lock = 28
number sys_kthread_mutex_unlock = 29
number sys_kthread_cond_alloc = 30
number sys_kthread_cond_dealloc = 31
number sys_kthread_cond_wait = 32
number sys_kthread_cond_signal = 33

-- `syscalls`, in the order of its indices
abbrev pub syscalls : List (Option Call)
syscalls =
    none
    ∷ some sys_fork
    ∷ some sys_exit
    ∷ some sys_wait
    ∷ some sys_pipe
    ∷ some sys_read
    ∷ some sys_kill
    ∷ some sys_exec
    ∷ some sys_fstat
    ∷ some sys_chdir
    ∷ some sys_dup
    ∷ some sys_getpid
    ∷ some sys_sbrk
    ∷ some sys_sleep
    ∷ some sys_uptime
    ∷ some sys_open
    ∷ some sys_write
    ∷ some sys_mknod
    ∷ some sys_unlink
    ∷ some sys_link
    ∷ some sys_mkdir
    ∷ some sys_close
    ∷ some sys_kthread_create
    ∷ some sys_kthread_id
    ∷ some sys_kthread_exit
    ∷ some sys_kthread_join
    ∷ some sys_kthread_mutex_alloc
    ∷ some sys_kthread_mutex_dealloc
    ∷ some sys_kthread_mutex_lock
    ∷ some sys_kthread_mutex_unlock
    ∷ some sys_kthread_cond_alloc
    ∷ some sys_kthread_cond_dealloc
    ∷ some sys_kthread_cond_wait
    ∷ some sys_kthread_cond_signal
    ∷ []

-- The word of a register as an `int`.
abbrev pub to_int : ℕ → ℤ
to_int w = if ltb w (2 ^ 31) then pos w else negsuc (2 ^ 32 - 1 - w)

-- `syscalls[num]`; the null pointer of an entry that is not set is `none`.
unfoldable pub entry : ℕ → Option Call
entry n = elim (get_elem? syscalls n) [ none ↦ none | some c ↦ c ]

-- SYS_open and NELEM(syscalls)
abbrev sys_open_number : ℕ
sys_open_number = 15

abbrev nelem : ℕ
nelem = length syscalls

-- The two conditions of `syscall`.
unfoldable pub chosen : ℤ → Option Call
chosen (negsuc n) = none
chosen (pos n) = if ltb n sys_open_number then entry n else (if ltb n nelem then entry n else none)

-- `syscall` with the number in `eax`: what is in `eax` after it.
unfoldable pub syscall : {S : Type 0} → (Call → S → ℕ × S) → ℕ → S → ℕ × S
syscall run eax s = elim (chosen (to_int eax)) [ none ↦ (2 ^ 32 - 1, s) | some c ↦ run c s ]
