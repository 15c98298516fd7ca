-- ===== src/Sync/Mutex.antt =====
-- The operations on mutexes (proc.c). Each runs under `mtable.lock`, so it is one step; where
-- `kthread_mutex_lock` gives the lock up to block, the step ends. `none` is an access outside an
-- array. The calls that print the queue are left out.
use assignment.Prelude.{
  ℕ, Bool, true, false, ◌&&◌, List, Option, none, some, ℤ, pos, minus_one, ◌==ℤ◌, if◌then◌else◌,
  get_elem?, modify, find_index,
}
use assignment.Kernel.{
  Kernel, Proc, runnable, blocking, ◌==state◌, Mutex, m_unused, m_unlocked, m_locked, at, modify_at,
}
use assignment.Sync.Queue.{empty, enqueue, head, drop_head, is_in_queue}

-- The id of the thread that makes the call, `proc->threadId`.
abbrev pub thread_of : ℕ → Kernel → Option ℤ
thread_of cur k = elim (get_elem? k.procs cur) [ none ↦ none | some p ↦ some p.thread_id ]

abbrev pub is_unused : Mutex → Bool
is_unused m = elim m.status [ m_unused ↦ true | _ ↦ false ]

abbrev pub fresh_mutex : Mutex
fresh_mutex = record { tid = pos 0; status = m_unlocked; queue = empty }

-- `kthread_mutex_alloc`
unfoldable pub mutex_alloc : Kernel → ℤ × Kernel
mutex_alloc k = elim (find_index is_unused k.mtable) [
  | none ↦ (minus_one, k)
  | some i ↦ (pos i, record k { mtable = modify k.mtable i (λ _. fresh_mutex) })
]

-- `kthread_mutex_dealloc`
unfoldable pub mutex_dealloc : ℤ → Kernel → Option (ℤ × Kernel)
mutex_dealloc id k = elim (at k.mtable id) [
  | none ↦ none
  | some m ↦ elim m.status [
    | m_unlocked ↦
        some
          (pos 0, record k { mtable = modify_at k.mtable id (λ m. record m { status = m_unused }) })
    | _ ↦ some (minus_one, k)
  ]
]

-- What one round of the loop of `kthread_mutex_lock` comes to, before the lock is given up.
pub data Round : Type 0 where
  returns : ℤ → Round
  blocks : Round

-- The tid joins the queue unless `isInQueue` finds it there.
unfoldable pub join : Mutex → ℤ → Option Mutex
join m tid = elim (is_in_queue m.queue tid) [
  | none ↦ none
  | some found ↦
      if found
      then some m
      else elim (enqueue m.queue tid) [ none ↦ none | some q ↦ some (record m { queue = q }) ]
]

-- One round of `kthread_mutex_lock`, up to the release of `mtable.lock`.
unfoldable pub mutex_lock : ℕ → ℤ → Kernel → Option (Round × Kernel)
mutex_lock cur id k = elim (thread_of cur k) [
  | none ↦ none
  | some tid ↦ elim (at k.mtable id) [
    | none ↦ none
    | some m ↦ elim m.status [
      | m_unused ↦ some (returns minus_one, k)
      | m_unlocked ↦ some (
        returns (pos 0),
        record k {
          mtable = modify_at k.mtable id (λ m. record m { status = m_locked; tid = tid });
        },
      )
      | m_locked ↦ elim (join m tid) [
        | none ↦ none
        | some m' ↦ some (blocks, record k { mtable = modify_at k.mtable id (λ _. m') })
      ]
    ]
  ]
]

-- `proc->state = BLOCKING; sched();` under `ptable.lock`, where a lock round or a wait blocks.
unfoldable pub block : ℕ → Kernel → Kernel
block cur k = record k { procs = modify k.procs cur (λ p. record p { state = blocking }) }

-- The first BLOCKING process of the thread becomes RUNNABLE.
unfoldable pub wake_tid : ℤ → List Proc → List Proc
wake_tid tid procs =
    elim (find_index (λ (p : Proc). p.state ==state blocking && p.thread_id ==ℤ tid) procs) [
      | none ↦ procs
      | some i ↦ modify procs i (λ p. record p { state = runnable })
    ]

-- The mutex as `kthread_mutex_unlock` leaves it, and the thread to wake.
unfoldable pub give_up : Mutex → Option (ℤ × Mutex)
give_up m = elim (head m.queue) [
  | none ↦ none
  | some tid ↦ some (
    tid,
    record {
      tid = pos 0;
      status = m_unlocked;
      queue = if tid ==ℤ pos 0 then m.queue else drop_head m.queue;
    },
  )
]

-- `kthread_mutex_unlock`
unfoldable pub mutex_unlock : ℕ → ℤ → Kernel → Option (ℤ × Kernel)
mutex_unlock cur id k = elim (thread_of cur k) [
  | none ↦ none
  | some tid ↦ elim (at k.mtable id) [
    | none ↦ none
    | some m ↦ elim m.status [
      | m_locked ↦
          if tid ==ℤ m.tid
          then elim (give_up m) [
            | none ↦ none
            | some (wake, m') ↦ some (
              pos 0,
              record k { mtable = modify_at k.mtable id (λ _. m'); procs = wake_tid wake k.procs },
            )
          ]
          else some (minus_one, k)
      | _ ↦ some (minus_one, k)
    ]
  ]
]
