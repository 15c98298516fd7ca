-- ===== src/Sync/Cond.antt =====
-- The operations on condition variables (proc.c). Each runs under `ctable.lock`, so it is one
-- step; `kthread_cond_wait` ends its step where it gives the lock up to block. `none` is an access
-- outside an array.
use assignment.Prelude.{
  ℕ, Bool, true, false, Option, none, some, ℤ, pos, minus_one, ◌==ℤ◌, if◌then◌else◌, modify,
  find_index,
}
use assignment.Kernel.{Kernel, Cond, c_unused, c_used, at, modify_at}
use assignment.Sync.Queue.{empty, enqueue, head, drop_head}
use assignment.Sync.Mutex.{Round, returns, blocks, thread_of, mutex_unlock, wake_tid}

abbrev pub is_unused : Cond → Bool
is_unused c = elim c.status [ c_unused ↦ true | c_used ↦ false ]

abbrev pub fresh_cond : Cond
fresh_cond = record { status = c_used; queue = empty; waiting_mutex_id = pos 0 }

-- `kthread_cond_alloc`
unfoldable pub cond_alloc : Kernel → ℤ × Kernel
cond_alloc k = elim (find_index is_unused k.ctable) [
  | none ↦ (minus_one, k)
  | some i ↦ (pos i, record k { ctable = modify k.ctable i (λ _. fresh_cond) })
]

-- `kthread_cond_dealloc`
unfoldable pub cond_dealloc : ℤ → Kernel → Option (ℤ × Kernel)
cond_dealloc id k = elim (at k.ctable id) [
  | none ↦ none
  | some c ↦ elim c.status [
    | c_used ↦
        some
          (pos 0, record k { ctable = modify_at k.ctable id (λ c. record c { status = c_unused }) })
    | c_unused ↦ some (minus_one, k)
  ]
]

-- `kthread_cond_wait` up to the release of `ctable.lock`. The result of the unlock is not looked
-- at; the thread blocks, and 0 is returned when it runs again.
unfoldable pub cond_wait : ℕ → ℤ → ℤ → Kernel → Option (Round × Kernel)
cond_wait cur cond_id mutex_id k = elim (thread_of cur k) [
  | none ↦ none
  | some tid ↦ elim (at k.ctable cond_id) [
    | none ↦ none
    | some c ↦ elim c.status [
      | c_unused ↦ some (returns minus_one, k)
      | c_used ↦ elim (enqueue c.queue tid) [
        | none ↦ none
        | some q ↦
            elim (mutex_unlock cur mutex_id (record k {
              ctable =
                  modify_at k.ctable cond_id
                    (λ c. record c { queue = q; waiting_mutex_id = mutex_id });
            })) [ none ↦ none | some (r, k') ↦ some (blocks, k') ]
      ]
    ]
  ]
]

-- `kthread_cond_signal`: the mutex changes its owner, whatever its status is.
unfoldable pub cond_signal : ℤ → Kernel → Option (ℤ × Kernel)
cond_signal cond_id k = elim (at k.ctable cond_id) [
  | none ↦ none
  | some c ↦ if c.queue.count ==ℤ pos 0 then some (pos 0, k) else elim (head c.queue) [
    | none ↦ none
    | some tid ↦ elim (at k.mtable c.waiting_mutex_id) [
      | none ↦ none
      | some m ↦ some (
        pos 0,
        record k {
          ctable = modify_at k.ctable cond_id (λ c. record c { queue = drop_head c.queue });
          mtable = modify_at k.mtable c.waiting_mutex_id (λ m. record m { tid = tid });
          procs = wake_tid tid k.procs;
        },
      )
    ]
  ]
]
