-- ===== src/Sync/Queue.antt =====
-- The ring of waiting thread ids in a mutex or a condition variable, and the search in it.
use assignment.Prelude.{
  ℕ, zero, suc, ◌+◌, ◌%◌, Bool, true, false, List, Option, none, some, ℤ, pos, negsuc, minus_one,
  ◌+ℤ◌, rem, ◌==ℤ◌, ltb, if◌then◌else◌, get_elem?, length, modify, replicate,
}
use assignment.Kernel.{TidQueue, max_threads, max_mutexes}

-- A queue as `kthread_mutex_alloc` and `kthread_cond_alloc` leave it.
abbrev pub empty : TidQueue
empty = record { sleeping_tid = replicate max_threads (pos 0); count = pos 0; start_index = 0 }

-- `sleepingTID[i] = tid`; `none` is a write outside the array.
abbrev pub write_at : List ℤ → ℤ → ℤ → Option (List ℤ)
write_at tids (pos i) tid = if ltb i (length tids) then some (modify tids i (λ _. tid)) else none
write_at tids (negsuc n) tid = none

-- The thread id goes to the index `(startIndex + count) % MAX_THREADS`.
unfoldable pub enqueue : TidQueue → ℤ → Option TidQueue
enqueue q tid =
    elim (write_at q.sleeping_tid (rem (pos q.start_index +ℤ q.count) max_threads) tid) [
      | none ↦ none
      | some tids ↦ some (record q { sleeping_tid = tids; count = q.count +ℤ pos 1 })
    ]

-- The entry that is next, which stays in the array.
unfoldable pub head : TidQueue → Option ℤ
head q = get_elem? q.sleeping_tid q.start_index

unfoldable pub drop_head : TidQueue → TidQueue
drop_head q = record q {
  count = q.count +ℤ minus_one;
  start_index = (q.start_index + 1) % max_threads;
}

-- The loop of `isInQueue`. `none` is a read outside the array, or a loop that outlasts its fuel.
unfoldable pub search_from : ℕ → List ℤ → ℤ → ℤ → ℕ → Option Bool
search_from zero tids tid check_until i = none
search_from (suc fuel) tids tid check_until i =
    let rest = search_from fuel tids tid check_until ((i + 1) % max_mutexes) in
    if pos i ==ℤ check_until
    then some false
    else elim (get_elem? tids i) [ none ↦ none | some t ↦ if t ==ℤ tid then some true else rest ]

-- The first index may lie anywhere in the array; those after it are below MAX_MUTEXES.
abbrev pub search_fuel : ℕ
search_fuel = 66

-- `isInQueue`, on the queue of the mutex
unfoldable pub is_in_queue : TidQueue → ℤ → Option Bool
is_in_queue q tid =
    search_from search_fuel q.sleeping_tid tid
      (rem (pos q.start_index +ℤ q.count +ℤ pos 1) max_mutexes) q.start_index
