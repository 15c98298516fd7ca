-- ===== src/Sync/Tests.antt =====
-- The theorems on mutexes and conditions at small kernels.
use assignment.Prelude.{
  ℕ, ◌+◌, ◌≤◌, ◌≡◌, ◌≢◌, refl, true, false, List, [], ◌∷◌, ◌++◌, some, arith, ℤ, pos, minus_one,
  modify, get_elem?, replicate, ◌⊎◌,
}
use assignment.Kernel.{Kernel, Proc, running, blocking, TidQueue, Mutex, m_unlocked, c_used}
use assignment.Samples.{thread, kernel, one_waits, held_by}
use assignment.Sync.Queue.{empty, enqueue, head, is_in_queue, search_from}
use assignment.Sync.Fifo.{IsRing, waiting}
use assignment.Sync.Search.{is_in_queue_exact}
use assignment.Sync.Mutex.{mutex_lock, mutex_unlock, join, block}
use assignment.Sync.Cond.{cond_signal}
use assignment.Sync.Calls.{Call, locks, unlocks, blocks_now, run, step}
use assignment.Sync.Exclusion.{IsHeld, Denied}
use assignment.Sync.Traces.{mutual_exclusion}
use assignment.Sync.Handoff.{IsWoken, unlock_hands_over}
use assignment.Sync.Stale.{contended, unlock_after_rounds}
use assignment.Sync.Races.{lost_wakeup, signal_takes_mutex}

abbrev two_threads : List Proc
two_threads = thread 3 (pos 1) running ∷ thread 3 (pos 2) running ∷ []

-- Thread 1 holds the mutex 0.
abbrev held : Kernel
held = kernel two_threads (held_by (pos 1) empty ∷ []) []

abbrev attempts : List (ℕ × Call)
attempts = (1, locks (pos 0)) ∷ (1, unlocks (pos 0)) ∷ (1, blocks_now) ∷ []

-- Thread 2 has joined the queue and is blocked.
abbrev attempted : Kernel
attempted =
    kernel (thread 3 (pos 1) running ∷ thread 3 (pos 2) blocking ∷ [])
      (held_by (pos 1) (one_waits (pos 2)) ∷ []) []

mutual_exclusion_example :
    IsHeld 0 (pos 1) attempted × ((cur : ℕ) → Denied (mutex_lock cur (pos 0) attempted))
unfolding run step mutex_lock mutex_unlock block join is_in_queue search_from enqueue
mutual_exclusion_example =
    mutual_exclusion 0 (pos 1) attempts held attempted refl
      (λ e. ground arith, tt, (λ e. ground arith, tt, (λ e. ground arith, tt, tt))) refl

one_waits-IsRing : IsRing (one_waits (pos 2)) 1
one_waits-IsRing = record { room = refl; start = omega arith; counted = refl; few = omega arith }

is_in_queue_exact_example :
    ((is_in_queue (one_waits (pos 2)) (pos 2) ≡ some true)
      × ((j : ℕ) × (0 ≤ j)
          × (j ≤ 0 + 1)
          × (get_elem? (one_waits (pos 2)).sleeping_tid j ≡ some (pos 2))))
    ⊎ ((is_in_queue (one_waits (pos 2)) (pos 2) ≡ some false)
        × ((j : ℕ)
            → 0 ≤ j
            → j ≤ 0 + 1
            → get_elem? (one_waits (pos 2)).sleeping_tid j ≢ some (pos 2)))
is_in_queue_exact_example =
    is_in_queue_exact (one_waits (pos 2)) 1 (pos 2) one_waits-IsRing (omega arith)

-- 63 threads with the id 2 wait.
abbrev crowd : TidQueue
crowd = record {
  sleeping_tid = replicate 63 (pos 2) ++ replicate 193 (pos 0);
  count = pos 63;
  start_index = 0;
}

crowd-IsRing : IsRing crowd 63
crowd-IsRing = record { room = refl; start = omega arith; counted = refl; few = omega arith }

unlock_hands_over_example :
    (w : ℤ) × (y : Mutex) × (procs : List Proc) × (waiting (one_waits (pos 2)) 1
      ≡ w ∷ waiting y.queue 0)
    × (y.status ≡ m_unlocked)
    × IsRing y.queue 0
    × IsWoken w attempted.procs procs
    × (mutex_unlock 0 (pos 0) attempted
        ≡ some (
          pos 0,
          record attempted { mtable = modify attempted.mtable 0 (λ _. y); procs = procs },
        ))
unfolding head
unlock_hands_over_example =
    unlock_hands_over 0 0 (pos 1) attempted (held_by (pos 1) (one_waits (pos 2))) refl refl 0 refl
      refl one_waits-IsRing (λ e. ground arith)

unlock_after_rounds_example :
    (k' : Kernel) × (y : Mutex) × (run (contended 0 1 0 256) held ≡ some k')
    × (get_elem? k'.mtable 0 ≡ some y)
    × (y.status ≡ m_unlocked)
    × (y.queue.count ≡ minus_one)
unlock_after_rounds_example =
    unlock_after_rounds 0 1 0 (pos 1) (pos 2) (λ e. ground arith) held refl refl refl

-- Thread 2 has joined the queue and has not blocked yet.
abbrev about_to_block : Kernel
about_to_block = kernel two_threads (held_by (pos 1) (one_waits (pos 2)) ∷ []) []

lost_wakeup_example :
    (k' : Kernel) × (y : Mutex) × (run ((0, unlocks (pos 0)) ∷ (1, blocks_now) ∷ []) about_to_block
      ≡ some k')
    × (get_elem? k'.procs 1 ≡ some (thread 3 (pos 2) blocking))
    × (get_elem? k'.mtable 0 ≡ some y)
    × (y.status ≡ m_unlocked)
    × IsRing y.queue 0
unfolding head
lost_wakeup_example =
    lost_wakeup 0 1 0 (pos 1) (pos 2) about_to_block (held_by (pos 1) (one_waits (pos 2)))
      (thread 3 (pos 2) running) refl refl refl refl one_waits-IsRing refl (λ e. ground arith) refl
      refl

-- Thread 2 waits for the condition 0, and thread 1 holds the mutex.
abbrev signalled : Kernel
signalled =
    kernel two_threads (held_by (pos 1) empty ∷ [])
      (record { status = c_used; queue = one_waits (pos 2); waiting_mutex_id = pos 0 } ∷ [])

signal_takes_mutex_example :
    (k' : Kernel) × (cond_signal (pos 0) signalled ≡ some (pos 0, k'))
    × IsHeld 0 (pos 2) k'
    × (mutex_unlock 0 (pos 0) k' ≡ some (minus_one, k'))
unfolding head
signal_takes_mutex_example =
    signal_takes_mutex 0 0 0 (pos 1) (pos 2) signalled
      (record { status = c_used; queue = one_waits (pos 2); waiting_mutex_id = pos 0 }) refl refl
      refl (λ e. ground arith) refl refl (λ e. ground arith)
