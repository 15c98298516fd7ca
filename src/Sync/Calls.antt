-- ===== src/Sync/Calls.antt =====
-- The calls of kernel threads as atomic steps on the kernel, in the order in which the locks let
-- them through. A lock round or a wait that has to block leaves the thread with one more step,
-- `blocks_now`, which another thread's call may come before.
use assignment.Prelude.{ℕ, List, [], ◌∷◌, Option, none, some, ℤ}
use assignment.Kernel.{Kernel}
use assignment.Sync.Mutex.{mutex_alloc, mutex_dealloc, mutex_lock, mutex_unlock, block}
use assignment.Sync.Cond.{cond_alloc, cond_dealloc, cond_wait, cond_signal}

pub data Call : Type 0 where
  allocs : Call
  deallocs : ℤ → Call
  locks : ℤ → Call
  unlocks : ℤ → Call
  blocks_now : Call
  allocs_cond : Call
  deallocs_cond : ℤ → Call
  waits : (cond_id mutex_id : ℤ) → Call
  signals : ℤ → Call

abbrev pub state_of {ℓ} : {A : Type ℓ} → Option (A × Kernel) → Option Kernel
state_of none = none
state_of (some (a, k)) = some k

-- One step of the thread in the process slot `cur`.
unfoldable pub step : ℕ → Call → Kernel → Option Kernel
step cur allocs k = some (mutex_alloc k).1
step cur (deallocs id) k = state_of (mutex_dealloc id k)
step cur (locks id) k = state_of (mutex_lock cur id k)
step cur (unlocks id) k = state_of (mutex_unlock cur id k)
step cur blocks_now k = some (block cur k)
step cur allocs_cond k = some (cond_alloc k).1
step cur (deallocs_cond id) k = state_of (cond_dealloc id k)
step cur (waits cond_id mutex_id) k = state_of (cond_wait cur cond_id mutex_id k)
step cur (signals id) k = state_of (cond_signal id k)

unfoldable pub run : List (ℕ × Call) → Kernel → Option Kernel
run [] k = some k
run ((cur, c) ∷ cs) k = elim (step cur c k) [ none ↦ none | some k' ↦ run cs k' ]
