-- ===== src/Sync/Races.antt =====
-- Two ways in which the calls lose a thread: a wakeup that comes before its sleep, and a signal
-- that takes a mutex from its holder.
use assignment.Prelude.{
  ℕ, ◌≡◌, ◌≢◌, refl, ◌∙◌, sym, Bool, ◌&&◌, List, [], ◌∷◌, none, some, arith, ℤ, pos, minus_one,
  ◌==ℤ◌, ==ℤ_iff, get_elem?, modify, get_elem?-modify_self, get_elem?-modify_ne, Option-cases, inl,
  inr, find_index, find_index-some,
}
use assignment.Kernel.{
  Kernel, Proc, runnable, blocking, ◌==state◌, Mutex, m_unlocked, m_locked, Cond, TidQueue,
}
use assignment.Sync.Queue.{head, drop_head}
use assignment.Sync.Fifo.{IsRing, waiting}
use assignment.Sync.Mutex.{thread_of, mutex_unlock, wake_tid, block}
use assignment.Sync.Cond.{cond_signal}
use assignment.Sync.Calls.{unlocks, blocks_now, run, step}
use assignment.Sync.Exclusion.{IsHeld}
use assignment.Sync.Handoff.{unlock_gives}
use assignment.Sync.Traces.{wake-SameThread}

-- Process `i` blocks and belongs to the thread `w`.
abbrev pub is_blocked_thread : ℤ → Proc → Bool
is_blocked_thread w p = p.state ==state blocking && p.thread_id ==ℤ w

-- If some process of the thread is blocked, waking the thread makes exactly one such process
-- runnable and changes no other; otherwise nothing changes.
pub wake_tid_first :
    (w : ℤ) (procs : List Proc) (i : ℕ)
    → find_index (is_blocked_thread w) procs ≡ some i
    → (p : Proc) × (get_elem? procs i ≡ some p)
      × (p.thread_id ≡ w)
      × (get_elem? (wake_tid w procs) i ≡ some (record p { state = runnable }))
      × ((j : ℕ) → i ≢ j → get_elem? (wake_tid w procs) j ≡ get_elem? procs j)
unfolding wake_tid
wake_tid_first w procs i e =
    let r = find_index-some (is_blocked_thread w) procs i e in
    (
      r.0,
      r.1,
      ground (arith, r.2, ==ℤ_iff r.0.thread_id w),
      rw (e, wake_tid) (get_elem?-modify_self procs i _ r.1),
      λ j ne. rw (e, wake_tid) (get_elem?-modify_ne procs i j _ ne),
    )

wake_tid-none :
    (w : ℤ) (procs : List Proc)
    → find_index (is_blocked_thread w) procs ≡ none
    → wake_tid w procs ≡ procs
unfolding wake_tid
wake_tid-none w procs e = rw (e, wake_tid) refl

some_pos : (w : ℤ) → some w ≡ some (pos 0) → w ≡ pos 0
some_pos w e = cc

head_of : (q : TidQueue) (w v : ℤ) {l : List ℤ} → head q ≡ some w → waiting q 1 ≡ v ∷ l → v ≡ w
unfolding head
head_of q w v h e = ground (arith, h, e)

module _ (cur j m : ℕ) (t w : ℤ) (k : Kernel) (x : Mutex) (p : Proc)
    (caller : thread_of cur k ≡ some t) (slot : get_elem? k.mtable m ≡ some x)
    (locked : x.status ≡ m_locked) (own : x.tid ≡ t) (ring : IsRing x.queue 1)
    (first : head x.queue ≡ some w) (real : w ≢ pos 0) (waiter : get_elem? k.procs j ≡ some p)
    (awake : find_index (is_blocked_thread w) k.procs ≡ none) where
  -- The thread `w`, in the process `j`, has joined the queue of a mutex alone and has yet to block.
  -- If the holder unlocks first, the thread blocks with the mutex free and nobody in its queue.
  pub lost_wakeup :
      (k' : Kernel) × (y : Mutex) × (run ((cur, unlocks (pos m)) ∷ (j, blocks_now) ∷ []) k
        ≡ some k')
      × (get_elem? k'.procs j ≡ some (record p { state = blocking }))
      × (get_elem? k'.mtable m ≡ some y)
      × (y.status ≡ m_unlocked)
      × IsRing y.queue 0
  unfolding run step block
  lost_wakeup =
      let r =
        unlock_gives cur m t k x caller slot 0 locked own ring
          (λ e. real (some_pos w (sym first ∙ e))) in
      let same : r.0 ≡ w = head_of x.queue w r.0 first r.2 in
      let quiet : wake_tid r.0 k.procs ≡ k.procs = rw same (wake_tid-none w k.procs awake) in
      (
        record k {
          mtable = modify k.mtable m (λ _. r.1);
          procs = modify k.procs j (λ p. record p { state = blocking });
        },
        r.1,
        ground (arith, r.5, quiet),
        get_elem?-modify_self k.procs j _ waiter,
        get_elem?-modify_self k.mtable m _ slot,
        r.3,
        r.4,
      )

module _ (cur c m : ℕ) (t w : ℤ) (k : Kernel) (cond : Cond) (caller : thread_of cur k ≡ some t)
    (held : IsHeld m t k) (slot : get_elem? k.ctable c ≡ some cond)
    (some_wait : cond.queue.count ≢ pos 0) (first : head cond.queue ≡ some w)
    (on : cond.waiting_mutex_id ≡ pos m) (other : w ≢ t) where
  signalled : Kernel
  signalled = record k {
    ctable = modify k.ctable c (λ c. record c { queue = drop_head c.queue });
    mtable = modify k.mtable m (λ x. record x { tid = w });
    procs = wake_tid w k.procs;
  }

  held_slot : (x : Mutex) × (get_elem? k.mtable m ≡ some x) × (x.status ≡ m_locked)
  held_slot = elim (Option-cases (get_elem? k.mtable m)) [
    | inl e ↦ absurd (ground (arith, e, held))
    | inr (x, e) ↦ (x, e, ground (arith, e, held))
  ]

  -- A signal on a condition whose threads wait with a mutex that another thread holds gives the
  -- mutex to the woken thread, still locked, and the holder's own unlock then fails and changes
  -- nothing.
  pub signal_takes_mutex :
      (k' : Kernel) × (cond_signal (pos c) k ≡ some (pos 0, k'))
      × IsHeld m w k'
      × (mutex_unlock cur (pos m) k' ≡ some (minus_one, k'))
  unfolding signalled cond_signal mutex_unlock
  signal_takes_mutex =
      let x = held_slot in
      let after = get_elem?-modify_self k.mtable m (λ x. record x { tid = w }) x.1 in
      (
        signalled,
        ground (arith, slot, some_wait, first, on, x.1, ==ℤ_iff cond.queue.count (pos 0)),
        ground (arith, after, x.2),
        ground (arith, wake-SameThread cur k w, caller, after, x.2, other, ==ℤ_iff t w),
      )
