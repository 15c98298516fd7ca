-- ===== src/Uthread/Yield.antt =====
-- `uthread_yield`, `uthread_exit` and `uthread_start_all` under the priority policy.
use assignment.Prelude.{
  ℕ, ◌≡◌, ◌≢◌, refl, ◌∙◌, sym, true, ◌∷◌, none, some, arith, pos, minus_one, ◌+ℤ◌, ◌==ℤ◌, ==ℤ_iff,
  get_elem?, modify, count_if, count_if-modify, count_if-modify_same, length-modify, Bool-cases,
  inl, inr, if◌then◌else◌,
}
use assignment.Uthread.Sched.{
  Uthread, Sched, priorities, sched_pb, is_live, in_priority, number_in_priority,
}
use assignment.Uthread.Ops.{process_exit, run_next, uthread_yield, uthread_exit}
use assignment.Uthread.Inv.{Inv, IsTable-modify, IsShaped-threads, free_thread_lem}
use assignment.Uthread.Switch.{
  Running, IsReady, IsStuck, Switches, run_next_lem, run_next_stuck, Inv-modify, number-count,
  passes_slot,
}

-- The table when the running thread has stored its registers.
abbrev pub saved : ℕ → ℕ → ℕ → Sched → Sched
saved ebp esp cur s = record s {
  threads = modify s.threads cur (λ t. record t { ss_bp = ebp; ss_sp = esp });
}

number-saved :
    (ebp esp cur p : ℕ) (s : Sched)
    → number_in_priority (saved ebp esp cur s).threads p ≡ number_in_priority s.threads p
number-saved ebp esp cur p s =
    number-count _ p
    ∙ count_if-modify_same (in_priority p) s.threads cur _ (λ t. refl)
    ∙ sym (number-count s.threads p)

yield-run_next :
    (ebp esp cur : ℕ) (s : Sched)
    → s.thread ≡ some cur
    → uthread_yield ebp esp s ≡ run_next (saved ebp esp cur s)
unfolding uthread_yield
yield-run_next ebp esp cur s e = ground (arith, e)

module _ (ebp esp cur : ℕ) (s : Sched) (run : Running s cur) (pb : s.sched_policy ≡ sched_pb) where
  Inv-saved : Inv (saved ebp esp cur s)
  Inv-saved = Inv-modify s cur _ s.thread run.inv (λ t. refl)

  -- Under the invariant and the priority policy, with a live thread running and some thread at a
  -- priority from 0 to 9, `uthread_yield` stores the registers of the
  -- running thread in its slot and switches to the thread that the priority policy picks in the
  -- table as stored: control goes to that thread's own registers, into its function if it has not
  -- run before, and it is marked as started. All other slots keep what they hold, the index of its
  -- priority alone moves to it, and the invariant holds with the picked thread running.
  pub yield-Switches : IsReady s.threads → Switches (saved ebp esp cur s) (uthread_yield ebp esp s)
  yield-Switches (p, lt, some_there) = rw (yield-run_next ebp esp cur s run.current) (
      run_next_lem (saved ebp esp cur s) Inv-saved pb
        (p, lt, rw (number-saved ebp esp cur p s) some_there))

  -- Under the same conditions, but with no thread at a priority from 0 to 9, `uthread_yield` takes
  -- the slot -1 of the array.
  pub yield_faults : IsStuck s.threads → uthread_yield ebp esp s ≡ none
  yield_faults stuck =
      yield-run_next ebp esp cur s run.current
      ∙ run_next_stuck (saved ebp esp cur s) Inv-saved pb
          (λ p lt. number-saved ebp esp cur p s ∙ stuck p lt)

-- The table when the running thread has left it.
abbrev pub left : ℕ → Uthread → Sched → Sched
left cur t s = record s {
  number_of_ct = s.number_of_ct +ℤ minus_one;
  freed = t.stack_aloc ∷ s.freed;
  threads = modify s.threads cur (λ u. record u { tid = 0; priority = pos priorities });
}

module _ (cur : ℕ) (t : Uthread) (s : Sched) (run : Running s cur)
    (at : get_elem? s.threads cur ≡ some t) where
  live_tid : is_live t ≡ true
  live_tid = let p = passes_slot is_live s.threads cur run.live in ground (arith, p.1, p.2, at)

  pub Inv-left : Inv (left cur t s)
  Inv-left = record {
    shaped = IsShaped-threads s _ run.inv.shaped (length-modify s.threads cur _) refl refl;
    table = IsTable-modify s.threads s.next_tid cur _ run.inv.table (λ u. inr refl);
    counted = ground (
      arith,
      run.inv.counted,
      live_tid,
      count_if-modify is_live s.threads cur (λ u. record u { tid = 0; priority = pos priorities }) t
          at,
    );
  }

  exit_frees : uthread_exit s ≡ (
      if s.number_of_ct ==ℤ pos 1
      then some (process_exit, left cur t s)
      else run_next (left cur t s))
  unfolding uthread_exit
  exit_frees =
      ground (arith, run.current, at, free_thread_lem s cur t run.inv at (ground (arith, live_tid)))

  -- `uthread_exit` of the only thread clears its slot, frees its stack and ends the process, and
  -- no live thread is left.
  pub exit_last :
      s.number_of_ct ≡ pos 1
      → (uthread_exit s ≡ some (process_exit, left cur t s))
        × (count_if is_live (left cur t s).threads ≡ 0)
  exit_last one = (
    rw (exit_frees, (==ℤ_iff s.number_of_ct (pos 1)).1 one) refl,
    ground (arith, one, (Inv-left).counted),
  )

  -- Under the invariant and the priority policy, `uthread_exit` of one of several threads clears
  -- its slot, frees its stack alone, and switches to the thread that the priority policy picks among
  -- those left, if one has a priority from 0 to 9: control goes to that thread's own registers, into
  -- its function if it has not run before, and it is marked as started. All other slots keep what
  -- they hold, and the invariant holds with the picked thread running.
  pub exit-Switches :
      s.number_of_ct ≢ pos 1
      → s.sched_policy ≡ sched_pb
      → IsReady (left cur t s).threads
      → Switches (left cur t s) (uthread_exit s)
  exit-Switches more pb ready = elim (Bool-cases (s.number_of_ct ==ℤ pos 1)) [
    | inl e ↦ absurd (more ((==ℤ_iff s.number_of_ct (pos 1)).0 e))
    | inr e ↦ rw (exit_frees, e) (run_next_lem (left cur t s) Inv-left pb ready)
  ]
