-- ===== src/Uthread/Ops.antt =====
-- The operations of the package: create, yield, exit, start and the priority calls.
use assignment.Prelude.{
  ℕ, ◌+◌, ◌-◌, true, false, ◌∷◌, Option, none, some, ℤ, pos, negsuc, minus_one, ◌+ℤ◌, ◌==ℤ◌, ◌==◌,
  leb, if◌then◌else◌, get_elem?, modify, find_index,
}
use assignment.Uthread.Sched.{Uthread, Sched, priorities, stack_size, get_next}

-- Where control goes when an operation is done.
pub data Control : Type 0 where
  -- back to the caller on a thread's own stack, by the loaded EBP and ESP
  resume : (ebp esp : ℕ) → Control
  -- into `wrap_function(start_func)`, on the loaded stack
  enter : (ebp esp start_func : ℕ) → Control
  -- into `wrap_function(start_func)`, on the caller's stack
  enter_here : (start_func : ℕ) → Control
  -- `exit()`: the process ends
  process_exit : Control

-- What `uthread_create` writes into the slot that it takes.
abbrev pub created : ℕ → ℤ → ℕ → ℕ → Uthread
created start_func priority stack_bp tid = record {
  tid = tid;
  ss_sp = stack_bp + stack_size - 4;
  ss_bp = stack_bp + stack_size - 4;
  stack_aloc = stack_bp;
  ss_size = stack_size;
  priority = priority;
  start_func = start_func;
  first_run = true;
}

-- `uthread_create`: `stack_bp` is what `malloc(STACK_SIZE)` returns. The result is the tid, or -1.
unfoldable pub uthread_create : ℕ → ℤ → ℕ → Sched → ℤ × Sched
uthread_create start_func priority stack_bp s = elim (find_index (λ t. t.tid == 0) s.threads) [
  | none ↦ (minus_one, s)
  | some i ↦ (
    pos s.next_tid,
    record s {
      threads = modify s.threads i (λ _. created start_func priority stack_bp s.next_tid);
      next_tid = s.next_tid + 1;
      number_of_ct = s.number_of_ct +ℤ pos 1;
    },
  )
]

-- `freeThread(t)`: the first slot with the tid of `t` is cleared; `t->stack_aloc` is freed.
unfoldable pub free_thread : Uthread → Sched → Sched
free_thread t s =
    let fewer = s.number_of_ct +ℤ minus_one in
    elim (find_index (λ u. t.tid == u.tid) s.threads) [
      | none ↦ record s { number_of_ct = fewer }
      | some i ↦ record s {
        number_of_ct = fewer;
        freed = t.stack_aloc ∷ s.freed;
        threads = modify s.threads i (λ u. record u { tid = 0; priority = pos priorities });
      }
    ]

-- The slot becomes that of `thread`: its stack is loaded, and `wrap_function` entered if it is new.
unfoldable pub switch_to : ℤ → Sched → Option (Control × Sched)
switch_to (negsuc n) s = none
switch_to (pos i) s = elim (get_elem? s.threads i) [
  | none ↦ none
  | some t ↦
      if t.first_run
      then some (
        enter t.ss_bp t.ss_sp t.start_func,
        record s {
          thread = some i;
          threads = modify s.threads i (λ u. record u { first_run = false });
        },
      )
      else some (resume t.ss_bp t.ss_sp, record s { thread = some i })
]

unfoldable pub run_next : Sched → Option (Control × Sched)
run_next s = elim (get_next s) [ none ↦ none | some (next, s') ↦ switch_to next s' ]

-- `uthread_yield`, called with these values in EBP and ESP.
unfoldable pub uthread_yield : ℕ → ℕ → Sched → Option (Control × Sched)
uthread_yield ebp esp s = elim s.thread [
  | none ↦ none
  | some cur ↦
      run_next
        (record s { threads = modify s.threads cur (λ t. record t { ss_bp = ebp; ss_sp = esp }) })
]

-- `uthread_exit`
unfoldable pub uthread_exit : Sched → Option (Control × Sched)
uthread_exit s = elim s.thread [
  | none ↦ none
  | some cur ↦ elim (get_elem? s.threads cur) [
    | none ↦ none
    | some t ↦
        if s.number_of_ct ==ℤ pos 1
        then some (process_exit, free_thread t s)
        else run_next (free_thread t s)
  ]
]

unfoldable pub on_this_stack : Control → Control
on_this_stack (enter ebp esp f) = enter_here f
on_this_stack c = c

-- `uthread_start_all`: a first run starts on the stack of the caller.
unfoldable pub uthread_start_all : Sched → Option (Control × Sched)
uthread_start_all s = elim (get_next s) [
  | none ↦ none
  | some (next, s') ↦ elim (switch_to next s') [
    | none ↦ none
    | some (c, s'') ↦ some (on_this_stack c, s'')
  ]
]

-- `uthread_setpr`: the old priority, or -1 with nothing changed.
unfoldable pub uthread_setpr : ℤ → Sched → Option (ℤ × Sched)
uthread_setpr (negsuc n) s = some (minus_one, s)
uthread_setpr (pos p) s =
    if leb p 9
    then elim s.thread [
      | none ↦ none
      | some cur ↦ elim (get_elem? s.threads cur) [
        | none ↦ none
        | some t ↦ some (
          t.priority,
          record s { threads = modify s.threads cur (λ u. record u { priority = pos p }) },
        )
      ]
    ]
    else some (minus_one, s)

-- `uthread_self`; `uthread_getpr` is its priority.
unfoldable pub uthread_self : Sched → Option Uthread
uthread_self s = elim s.thread [ none ↦ none | some cur ↦ get_elem? s.threads cur ]

unfoldable pub uthread_getpr : Sched → Option ℤ
uthread_getpr s = elim (uthread_self s) [ none ↦ none | some t ↦ some t.priority ]
