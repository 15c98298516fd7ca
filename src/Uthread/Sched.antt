-- ===== src/Uthread/Sched.antt =====
-- The static variables of uthread.c, and the two scheduling policies that pick the next slot.
use assignment.Prelude.{
  ℕ, zero, suc, ◌+◌, Bool, false, ◌&&◌, not, List, Option, none, some, ℤ, pos, minus_one, ◌==ℤ◌,
  ◌==◌, if◌then◌else◌, get_elem?, modify, count_if, replicate, [], ◌∷◌,
}
use assignment.Uthread.Ring.{max_uthreads, after, scan}

-- `uthread_t`. Addresses are numbers; `tid` is 0 in a free slot.
pub record Uthread : Type 0 where
  pub tid : ℕ
  pub ss_sp : ℕ
  pub ss_bp : ℕ
  pub stack_aloc : ℕ
  pub ss_size : ℕ
  pub priority : ℤ
  pub start_func : ℕ
  pub first_run : Bool

abbrev pub priorities : ℕ
priorities = 10

-- STACK_SIZE, `1024 * sizeof(int)`
abbrev pub stack_size : ℕ
stack_size = 4096

abbrev pub sched_rr : ℕ
sched_rr = 0

abbrev pub sched_pb : ℕ
sched_pb = 1

-- The file's static variables; `thread` is the slot that the pointer names, `none` the null pointer.
-- `freed` lists the addresses passed to `free`, last first.
pub record Sched : Type 0 where
  pub sched_policy : ℕ
  pub pb_rr_indexes : List ℤ
  pub rr_index : ℤ
  pub thread : Option ℕ
  pub next_tid : ℕ
  pub threads : List Uthread
  pub number_of_ct : ℤ
  pub freed : List ℕ

abbrev free_slot : Uthread
free_slot = record {
  tid = 0;
  ss_sp = 0;
  ss_bp = 0;
  stack_aloc = 0;
  ss_size = 0;
  priority = pos 0;
  start_func = 0;
  first_run = false;
}

-- The initialisers. `{-1}` sets the first of the PB_RR_INDEXES alone; C zeroes the others.
unfoldable pub initial : Sched
initial = record {
  sched_policy = sched_pb;
  pb_rr_indexes = minus_one ∷ replicate 9 (pos 0);
  rr_index = minus_one;
  thread = none;
  next_tid = 1;
  threads = replicate max_uthreads free_slot;
  number_of_ct = pos 0;
  freed = [];
}

abbrev pub is_live : Uthread → Bool
is_live t = not (t.tid == 0)

abbrev pub in_priority : ℕ → Uthread → Bool
in_priority p t = not (t.tid == 0) && (t.priority ==ℤ pos p)

-- `getNextRoundRobin`: the fuel is one round of the array.
unfoldable pub get_next_round_robin : Sched → Option (ℤ × Sched)
get_next_round_robin s = elim (scan is_live s.threads max_uthreads s.rr_index (after s.rr_index)) [
  | none ↦ none
  | some i ↦ some (pos i, record s { rr_index = pos i })
]

-- `getNumberOfThreadInPrioirity`
unfoldable pub number_in_priority : List Uthread → ℕ → ℕ
number_in_priority ts p = count_if (in_priority p) ts

-- The body of the loop of `getNextPB` at a priority with threads.
unfoldable pub next_in_priority : Sched → ℕ → Option (ℤ × Sched)
next_in_priority s p = elim (get_elem? s.pb_rr_indexes p) [
  | none ↦ none
  | some last ↦ elim (scan (in_priority p) s.threads max_uthreads last (after last)) [
    | none ↦ none
    | some i ↦ some (pos i, record s { pb_rr_indexes = modify s.pb_rr_indexes p (λ _. pos i) })
  ]
]

-- The loop over the priorities `p`, `p + 1`, …, with the number of those left.
unfoldable pub next_from : ℕ → ℕ → Sched → Option (ℤ × Sched)
next_from zero p s = some (minus_one, s)
next_from (suc n) p s =
    let rest = next_from n (p + 1) s in
    if number_in_priority s.threads p == 0 then rest else next_in_priority s p

-- `getNextPB`
unfoldable pub get_next_pb : Sched → Option (ℤ × Sched)
get_next_pb s = next_from priorities 0 s

-- The two `if`s by which the callers choose.
unfoldable pub get_next : Sched → Option (ℤ × Sched)
get_next s =
    if s.sched_policy == sched_rr
    then get_next_round_robin s
    else (if s.sched_policy == sched_pb then get_next_pb s else some (minus_one, s))
