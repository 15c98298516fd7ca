-- ===== src/Uthread/Tests.antt =====
-- Runs of the thread package on small tables, and the theorems about it at such tables.
use assignment.Prelude.{◌≡◌, refl, none, some, arith, pos, minus_one, modify, get_elem?}
use assignment.Uthread.Ring.{scan}
use assignment.Uthread.Sched.{
  Uthread, Sched, initial, number_in_priority, get_next, next_from, next_in_priority, get_next_pb,
}
use assignment.Uthread.Ops.{
  enter_here, uthread_create, created, on_this_stack, switch_to, uthread_yield, uthread_exit,
  uthread_start_all, uthread_setpr,
}
use assignment.Uthread.Policy.{PbResult, get_next_pb_picks}
use assignment.Uthread.Inv.{Inv, initial-Inv, uthread_create-Inv}
use assignment.Uthread.Switch.{Running, Switches, Inv-modify, started}
use assignment.Uthread.Yield.{saved, left, yield-Switches, exit-Switches}

-- One thread of priority 3, and then another.
abbrev one : Sched
unfolding uthread_create initial
one = (uthread_create 100 (pos 3) 5000 initial).1

abbrev two : Sched
unfolding uthread_create initial
two = (uthread_create 200 (pos 3) 9000 one).1

-- The same with a priority that the scheduler never looks at.
abbrev odd : Sched
unfolding uthread_create initial
odd = (uthread_create 100 (pos 12) 5000 initial).1

abbrev running : Sched → Sched
running s = record s { threads = modify s.threads 0 started; thread = some 0 }

-- What slot 0 holds when it runs.
abbrev first : Sched → Uthread
first s = elim (get_elem? (running s).threads 0) [ none ↦ created 0 (pos 0) 0 0 | some t ↦ t ]

-- The index of priority 3 starts at 0, so the walk starts behind the thread that was created first.
second_runs_first :
    uthread_start_all two
    ≡ some (
      enter_here 200,
      record two {
        threads = modify two.threads 1 started;
        pb_rr_indexes = modify two.pb_rr_indexes 3 (λ _. pos 1);
        thread = some 1;
      },
    )
unfolding uthread_start_all get_next get_next_pb next_from next_in_priority number_in_priority
    switch_to scan on_this_stack uthread_create initial
second_runs_first = refl

out_of_range_is_refused : uthread_setpr (pos 10) two ≡ some (minus_one, two)
unfolding uthread_setpr
out_of_range_is_refused = refl

one-Inv : Inv one
unfolding uthread_create initial
one-Inv = uthread_create-Inv 100 (pos 3) 5000 initial initial-Inv (omega arith)

uthread_create-Inv_example : Inv two
unfolding uthread_create initial
uthread_create-Inv_example = uthread_create-Inv 200 (pos 3) 9000 one one-Inv (omega arith)

two-Inv : Inv two
unfolding uthread_create initial
two-Inv = uthread_create-Inv 200 (pos 3) 9000 one one-Inv (omega arith)

odd-Inv : Inv odd
unfolding uthread_create initial
odd-Inv = uthread_create-Inv 100 (pos 12) 5000 initial initial-Inv (omega arith)

one-Running : Running (running one) 0
unfolding uthread_create initial
one-Running = record {
  inv = Inv-modify one 0 started (some 0) one-Inv (λ t. refl);
  current = refl;
  live = refl;
}

two-Running : Running (running two) 0
unfolding uthread_create initial
two-Running = record {
  inv = Inv-modify two 0 started (some 0) two-Inv (λ t. refl);
  current = refl;
  live = refl;
}

odd-Running : Running (running odd) 0
unfolding uthread_create initial
odd-Running = record {
  inv = Inv-modify odd 0 started (some 0) odd-Inv (λ t. refl);
  current = refl;
  live = refl;
}

get_next_pb_picks_example : PbResult two (get_next_pb two)
get_next_pb_picks_example = get_next_pb_picks two two-Inv.shaped

yield-Switches_example :
    Switches (saved 8000 7000 0 (running two)) (uthread_yield 8000 7000 (running two))
unfolding uthread_create initial number_in_priority
yield-Switches_example =
    yield-Switches 8000 7000 0 (running two) two-Running refl (3, omega arith, omega arith)

exit-Switches_example : Switches (left 0 (first two) (running two)) (uthread_exit (running two))
unfolding uthread_create initial number_in_priority
exit-Switches_example =
    exit-Switches 0 (first two) (running two) two-Running refl (λ e. ground arith) refl
      (3, omega arith, omega arith)
