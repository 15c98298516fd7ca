-- ===== src/Uthread/Switch.antt =====
-- Yield, exit and start under the priority policy, which the file sets: who runs next, with which
-- registers, and when the package runs off the array.
use assignment.Prelude.{
  ℕ, ◌<◌, ◌≡◌, ◌≢◌, get_elem?-modify_ne, refl, ◌∙◌, sym, ap, Bool, true, List, Option, none, some,
  arith, pos, ◌==◌, get_elem?, modify, get_elem?-modify_self, get_elem?-modify_inv, count_if-pos,
  not, false, count_if, count_if-modify_same, length-modify, Bool-cases, inl, inr, if◌then◌else◌,
  Option-cases, if_true, if_false,
}
use assignment.Uthread.Ring.{max_uthreads, passes}
use assignment.Uthread.Sched.{
  Uthread, Sched, priorities, sched_pb, is_live, in_priority, number_in_priority, get_next_pb,
  get_next,
}
use assignment.Uthread.Ops.{Control, resume, enter, switch_to, run_next}
use assignment.Uthread.Policy.{IsShaped, Picks, picked, get_next_pb_picks}
use assignment.Uthread.Inv.{Inv, IsTable-modify, IsShaped-threads}

-- The slot `i` is running, and it is a live thread.
pub record Running (s : Sched) (i : ℕ) : Type 0 where
  pub inv : Inv s
  pub current : s.thread ≡ some i
  pub live : passes is_live s.threads i ≡ true

-- Some thread has a priority that the scheduler looks at.
abbrev pub IsReady : List Uthread → Type 0
IsReady ts = (p : ℕ) × (p < priorities) × (0 < number_in_priority ts p)

-- No thread has.
abbrev pub IsStuck : List Uthread → Type 0
IsStuck ts = (p : ℕ) → p < priorities → number_in_priority ts p ≡ 0

-- How a thread goes on: its first run calls its function, a later one returns from `uthread_yield`.
abbrev pub control_of : Uthread → Control
control_of t = if t.first_run then enter t.ss_bp t.ss_sp t.start_func else resume t.ss_bp t.ss_sp

-- What the switch to the slot `i`, that of `t`, leaves of the variables: the thread is marked as
-- started, the other slots keep their registers, their stacks and all else, and only the indexes
-- of the priorities may differ besides.
pub record Loaded (s : Sched) (i : ℕ) (t : Uthread) (s' : Sched) : Type 0 where
  pub slot_now : get_elem? s'.threads i ≡ some (record t { first_run = false })
  pub other_slots : (j : ℕ) → i ≢ j → get_elem? s'.threads j ≡ get_elem? s.threads j
  pub same_freed : s'.freed ≡ s.freed
  pub same_count : s'.number_of_ct ≡ s.number_of_ct
  pub same_next : s'.next_tid ≡ s.next_tid
  pub same_policy : s'.sched_policy ≡ s.sched_policy
  pub same_rr : s'.rr_index ≡ s.rr_index

-- The outcome of a switch from the table `s`: the picked slot runs, on its own registers.
pub record Switches (s : Sched) (r : Option (Control × Sched)) : Type 0 where
  pub p : ℕ
  pub i : ℕ
  pub t : Uthread
  pub s' : Sched
  pub picks : Picks s p i
  pub slot : get_elem? s.threads i ≡ some t
  pub result : r ≡ some (control_of t, s')
  pub running : Running s' i
  pub loaded : Loaded s i t s'
  pub index_moved : s'.pb_rr_indexes ≡ modify s.pb_rr_indexes p (λ _. pos i)

pub passes_slot :
    (test : Uthread → Bool) (ts : List Uthread) (i : ℕ)
    → passes test ts i ≡ true
    → (t : Uthread) × (get_elem? ts i ≡ some t) × (test t ≡ true)
passes_slot test ts i h = elim (Option-cases (get_elem? ts i)) [
  | inl e ↦ absurd (ground arith)
  | inr (t, e) ↦ (t, e, ground arith)
]

-- What `switch_to` does to a slot that runs for the first time.
abbrev pub started : Uthread → Uthread
started u = record u { first_run = false }

pub IsShaped-picked :
    (s : Sched) (p i : ℕ) → IsShaped s → i < max_uthreads → IsShaped (picked s p i)
IsShaped-picked s p i v lt = record {
  threads_length = v.threads_length;
  pb_length = length-modify s.pb_rr_indexes p _ ∙ v.pb_length;
  pb_range = λ q last e.
      let r = get_elem?-modify_inv s.pb_rr_indexes p q (λ _. pos i) last e in
      elim (Bool-cases (p == q)) [
        | inl here ↦ let same : last ≡ pos i = r.2 ∙ if_true _ _ here in rw same lt
        | inr away ↦
            let same : last ≡ r.0 = r.2 ∙ if_false _ _ away in rw same (v.pb_range q r.0 r.1)
      ];
  rr_range = v.rr_range;
}

pub Inv-modify :
    (s : Sched) (i : ℕ) (f : Uthread → Uthread) (now : Option ℕ)
    → Inv s
    → ((t : Uthread) → (f t).tid ≡ t.tid)
    → Inv (record s { threads = modify s.threads i f; thread = now })
Inv-modify s i f now v keep = record {
  shaped = IsShaped-threads s _ v.shaped (length-modify s.threads i f) refl refl;
  table = IsTable-modify s.threads s.next_tid i f v.table (λ t. inl (keep t));
  counted =
      v.counted
      ∙ ap pos (
          sym (
            count_if-modify_same is_live s.threads i f
              (λ t. ap (λ (k : ℕ). not (k == 0)) (keep t))));
}

pub switch_to_lem :
    (s : Sched) (i : ℕ) (t : Uthread)
    → Inv s
    → get_elem? s.threads i ≡ some t
    → is_live t ≡ true
    → (s' : Sched) × (switch_to (pos i) s ≡ some (control_of t, s'))
      × Running s' i
      × Loaded s i t s'
      × (s'.pb_rr_indexes ≡ s.pb_rr_indexes)
unfolding switch_to
switch_to_lem s i t v at live = elim (Bool-cases t.first_run) [
  | inl first ↦ (
    record s { thread = some i; threads = modify s.threads i started },
    rw (at, first, switch_to) refl,
    record {
      inv = Inv-modify s i started (some i) v (λ u. refl);
      current = refl;
      live = rw (get_elem?-modify_self s.threads i started at, passes) live;
    },
    record {
      slot_now = get_elem?-modify_self s.threads i started at;
      other_slots = λ j ne. get_elem?-modify_ne s.threads i j started ne;
      same_freed = refl;
      same_count = refl;
      same_next = refl;
      same_policy = refl;
      same_rr = refl;
    },
    refl,
  )
  | inr again ↦ (
    record s { thread = some i },
    rw (at, again, switch_to) refl,
    record {
      inv = record {
        shaped = IsShaped-threads s _ v.shaped refl refl refl;
        table = v.table;
        counted = v.counted;
      };
      current = refl;
      live = rw (at, passes) live;
    },
    record {
      slot_now = at ∙ ap (λ b. some (record t { first_run = b })) again;
      other_slots = λ j ne. refl;
      same_freed = refl;
      same_count = refl;
      same_next = refl;
      same_policy = refl;
      same_rr = refl;
    },
    refl,
  )
]

pub get_next-pb : (s : Sched) → s.sched_policy ≡ sched_pb → get_next s ≡ get_next_pb s
unfolding get_next
get_next-pb s pb = ground arith

pub number-count :
    (ts : List Uthread) (p : ℕ) → number_in_priority ts p ≡ count_if (in_priority p) ts
unfolding number_in_priority
number-count ts p = refl

pub run_next_lem :
    (s : Sched) → Inv s → s.sched_policy ≡ sched_pb → IsReady s.threads → Switches s (run_next s)
unfolding run_next
run_next_lem s v pb ready = elim (get_next_pb_picks s v.shaped) [
  | inl (empty, e) ↦ absurd (omega (arith, ready.2, empty ready.0 ready.1))
  | inr (p, i, picks, e) ↦
      let slot = passes_slot (in_priority p) s.threads i picks.nearest.chosen in
      let inv : Inv (picked s p i) = record {
        shaped = IsShaped-picked s p i v.shaped (omega (arith, picks.nearest.slot));
        table = v.table;
        counted = v.counted;
      } in
      let r = switch_to_lem (picked s p i) i slot.0 inv slot.1 (ground (arith, slot.2)) in
      record {
        p = p;
        i = i;
        t = slot.0;
        s' = r.0;
        picks = picks;
        slot = slot.1;
        result = rw (get_next-pb s pb, e, run_next) r.1;
        running = r.2;
        loaded = record {
          slot_now = r.3.slot_now;
          other_slots = r.3.other_slots;
          same_freed = r.3.same_freed;
          same_count = r.3.same_count;
          same_next = r.3.same_next;
          same_policy = r.3.same_policy;
          same_rr = r.3.same_rr;
        };
        index_moved = r.4;
      }
]

pub run_next_stuck :
    (s : Sched) → Inv s → s.sched_policy ≡ sched_pb → IsStuck s.threads → run_next s ≡ none
unfolding run_next switch_to
run_next_stuck s v pb stuck = elim (get_next_pb_picks s v.shaped) [
  | inl (empty, e) ↦ rw (get_next-pb s pb, e, run_next) refl
  | inr (p, i, picks, e) ↦
      let slot = passes_slot (in_priority p) s.threads i picks.nearest.chosen in
      absurd (
        omega (
          arith,
          count_if-pos (in_priority p) s.threads i slot.0 slot.1 slot.2,
          number-count s.threads p,
          stuck p picks.in_range,
        ))
]
