-- ===== src/Uthread/Inv.antt =====
-- The invariant of the thread table: live threads have distinct tids below the next one, and
-- `numberOfCT` counts them.
use assignment.Prelude.{
  zero, suc, replicate, get_elem?-replicate, ◌⊎◌, ℕ, ◌+◌, ◌-◌, ◌^◌, ◌≤◌, ◌<◌, ◌≡◌, refl, ◌∙◌, List,
  ◌∷◌, some, arith, ℤ, pos, minus_one, ◌+ℤ◌, ◌==◌, ==_refl, ==_iff, get_elem?, modify, length,
  get_elem?-modify_inv, count_if, count_if-modify, find_index, find_index-some, find_index-le,
  Option-cases, length-modify, inl, inr,
}
use assignment.Uthread.Ring.{IsIndex}
use assignment.Uthread.Sched.{initial, Uthread, Sched, priorities, is_live}
use assignment.Uthread.Ops.{free_thread, uthread_create, created}
use assignment.Uthread.Policy.{IsShaped}

abbrev pub int_max : ℕ
int_max = 2 ^ 31 - 1

-- The slots of the table, and the tid that is next.
pub record IsTable (threads : List Uthread) (next_tid : ℕ) : Type 0 where
  pub positive : 0 < next_tid
  pub fits : next_tid ≤ int_max
  pub used : (i : ℕ) (t : Uthread) → get_elem? threads i ≡ some t → t.tid < next_tid
  pub distinct :
      (i j : ℕ) (t u : Uthread)
      → get_elem? threads i ≡ some t
      → get_elem? threads j ≡ some u
      → 0 < t.tid
      → t.tid ≡ u.tid
      → i ≡ j

pub record Inv (s : Sched) : Type 0 where
  pub shaped : IsShaped s
  pub table : IsTable s.threads s.next_tid
  pub counted : s.number_of_ct ≡ pos (count_if is_live s.threads)

-- A write that leaves the tid of a slot alone, or clears it, keeps the table.
pub IsTable-modify :
    (ts : List Uthread) (n i : ℕ) (f : Uthread → Uthread)
    → IsTable ts n
    → ((t : Uthread) → ((f t).tid ≡ t.tid) ⊎ ((f t).tid ≡ 0))
    → IsTable (modify ts i f) n
IsTable-modify ts n i f v keep = record {
  positive = v.positive;
  fits = v.fits;
  used = λ j t e.
      let r = get_elem?-modify_inv ts i j f t e in
      ground (arith, r.2, v.used j r.0 r.1, keep r.0, v.positive);
  distinct = λ j k t u ej ek pos_t same.
      let r = get_elem?-modify_inv ts i j f t ej in
      let q = get_elem?-modify_inv ts i k f u ek in
      v.distinct j k r.0 q.0 r.1 q.1 (ground (arith, r.2, keep r.0))
        (ground (arith, r.2, q.2, keep r.0, keep q.0));
}

-- A new thread with the next tid keeps the table.
IsTable-create :
    (ts : List Uthread) (n i : ℕ) (new : Uthread)
    → IsTable ts n
    → new.tid ≡ n
    → n < int_max
    → IsTable (modify ts i (λ _. new)) (n + 1)
IsTable-create ts n i new v e room = record {
  positive = omega arith;
  fits = omega arith;
  used = λ j t q.
      let r = get_elem?-modify_inv ts i j (λ _. new) t q in ground (arith, r.2, v.used j r.0 r.1);
  distinct = λ j k t u ej ek pos_t same.
      let r = get_elem?-modify_inv ts i j (λ _. new) t ej in
      let q = get_elem?-modify_inv ts i k (λ _. new) u ek in
      ground (arith, r.2, q.2, v.used j r.0 r.1, v.used k q.0 q.1, v.distinct j k r.0 q.0 r.1 q.1);
}

pub IsShaped-threads :
    (s s' : Sched)
    → IsShaped s
    → length s'.threads ≡ length s.threads
    → s'.pb_rr_indexes ≡ s.pb_rr_indexes
    → s'.rr_index ≡ s.rr_index
    → IsShaped s'
IsShaped-threads s s' v e pb rr = record {
  threads_length = e ∙ v.threads_length;
  pb_length = rw pb v.pb_length;
  pb_range = rw pb v.pb_range;
  rr_range = rw rr v.rr_range;
}

-- With a tid left below INT_MAX, `uthread_create` keeps the invariant, whether a slot is free or
-- none is.
pub uthread_create-Inv :
    (start_func : ℕ) (priority : ℤ) (stack : ℕ) (s : Sched)
    → Inv s
    → s.next_tid < int_max
    → Inv (uthread_create start_func priority stack s).1
unfolding uthread_create
uthread_create-Inv start_func priority stack s v room =
    elim (Option-cases (find_index (λ t. t.tid == 0) s.threads)) [
      | inl full ↦ rw (full, uthread_create) v
      | inr (i, e) ↦
          let free = find_index-some (λ t. t.tid == 0) s.threads i e in
          rw (e, uthread_create)
            (record {
              shaped = IsShaped-threads s _ v.shaped (length-modify s.threads i _) refl refl;
              table = IsTable-create s.threads s.next_tid i _ v.table refl room;
              counted = ground (
                arith,
                v.counted,
                v.table.positive,
                free.2,
                count_if-modify is_live s.threads i
                    (λ _. created start_func priority stack s.next_tid) free.0 free.1,
              );
            })
    ]

-- `freeThread` of a live thread clears the slot of that thread and frees its stack.
pub free_thread_lem :
    (s : Sched) (cur : ℕ) (t : Uthread)
    → Inv s
    → get_elem? s.threads cur ≡ some t
    → 0 < t.tid
    → free_thread t s ≡ record s {
      number_of_ct = s.number_of_ct +ℤ minus_one;
      freed = t.stack_aloc ∷ s.freed;
      threads = modify s.threads cur (λ u. record u { tid = 0; priority = pos priorities });
    }
unfolding free_thread
free_thread_lem s cur t v at live =
    let r = find_index-le (λ u. t.tid == u.tid) s.threads cur t at (==_refl t.tid) in
    let q = find_index-some (λ u. t.tid == u.tid) s.threads r.0 r.1 in
    let same : cur ≡ r.0 =
      v.table.distinct cur r.0 t q.0 at q.1 live ((==_iff t.tid q.0.tid).0 q.2) in
    let here : find_index (λ u. t.tid == u.tid) s.threads ≡ some cur = rw same r.1 in
    rw (here, free_thread) refl

-- The invariant holds at the start, with no thread.
pub initial-Inv : Inv initial
unfolding initial
initial-Inv = record {
  shaped = record {
    threads_length = refl;
    pb_length = refl;
    pb_range = first_indexes;
    rr_range = refl;
  };
  table = record {
    positive = omega arith;
    fits = omega arith;
    used = λ i t e. let same = get_elem?-replicate 64 i _ e in ground (arith, same);
    distinct = λ i j t u e f live same.
        let free = get_elem?-replicate 64 i _ e in absurd (ground (arith, free, live));
  };
  counted = refl;
}
  where
    first_indexes :
        (p : ℕ) (last : ℤ)
        → get_elem? (minus_one ∷ replicate 9 (pos 0)) p ≡ some last
        → IsIndex last
    first_indexes zero last e = ground (arith, e)
    first_indexes (suc p) last e =
        let same = get_elem?-replicate 9 p (pos 0) e in ground (arith, same)
