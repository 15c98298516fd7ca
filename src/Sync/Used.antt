-- ===== src/Sync/Used.antt =====
-- The queue of a mutex (proc.c) after some rounds in which one thread waited, with the entries that the
-- rounds have left in the ring.
use assignment.Prelude.{
  ℕ, zero, suc, ◌%◌, ◌≤◌, ◌<◌, ◌≡◌, ◌≢◌, refl, ◌∙◌, false, some, arith, ℤ, pos, minus_one, ◌==ℤ◌,
  ==ℤ_iff, get_elem?, modify, length, length-modify, get_elem?-modify_self, get_elem?-modify_ne,
  dec_lt, replicate,
}
use assignment.Kernel.{m_locked, TidQueue}
use assignment.Sync.Queue.{empty, enqueue, head, drop_head, search_from, is_in_queue}
use assignment.Sync.Mutex.{join}

-- A queue with nobody in it whose first `i` entries hold the thread `w` and the others nobody.
pub record IsUsed (w : ℤ) (i : ℕ) (q : TidQueue) : Type 0 where
  pub room : length q.sleeping_tid ≡ 256
  pub start : q.start_index ≡ i % 256
  pub counted : q.count ≡ pos 0
  pub served : (k : ℕ) → k < i → k < 256 → get_elem? q.sleeping_tid k ≡ some w
  pub clear : (k : ℕ) → i ≤ k → k < 256 → get_elem? q.sleeping_tid k ≡ some (pos 0)

get_elem?-replicate : (n k : ℕ) (t : ℤ) → k < n → get_elem? (replicate n t) k ≡ some t
get_elem?-replicate zero k t lt = absurd (omega (arith, lt))
get_elem?-replicate (suc n) zero t lt = refl
get_elem?-replicate (suc n) (suc k) t lt = get_elem?-replicate n k t (omega (arith, lt))

pub empty-IsUsed : (w : ℤ) → IsUsed w 0 empty
empty-IsUsed w = record {
  room = refl;
  start = omega arith;
  counted = refl;
  served = λ k lt lk. absurd (omega (arith, lt));
  clear = λ k le lk. get_elem?-replicate 256 k (pos 0) lk;
}

module _ (w : ℤ) (real : w ≢ pos 0) (i : ℕ) (lt : i < 256) (q : TidQueue) (u : IsUsed w i q) where
  abbrev pub one_waiting : TidQueue
  one_waiting = record q { sleeping_tid = modify q.sleeping_tid i (λ _. w); count = pos 1 }

  start_at : q.start_index ≡ i
  start_at = omega (arith, u.start, lt)

  is_in_queue_used : is_in_queue q w ≡ some false
  unfolding is_in_queue search_from
  is_in_queue_used =
      let here = u.clear i (omega arith) lt in
      let other : (pos 0 ==ℤ w) ≡ false = ground (arith, real, ==ℤ_iff (pos 0) w) in
      ground (arith, start_at, u.counted, here, other)

  enqueue_used : enqueue q w ≡ some one_waiting
  unfolding enqueue
  enqueue_used = ground (arith, start_at, u.counted, u.room)

  pub head_used : head one_waiting ≡ some w
  unfolding head
  head_used =
      rw start_at (get_elem?-modify_self q.sleeping_tid i (λ _. w) (u.clear i (omega arith) lt))

  pub drop_head-IsUsed : IsUsed w (suc i) (drop_head one_waiting)
  unfolding drop_head
  drop_head-IsUsed = record {
    room = length-modify q.sleeping_tid i _ ∙ u.room;
    start = omega (arith, start_at);
    counted = refl;
    served = λ k le lk. elim (dec_lt k i) [
      | yes old ↦
          get_elem?-modify_ne q.sleeping_tid i k _ (λ e. absurd (omega (arith, e, old)))
          ∙ u.served k old lk
      | no new ↦
          let e : k ≡ i = omega (arith, le, new) in
          rw e (get_elem?-modify_self q.sleeping_tid i (λ _. w) (u.clear i (omega arith) lt))
    ];
    clear = λ k le lk.
        get_elem?-modify_ne q.sleeping_tid i k _ (λ e. absurd (omega (arith, e, le)))
        ∙ u.clear k (omega (arith, le)) lk;
  }

pub not_zero : (w : ℤ) → w ≢ pos 0 → (w ==ℤ pos 0) ≡ false
not_zero w real = ground (arith, real, ==ℤ_iff w (pos 0))

pub join_used :
    (w : ℤ) (real : w ≢ pos 0) (i : ℕ) (lt : i < 256) (q : TidQueue) (u : IsUsed w i q) (t : ℤ)
    → join (record { tid = t; status = m_locked; queue = q }) w
      ≡ some (record { tid = t; status = m_locked; queue = one_waiting w real i lt q u })
unfolding join
join_used w real i lt q u t =
    rw (is_in_queue_used w real i lt q u, join) (rw (enqueue_used w real i lt q u) refl)

-- The entry that the first round has left.
pub head_left : (w : ℤ) (q : TidQueue) → IsUsed w 256 q → head q ≡ some w
unfolding head
head_left w q u =
    let start : q.start_index ≡ 0 = omega (arith, u.start) in
    rw start (u.served 0 (omega arith) (omega arith))

pub count_left : (q : TidQueue) → q.count ≡ pos 0 → (drop_head q).count ≡ minus_one
unfolding drop_head
count_left q e = ground (arith, e)
