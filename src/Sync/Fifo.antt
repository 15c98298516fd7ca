-- ===== src/Sync/Fifo.antt =====
-- The ring of waiting thread ids as a first-in first-out list.
use assignment.Prelude.{
  ℕ, zero, suc, ◌+◌, ◌%◌, ◌≤◌, ◌<◌, ◌≡◌, ◌≢◌, refl, ◌∙◌, ap, ap₂, List, [], ◌∷◌, ◌++◌, none, some,
  arith, ℤ, pos, get_elem?, get_elem?_of_lt, get_elem?-modify_ne, get_elem?-modify_self, length,
  length-modify, modify,
}
use assignment.Kernel.{TidQueue, max_threads}
use assignment.Sync.Queue.{empty, enqueue, head, drop_head}

-- A queue of `n` waiting threads whose ring is intact.
pub record IsRing (q : TidQueue) (n : ℕ) : Type 0 where
  pub room : length q.sleeping_tid ≡ max_threads
  pub start : q.start_index < max_threads
  pub counted : q.count ≡ pos n
  pub few : n ≤ max_threads

abbrev pub entry : List ℤ → ℕ → ℤ
entry tids i = elim (get_elem? tids i) [ none ↦ pos 0 | some t ↦ t ]

-- The `n` entries from the index `h` on, round the ring.
abbrev pub window : List ℤ → ℕ → ℕ → List ℤ
window tids h zero = []
window tids h (suc n) = entry tids h ∷ window tids ((h + 1) % max_threads) n

abbrev pub waiting : TidQueue → ℕ → List ℤ
waiting q n = window q.sleeping_tid q.start_index n

window_off :
    (tids : List ℤ) (h n i : ℕ) (f : ℤ → ℤ)
    → h < max_threads
    → ((k : ℕ) → k < n → (h + k) % max_threads ≢ i)
    → window (modify tids i f) h n ≡ window tids h n
window_off tids h zero i f lt off = refl
window_off tids h (suc n) i f lt off =
    let here : get_elem? (modify tids i f) h ≡ get_elem? tids h =
      get_elem?-modify_ne tids i h f (λ e. off 0 (omega arith) (omega arith)) in
    let rest =
      window_off tids ((h + 1) % max_threads) n i f (omega arith)
        (λ k lk e. off (k + 1) (omega arith) (omega arith)) in
    ap₂ ◌∷◌ (rw (here, entry) refl) rest

window_snoc :
    (tids : List ℤ) (h n : ℕ)
    → h < max_threads
    → window tids h (suc n) ≡ window tids h n ++ (entry tids ((h + n) % max_threads) ∷ [])
window_snoc tids h zero lt = let e : (h + 0) % max_threads ≡ h = omega arith in rw e refl
window_snoc tids h (suc n) lt =
    let e : ((h + 1) % max_threads + n) % max_threads ≡ (h + suc n) % max_threads = omega arith in
    let rest = window_snoc tids ((h + 1) % max_threads) n (omega arith) in
    ap (λ l. entry tids h ∷ l)
      (rest ∙ ap (λ i. window tids ((h + 1) % max_threads) n ++ (entry tids i ∷ [])) e)

pushed : TidQueue → ℕ → ℤ → TidQueue
pushed q n tid = record q {
  sleeping_tid = modify q.sleeping_tid ((q.start_index + n) % max_threads) (λ _. tid);
  count = pos (n + 1);
}

enqueue-pushed :
    (q : TidQueue) (n : ℕ) (tid : ℤ) → IsRing q n → enqueue q tid ≡ some (pushed q n tid)
unfolding enqueue pushed
enqueue-pushed q n tid v = ground (arith, v.counted, v.room)

-- With room left, a thread joins at the back, and those before it keep their places.
pub enqueue_back :
    (q : TidQueue) (n : ℕ) (tid : ℤ)
    → IsRing q n
    → n < max_threads
    → (q' : TidQueue) × (enqueue q tid ≡ some q')
      × IsRing q' (n + 1)
      × (waiting q' (n + 1) ≡ waiting q n ++ (tid ∷ []))
unfolding pushed
enqueue_back q n tid v lt = (
  pushed q n tid,
  enqueue-pushed q n tid v,
  record {
    room = length-modify q.sleeping_tid _ _ ∙ v.room;
    start = v.start;
    counted = refl;
    few = omega arith;
  },
  let e : n + 1 ≡ suc n = omega arith in
      rw e (
        window_snoc (pushed q n tid).sleeping_tid q.start_index n v.start
        ∙ ap₂ ◌++◌ (window_off q.sleeping_tid q.start_index n i _ v.start (λ k lk. omega arith)) (
            ap (λ t. t ∷ [])
              (rw (get_elem?-modify_self q.sleeping_tid i (λ _. tid) slot.1, entry) refl))),
)
  where
    i : ℕ
    i = (q.start_index + n) % max_threads

    slot : (t : ℤ) × (get_elem? q.sleeping_tid i ≡ some t)
    slot = get_elem?_of_lt q.sleeping_tid i (omega (arith, v.room))

-- With a thread waiting, the head is the thread that has waited longest, and dropping it leaves the others in order.
pub drop_front :
    (q : TidQueue) (n : ℕ)
    → IsRing q (suc n)
    → (tid : ℤ) × (head q ≡ some tid)
      × (waiting q (suc n) ≡ tid ∷ waiting (drop_head q) n)
      × IsRing (drop_head q) n
unfolding head drop_head
drop_front q n v =
    let slot = get_elem?_of_lt q.sleeping_tid q.start_index (omega (arith, v.room)) in
    (
      slot.0,
      slot.1,
      ap₂ ◌∷◌ (rw (slot.1, entry) refl) refl,
      record {
        room = v.room;
        start = omega arith;
        counted = ground (arith, v.counted);
        few = omega arith;
      },
    )

pub empty-IsRing : IsRing empty 0
empty-IsRing = record { room = refl; start = omega arith; counted = refl; few = omega arith }
