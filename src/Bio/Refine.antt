-- ===== src/Bio/Refine.antt =====
-- The links of bio.c carry out the steps of the list of buffers.
use assignment.Prelude.{
  Avoids, IsDistinct, ℕ, zero, suc, ◌+◌, ◌<◌, ◌≤◌, ◌≡◌, ◌≢◌, inl, inr, refl, sym, ap, ap₂, subst,
  ◌∙◌, Bool, false, not, List, [], ◌∷◌, ◌++◌, map, Option, none, some, arith, ◌==◌, if◌then◌else◌,
  length, get_elem?, find_index-some, Bool-cases, Option-cases,
}
use assignment.Bio.Cache.{Buf, Cache, Result, ok, sleeps, panics, binit, place, remove, brelse}
use assignment.Bio.Links.{
  Links, nbuf, head, push_front, move_front, link_from, link_all, search_next, search_prev,
}
use assignment.Bio.LinkLaws.{IsLinked, Leads, push_front-Leads, move_front-IsLinked}

abbrev pub slots : List Buf → List ℕ
slots bufs = map (λ b. b.slot) bufs

-- The links go through the buffers in the order of the list.
abbrev pub Refines : Links → List Buf → Type 0
Refines l bufs = IsLinked l (slots bufs)

-- A buffer of the list, and the list without it.
slots-remove :
    (bufs : List Buf) (i : ℕ) (b : Buf)
    → get_elem? bufs i ≡ some b
    → (xs : List ℕ) × (ys : List ℕ) × (slots bufs ≡ xs ++ (b.slot ∷ ys))
      × (slots (remove i bufs) ≡ xs ++ ys)
unfolding remove
slots-remove [] i b e = absurd (ground arith)
slots-remove (c ∷ bufs) zero b e =
    let same : c ≡ b = ground (arith, e) in
    ([], slots bufs, ap (λ x. x.slot ∷ slots bufs) same, refl)
slots-remove (c ∷ bufs) (suc i) b e =
    let (xs, ys, p, q) = slots-remove bufs i b e in
    (c.slot ∷ xs, ys, ap (λ l. c.slot ∷ l) p, ap (λ l. c.slot ∷ l) q)

abbrev After : Links → ℕ → Result ℕ → Type 0
After l slot (ok r s) = Refines (move_front slot l) s.bufs
After l slot (sleeps r) = Unit
After l slot panics = Unit

brelse-After : (slot : ℕ) (l : Links) (s : Cache) → Refines l s.bufs → After l slot (brelse slot s)
unfolding brelse
brelse-After slot l s h = elim (Option-cases (place slot s)) [
  | inl e ↦
      let stops : brelse slot s ≡ panics = rw (e, brelse) refl in
      subst (After l slot) (sym stops) tt
  | inr (i, e) ↦
      let (b, at, passes) = find_index-some (λ (b : Buf). b.slot == slot) s.bufs i e in
      elim (Bool-cases (not b.busy)) [
        | inl idle ↦
            let stops : brelse slot s ≡ panics = rw (e, at, idle, brelse) refl in
            subst (After l slot) (sym stops) tt
        | inr busy ↦
            let (xs, ys, p, q) = slots-remove s.bufs i b at in
            let same : b.slot ≡ slot = ground (arith, passes) in
            let linked : IsLinked (move_front b.slot l) (b.slot ∷ (xs ++ ys)) =
              move_front-IsLinked l xs b.slot ys (subst (IsLinked l) p h) in
            let moved : IsLinked (move_front slot l) (b.slot ∷ (xs ++ ys)) =
              subst (λ x. IsLinked (move_front x l) (b.slot ∷ (xs ++ ys))) same linked in
            let s' : Cache = record s { bufs = record b { busy = false } ∷ remove i s.bufs } in
            let done : brelse slot s ≡ ok slot s' = rw (e, at, busy, brelse) refl in
            subst (After l slot) (sym done)
              (subst (λ zs. IsLinked (move_front slot l) (b.slot ∷ zs)) (sym q) moved)
      ]
]

-- The stores of `brelse` into `prev` and `next` carry out what it does to the list of the buffers: a ring
-- that goes through them in the order of the list before does so after.
pub brelse-Refines :
    (slot r : ℕ) (l : Links) (s s' : Cache)
    → Refines l s.bufs
    → brelse slot s ≡ ok r s'
    → Refines (move_front slot l) s'.bufs
brelse-Refines slot r l s s' h e = subst (After l slot) e (brelse-After slot l s h)

-- Every buffer below `b`.
AllBelow : ℕ → List ℕ → Type 0
AllBelow b [] = Unit
AllBelow b (x ∷ xs) = (x < b) × AllBelow b xs

AllBelow-suc : (b : ℕ) (xs : List ℕ) → AllBelow b xs → AllBelow (suc b) xs
unfolding AllBelow
AllBelow-suc b [] h = tt
AllBelow-suc b (x ∷ xs) (lt, h) = (omega (arith, lt), AllBelow-suc b xs h)

AllBelow-Avoids : (b c : ℕ) (xs : List ℕ) → b ≤ c → AllBelow b xs → Avoids c xs
unfolding AllBelow
AllBelow-Avoids b c [] le h = tt
AllBelow-Avoids b c (x ∷ xs) le (lt, h) =
    (λ e. absurd (omega (arith, e, lt, le)), AllBelow-Avoids b c xs le h)

slots-AllBelow : (n : ℕ) → AllBelow n (slots (binit n))
unfolding AllBelow binit
slots-AllBelow zero = tt
slots-AllBelow (suc n) = (omega arith, AllBelow-suc n (slots (binit n)) (slots-AllBelow n))

link_from-Refines :
    (n b : ℕ) (l : Links)
    → b + n ≤ nbuf
    → Refines l (binit b)
    → Refines (link_from n b l) (binit (b + n))
unfolding link_from binit
link_from-Refines zero b l le h =
    let e : b ≡ b + 0 = omega arith in subst (λ c. Refines l (binit c)) e h
link_from-Refines (suc n) b l le (h, (av, d)) =
    let e : suc b + n ≡ b + suc n = omega arith in
    let fresh = AllBelow-Avoids b b (slots (binit b)) (omega arith) (slots-AllBelow b) in
    let ne : head ≢ b = λ q. absurd (omega (arith, q, le)) in
    let all : IsDistinct (head ∷ b ∷ slots (binit b)) = ((ne, av), (fresh, d)) in
    subst (λ c. Refines (link_from n (suc b) (push_front b l)) (binit c)) e
      (link_from-Refines n (suc b) (push_front b l) (omega (arith, le))
        (push_front-Leads l b (slots (binit b)) h all, all))

-- The stores of `binit` make the ring of its list.
pub link_all-Refines : (l : Links) → Refines (link_all l) (binit nbuf)
unfolding link_all binit
link_all-Refines l = link_from-Refines nbuf 0 _ (omega arith) ((refl, refl), (tt, tt))

-- The first and the last buffer of a list that pass a test.
abbrev pub first : (ℕ → Bool) → List ℕ → Option ℕ
first p [] = none
first p (x ∷ xs) = if p x then some x else first p xs

abbrev pub final : (ℕ → Bool) → List ℕ → Option ℕ → Option ℕ
final p [] before = before
final p (x ∷ xs) before = final p xs (if p x then some x else before)

search_next-first :
    (p : ℕ → Bool) (l : Links) (a : ℕ) (xs : List ℕ) (fuel : ℕ)
    → Leads l a xs head
    → Avoids head xs
    → length xs < fuel
    → search_next fuel p l (l.next a) ≡ first p xs
unfolding search_next
search_next-first p l a xs zero h av lt = absurd (omega (arith, lt))
search_next-first p l a [] (suc fuel) (n, _) av lt = rw n refl
search_next-first p l a (x ∷ xs) (suc fuel) (n, _, h) (ne, av) lt =
    let rest = search_next-first p l x xs fuel h av (omega (arith, lt)) in
    let differs : (x == head) ≡ false = ground (arith, ne) in rw n (rw (differs, rest) refl)

search_prev-final :
    (p : ℕ → Bool) (l : Links) (a : ℕ) (xs : List ℕ) (z m : ℕ)
    → Leads l a xs z
    → Avoids head xs
    → search_prev (length xs + m) p l (l.prev z) ≡ final p xs (search_prev m p l a)
unfolding search_prev
search_prev-final p l a [] z m (_, e) av =
    let same : 0 + m ≡ m = omega arith in ap₂ (λ k b. search_prev k p l b) same e
search_prev-final p l a (x ∷ xs) z m (_, e, h) (ne, av) =
    let same : suc (length xs) + m ≡ length xs + suc m = omega arith in
    let differs : (x == head) ≡ false = ground (arith, ne) in
    let here : search_prev (suc m) p l x ≡ (if p x then some x else search_prev m p l a) =
      rw (differs, e) refl in
    ap (λ k. search_prev k p l (l.prev z)) same
    ∙ search_prev-final p l x xs z (suc m) h av
    ∙ ap (final p xs) here

-- The two loops of `bget` end within as many rounds as there are buffers, and one more; they come to the
-- first and to the last buffer of the list that passes the test.
pub search_both :
    (p : ℕ → Bool) (l : Links) (bufs : List Buf)
    → Refines l bufs
    → (search_next (length (slots bufs) + 1) p l (l.next head) ≡ first p (slots bufs))
      × (search_prev (length (slots bufs) + 1) p l (l.prev head) ≡ final p (slots bufs) none)
unfolding search_prev
search_both p l bufs (h, (av, d)) = (
  search_next-first p l head (slots bufs) (length (slots bufs) + 1) h av (omega arith),
  search_prev-final p l head (slots bufs) head 1 h av,
)
