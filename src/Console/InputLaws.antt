-- ===== src/Console/InputLaws.antt =====
-- The bounds of the console's ring of characters (console.c).
use assignment.Prelude.{
  ℕ, zero, suc, ◌+◌, ◌-◌, ◌%◌, ◌≤◌, ◌<◌, ◌≡◌, ◌≢◌, inl, inr, refl, ap, Bool, true, false, ◌&&◌,
  ◌||◌, not, List, [], ◌∷◌, pos, negsuc, minus_one, arith, ◌==◌, ltb, Bool-cases, if◌then◌else◌,
  length,
}
use assignment.Console.Input.{
  Input, next_index, previous_index, distance, input_buf, newline, stored, ends_line, append,
  kill_line, erase, insert, handle, consoleintr, Outcome, returns, sleeps, read_line, consoleread,
}

-- At most 128 characters stand between the reader and the editor, and the ended lines are among them.
pub record IsInput (s : Input) : Type 0 where
  pub r_fits : s.r < 4294967296
  pub w_fits : s.w < 4294967296
  pub e_fits : s.e < 4294967296
  pub ended : distance s.r s.w ≤ distance s.r s.e
  pub room : distance s.r s.e ≤ 128

back-IsInput : (s : Input) → IsInput s → s.e ≢ s.w → IsInput (record s { e = previous_index (s.e) })
back-IsInput s v ne =
    let a = v.r_fits in
    let b = v.w_fits in
    let c = v.e_fits in
    let d = v.ended in
    let f = v.room in
    record { r_fits = a; w_fits = b; e_fits = omega arith; ended = omega arith; room = omega arith }

append-IsInput :
    (s : Input) (c : ℕ)
    → IsInput s
    → distance s.r s.e < 128
    → IsInput (append c s) × IsInput (record (append c s) { w = next_index (s.e) })
append-IsInput s c v lt =
    let a = v.r_fits in
    let b = v.w_fits in
    let c = v.e_fits in
    let d = v.ended in
    (
      record {
        r_fits = a;
        w_fits = b;
        e_fits = omega arith;
        ended = omega arith;
        room = omega arith;
      },
      record {
        r_fits = a;
        w_fits = omega arith;
        e_fits = omega arith;
        ended = omega arith;
        room = omega arith;
      },
    )

erase-IsInput : (s : Input) → IsInput s → IsInput (erase s).0
unfolding erase
erase-IsInput s v = elim (Bool-cases (s.e == s.w)) [
  | inl q ↦ rw q v
  | inr q ↦ rw q (back-IsInput s v (ground (arith, q)))
]

kill_line-IsInput : (f : ℕ) (s : Input) → IsInput s → IsInput (kill_line f s).0
unfolding kill_line
kill_line-IsInput zero s v = v
kill_line-IsInput (suc f) s v =
    elim (Bool-cases
      (not (s.e == s.w) && not (s.buf (previous_index s.e % input_buf) == newline))) [
        | inr q ↦ rw q v
        | inl q ↦ rw q (
            kill_line-IsInput f (record s { e = previous_index (s.e) })
              (back-IsInput s v (ground (arith, q))))
      ]

insert-IsInput : (c : ℕ) (s : Input) → IsInput s → IsInput (insert c s).0
unfolding insert
insert-IsInput c s v = elim (Bool-cases (not (c == 0) && ltb (distance s.r s.e) input_buf)) [
  | inr q ↦ rw q v
  | inl q ↦
      let kept = append-IsInput s (stored c) v (ground (arith, q)) in
      elim (Bool-cases (ends_line (stored c) (append (stored c) s))) [
        | inl last ↦ rw q (rw last kept.1)
        | inr more ↦ rw q (rw more kept.0)
      ]
]

handle-IsInput : (c : ℕ) (s : Input) → IsInput s → IsInput (handle c s).0
unfolding handle
handle-IsInput c s v = elim (Bool-cases (c == 16)) [
  | inl a ↦ rw a v
  | inr a ↦ elim (Bool-cases (c == 21)) [
    | inl b ↦ rw (a, b) (kill_line-IsInput input_buf s v)
    | inr b ↦ elim (Bool-cases (c == 8 || c == 127)) [
      | inl d ↦ rw (a, b, d) (erase-IsInput s v)
      | inr d ↦ rw (a, b, d) (insert-IsInput c s v)
    ]
  ]
]

-- Whatever is typed, at most 128 characters stand between the reader and the editor, and the ended
-- lines are among them.
pub consoleintr-IsInput : (cs : List ℕ) (s : Input) → IsInput s → IsInput (consoleintr cs s).0
unfolding consoleintr
consoleintr-IsInput [] s v = v
consoleintr-IsInput (c ∷ cs) s v = consoleintr-IsInput cs (handle c s).0 (handle-IsInput c s v)

-- What a read of `target` bytes comes to from where `n` are left.
pub record IsRead (target n : ℕ) (s : Input) (r : Outcome × List ℕ × Input) : Type 0 where
  pub bounded : length r.1 ≤ n
  pub still : IsInput r.2
  pub same : (r.2.w ≡ s.w) × (r.2.e ≡ s.e)
  pub counted : (k : ℕ) → r.0 ≡ returns (pos k) → target - n + length r.1 ≡ k

take-IsInput : (s : Input) → IsInput s → s.r ≢ s.w → IsInput (record s { r = next_index (s.r) })
take-IsInput s v ne =
    let a = v.r_fits in
    let b = v.w_fits in
    let c = v.e_fits in
    let d = v.ended in
    let f = v.room in
    record { r_fits = omega arith; w_fits = b; e_fits = c; ended = omega arith; room = omega arith }

returns_inj : (a k : ℕ) → returns (pos a) ≡ returns (pos k) → a ≡ k
returns_inj a k e =
    ap (λ o. elim o [ sleeps ↦ a | returns z ↦ elim z [ pos n ↦ n | negsuc n ↦ a ] ]) e

read_line-IsRead :
    (killed : Bool) (target n : ℕ) (s : Input)
    → IsInput s
    → n ≤ target
    → IsRead target n s (read_line killed target n s)
unfolding read_line
read_line-IsRead killed target zero s v le = record {
  bounded = omega arith;
  still = v;
  same = (refl, refl);
  counted = λ k e. omega (arith, returns_inj target k e);
}
read_line-IsRead killed target (suc n) s v le =
    let c = s.buf (s.r % input_buf) in
    let t = record s { r = next_index (s.r) } in
    elim (Bool-cases (s.r == s.w)) [
      | inl q ↦ rw q (empty killed)
      | inr q ↦
          let v' : IsInput t = take-IsInput s v (ground (arith, q)) in
          elim (Bool-cases (c == 4)) [
            | inl d ↦
                rw (q, d)
                  (record {
                    bounded = omega arith;
                    still = either (ltb (suc n) target) s t v v';
                    same = same_either (ltb (suc n) target) s (next_index (s.r));
                    counted = λ k e. omega (arith, returns_inj (target - suc n) k e);
                  })
            | inr d ↦ elim (Bool-cases (c == newline)) [
              | inl l ↦
                  rw (q, d, l)
                    (record {
                      bounded = omega arith;
                      still = v';
                      same = (refl, refl);
                      counted = λ k e. omega (arith, le, returns_inj (target - n) k e);
                    })
              | inr l ↦
                  let rest = read_line-IsRead killed target n t v' (omega (arith, le)) in
                  rw (q, d, l)
                    (record {
                      bounded = omega (arith, rest.bounded);
                      still = rest.still;
                      same = rest.same;
                      counted = λ k e. omega (arith, le, rest.counted k e);
                    })
            ]
          ]
    ]
  where
    either : (b : Bool) (s t : Input) → IsInput s → IsInput t → IsInput (if b then s else t)
    either true s t v w = v
    either false s t v w = w

    same_either :
        (b : Bool) (s : Input) (r : ℕ)
        → ((if b then s else record s { r = r }).w ≡ s.w)
          × ((if b then s else record s { r = r }).e ≡ s.e)
    same_either true s r = (refl, refl)
    same_either false s r = (refl, refl)

    empty :
        (killed : Bool)
        → IsRead target (suc n) s ((if killed then returns minus_one else sleeps), [], s)
    empty true = record {
      bounded = omega arith;
      still = v;
      same = (refl, refl);
      counted = λ k e. absurd (ground (arith, e));
    }
    empty false = record {
      bounded = omega arith;
      still = v;
      same = (refl, refl);
      counted = λ k e. absurd (ground (arith, e));
    }

-- A `consoleread` of `n` bytes stores at most `n`, does not touch the line that is edited nor where the
-- ended lines end, keeps the bounds of the ring, and returns the number of the bytes that it stored
-- unless it returns -1 or sleeps.
pub consoleread-IsRead :
    (killed : Bool) (n : ℕ) (s : Input) → IsInput s → IsRead n n s (consoleread killed n s)
unfolding consoleread
consoleread-IsRead killed n s v = read_line-IsRead killed n n s v (omega arith)
