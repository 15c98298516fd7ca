-- ===== src/Pipe/Transfer.antt =====
-- What `pipewrite` and `piperead` do to the bytes of a pipe.
use assignment.Prelude.{
  ℕ, zero, suc, ◌+◌, ◌≤◌, ◌<◌, ◌≡◌, ◌⊎◌, inl, inr, refl, sym, ◌∙◌, ap, true, false, List, [], ◌∷◌,
  ◌++◌, some, pos, arith, append_nil, append_assoc, Bool-cases, length,
}
use assignment.Kernel.{Kernel}
use assignment.Pipe.Buffer.{
  Pipe, pipe_size, is_empty, is_full, put_byte, get_byte, IsPipe, contents, put_byte_back,
  get_byte_front, is_empty_iff, is_full_iff,
}
use assignment.Pipe.Ops.{read_chan, wakeup, returns, wait_for_room, write_from, read_bytes}

-- A write of `cs` with `i` bytes written before, from a pipe that holds `n`, has stored the bytes
-- `sent` behind the others, and either all were, and the count is returned, or the pipe is full.
pub record Wrote (cur a i : ℕ) (cs : List ℕ) (p : Pipe) (n : ℕ) (k : Kernel) : Type 0 where
  pub sent : List ℕ
  pub rest : List ℕ
  pub after : Pipe
  pub split : cs ≡ sent ++ rest
  pub ring : IsPipe after (n + length sent)
  pub stored : contents after (n + length sent) ≡ contents p n ++ sent
  pub same_ends : (after.readopen ≡ p.readopen) × (after.writeopen ≡ p.writeopen)
  pub ended :
      ((rest ≡ [])
        × (write_from cur a i cs p k
            ≡ some (returns (pos (i + length cs)), after, wakeup (read_chan a) k)))
      ⊎ ((0 < length rest)
          × (n + length sent ≡ pipe_size)
          × (write_from cur a i cs p k ≡ wait_for_room cur a (i + length sent) after k))

write_from_full :
    (cur a i c : ℕ) (cs : List ℕ) (p : Pipe) (k : Kernel)
    → is_full p ≡ true
    → write_from cur a i (c ∷ cs) p k ≡ wait_for_room cur a i p k
unfolding write_from
write_from_full cur a i c cs p k e = rw (e, write_from) refl

write_from_more :
    (cur a i c : ℕ) (cs : List ℕ) (p : Pipe) (k : Kernel)
    → is_full p ≡ false
    → write_from cur a i (c ∷ cs) p k ≡ write_from cur a (i + 1) cs (put_byte c p) k
unfolding write_from
write_from_more cur a i c cs p k e = rw (e, write_from) refl

stores_none :
    (p : Pipe) (n : ℕ) → IsPipe p n → IsPipe p (n + 0) × (contents p (n + 0) ≡ contents p n ++ [])
stores_none p n v =
    let e : n + 0 ≡ n = omega arith in (rw e v, rw e (sym (append_nil (contents p n))))

Wrote-none :
    (cur a i c : ℕ) (cs : List ℕ) (p : Pipe) (n : ℕ) (k : Kernel)
    → IsPipe p n
    → is_full p ≡ true
    → Wrote cur a i (c ∷ cs) p n k
Wrote-none cur a i c cs p n k v full =
    let e : i + 0 ≡ i = omega arith in
    record {
      sent = [];
      rest = c ∷ cs;
      after = p;
      split = refl;
      ring = (stores_none p n v).0;
      stored = (stores_none p n v).1;
      same_ends = (refl, refl);
      ended = inr (
        omega arith,
        ground (arith, full, is_full_iff n p v),
        write_from_full cur a i c cs p k full ∙ rw e refl,
      );
    }

Wrote-more :
    (cur a i c : ℕ) (cs : List ℕ) (p : Pipe) (n : ℕ) (k : Kernel)
    → IsPipe p n
    → is_full p ≡ false
    → n < pipe_size
    → Wrote cur a (i + 1) cs (put_byte c p) (n + 1) k
    → Wrote cur a i (c ∷ cs) p n k
unfolding put_byte
Wrote-more cur a i c cs p n k v more lt w =
    let put = put_byte_back c n p v lt in
    let e : n + suc (length w.sent) ≡ n + 1 + length w.sent = omega arith in
    let to : i + suc (length w.sent) ≡ i + 1 + length w.sent = omega arith in
    let all : i + suc (length cs) ≡ i + 1 + length cs = omega arith in
    record {
      sent = c ∷ w.sent;
      rest = w.rest;
      after = w.after;
      split = ap (λ l. c ∷ l) w.split;
      ring = rw e w.ring;
      stored = rw e (w.stored ∙ rw put.1 (append_assoc (contents p n) (c ∷ []) w.sent));
      same_ends = w.same_ends;
      ended = elim w.ended [
        | inl (none_left, q) ↦ inl (none_left, write_from_more cur a i c cs p k more ∙ rw all q)
        | inr (some_left, full, q) ↦
            inr (some_left, rw e full, write_from_more cur a i c cs p k more ∙ rw to q)
      ];
    }

-- On a ring that is intact `pipewrite` stores the bytes in order behind those in the pipe. It
-- returns their number once all
-- are stored; otherwise the pipe is full, and it gives up or sleeps with the others left.
pub write_from-Wrote :
    (cur a i : ℕ) (cs : List ℕ) (p : Pipe) (n : ℕ) (k : Kernel)
    → IsPipe p n
    → Wrote cur a i cs p n k
unfolding write_from
write_from-Wrote cur a i [] p n k v =
    let e : i + 0 ≡ i = omega arith in
    record {
      sent = [];
      rest = [];
      after = p;
      split = refl;
      ring = (stores_none p n v).0;
      stored = (stores_none p n v).1;
      same_ends = (refl, refl);
      ended = inl (refl, rw e refl);
    }
write_from-Wrote cur a i (c ∷ cs) p n k v = elim (Bool-cases (is_full p)) [
  | inl full ↦ Wrote-none cur a i c cs p n k v full
  | inr more ↦
      let lt : n < pipe_size = ground (arith, more, is_full_iff n p v, v.few) in
      Wrote-more cur a i c cs p n k v more lt
        (write_from-Wrote cur a (i + 1) cs (put_byte c p) (n + 1) k (put_byte_back c n p v lt).0)
]

-- `m` reads from a pipe that holds `n` bytes take the first ones, as many as there are.
pub record Took (m : ℕ) (p : Pipe) (n : ℕ) : Type 0 where
  pub left : ℕ
  pub total : n ≡ length (read_bytes m p).0 + left
  pub remains : IsPipe (read_bytes m p).1 left
  pub front : contents p n ≡ (read_bytes m p).0 ++ contents (read_bytes m p).1 left
  pub enough : (length (read_bytes m p).0 ≡ m) ⊎ ((left ≡ 0) × (length (read_bytes m p).0 ≤ m))

read_bytes_more :
    (m : ℕ) (p : Pipe)
    → is_empty p ≡ false
    → read_bytes (suc m) p
      ≡ ((get_byte p).0 ∷ (read_bytes m (get_byte p).1).0, (read_bytes m (get_byte p).1).1)
unfolding read_bytes
read_bytes_more m p e = rw (e, read_bytes) refl

read_bytes_none : (m : ℕ) (p : Pipe) → is_empty p ≡ true → read_bytes (suc m) p ≡ ([], p)
unfolding read_bytes
read_bytes_none m p e = rw (e, read_bytes) refl

Took-none : (m : ℕ) (p : Pipe) → IsPipe p 0 → Took (suc m) p 0
Took-none m p v =
    let e = read_bytes_none m p (ground (arith, is_empty_iff 0 p v)) in
    record {
      left = 0;
      total = rw e refl;
      remains = rw e v;
      front = rw e refl;
      enough = inr (refl, rw e (omega arith));
    }

Took-more :
    (m : ℕ) (p : Pipe) (n : ℕ) → IsPipe p (suc n) → Took m (get_byte p).1 n → Took (suc m) p (suc n)
Took-more m p n v t =
    let e = read_bytes_more m p (ground (arith, is_empty_iff (suc n) p v)) in
    record {
      left = t.left;
      total = rw e (omega (arith, t.total));
      remains = rw e (t.remains);
      front = rw e ((get_byte_front n p v).1 ∙ ap (λ l. (get_byte p).0 ∷ l) t.front);
      enough = rw e (elim t.enough [
        | inl all ↦ inl (omega (arith, all))
        | inr (none_left, few) ↦ inr (none_left, omega (arith, few))
      ]);
    }

-- The loop of `piperead` for `m` bytes, from a pipe that holds `n`, takes those written first in
-- order, and stops only with all `m` read or the pipe empty; the others stay.
pub read_bytes-Took : (m : ℕ) (p : Pipe) (n : ℕ) → IsPipe p n → Took m p n
unfolding read_bytes
read_bytes-Took zero p n v = record {
  left = n;
  total = omega arith;
  remains = v;
  front = refl;
  enough = inl refl;
}
read_bytes-Took (suc m) p zero v = Took-none m p v
read_bytes-Took (suc m) p (suc n) v =
    Took-more m p n v (read_bytes-Took m (get_byte p).1 n (get_byte_front n p v).0)
