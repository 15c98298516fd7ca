-- ===== src/Console/LineLaws.antt =====
-- A line that is typed is the line that is read (console.c).
use assignment.Prelude.{
  ℕ, zero, suc, ◌+◌, ◌-◌, ◌%◌, ◌≤◌, ◌<◌, ◌≡◌, ◌≢◌, refl, sym, ap, subst, ◌∙◌, true, false, ◌&&◌,
  ◌||◌, not, List, [], ◌∷◌, ◌++◌, length-append, pos, arith, ◌==◌, ==_refl, ltb, length,
}
use assignment.Console.Input.{
  Input, next_index, distance, newline, append, insert, handle, consoleintr, returns, read_line,
  consoleread,
}

-- A character that is stored as it is.
pub record IsText (c : ℕ) : Type 0 where
  pub not_null : c ≢ 0
  pub not_end : (c ≢ 4) × (c ≢ 10) × (c ≢ 13)
  pub not_control : (c ≢ 8) × (c ≢ 16) × (c ≢ 21) × (c ≢ 127)

abbrev pub AreText : List ℕ → Type 0
AreText [] = Unit
AreText (c ∷ cs) = IsText c × AreText cs

-- The characters stand in the ring from the index `a` on.
abbrev Holds : (ℕ → ℕ) → ℕ → List ℕ → Type 0
Holds buf a [] = Unit
Holds buf a (c ∷ cs) = (buf (a % 128) ≡ c) × Holds buf (next_index a) cs

-- The state with `k` characters typed.
record Typed (s : Input) (k : ℕ) : Type 0 where
  r_fits : s.r < 4294967296
  e_at : s.e ≡ (s.r + k) % 4294967296

is_false : (c d : ℕ) → c ≢ d → (c == d) ≡ false
is_false c d ne = ground arith

neither : (c d e : ℕ) → c ≢ d → c ≢ e → (c == d || c == e) ≡ false
neither c d e n m = ground arith

has_room :
    (c : ℕ) (s : Input) (k : ℕ)
    → c ≢ 0
    → s.r < 4294967296
    → s.e ≡ (s.r + k) % 4294967296
    → k < 127
    → (not (c == 0) && ltb (distance s.r s.e) 128) ≡ true
has_room c s k ne a b lt = let d : distance s.r s.e < 128 = omega arith in ground (arith, ne, d)

not_full :
    (s : Input) (k : ℕ)
    → s.r < 4294967296
    → s.e ≡ (s.r + k) % 4294967296
    → k < 127
    → (next_index s.e == (s.r + 128) % 4294967296) ≡ false
not_full s k a b lt =
    let ne : next_index s.e ≢ (s.r + 128) % 4294967296 = omega arith in ground (arith, ne)

insert_text :
    (c : ℕ) (s : Input) (k : ℕ) → IsText c → Typed s k → k < 127 → (handle c s).0 ≡ append c s
unfolding handle insert
insert_text c s k t v lt =
    let (n4, n10, n13) = t.not_end in
    let (n8, n16, n21, n127) = t.not_control in
    let n0 = t.not_null in
    let a = v.r_fits in
    let b = v.e_at in
    rw
      (
        is_false c 16 n16,
        is_false c 21 n21,
        neither c 8 127 n8 n127,
        has_room c s k n0 a b lt,
        is_false c 13 n13,
        is_false c 10 n10,
        is_false c 4 n4,
        not_full s k a b lt,
      )
      refl

-- The newline ends the line.
insert_newline :
    (s : Input) (k : ℕ)
    → Typed s k
    → k < 127
    → (handle newline s).0 ≡ record (append newline s) { w = next_index (s.e) }
unfolding handle insert
insert_newline s k v lt =
    let a = v.r_fits in let b = v.e_at in rw (has_room 10 s k (omega arith) a b lt) refl

-- What typing the line `l` leaves, with `k` characters before it.
record Line (s : Input) (k : ℕ) (l : List ℕ) (t : Input) : Type 0 where
  same_r : t.r ≡ s.r
  at_end : t.w ≡ (s.e + length l) % 4294967296
  holds : Holds t.buf s.e l
  kept :
      (j : ℕ) → j < k → t.buf ((s.r + j) % 4294967296 % 128) ≡ s.buf ((s.r + j) % 4294967296 % 128)

append_other :
    (c : ℕ) (s : Input) (k j : ℕ)
    → Typed s k
    → k < 127
    → j < k
    → (append c s).buf ((s.r + j) % 4294967296 % 128) ≡ s.buf ((s.r + j) % 4294967296 % 128)
append_other c s k j v lt less =
    let a = v.r_fits in
    let b = v.e_at in
    let ne : (s.r + j) % 4294967296 % 128 ≢ s.e % 128 = omega arith in
    rw (is_false ((s.r + j) % 4294967296 % 128) (s.e % 128) ne) refl

append_same : (c : ℕ) (s : Input) → (append c s).buf (s.e % 128) ≡ c
append_same c s = rw (==_refl (s.e % 128)) refl

type-Line :
    (cs : List ℕ) (s : Input) (k : ℕ)
    → AreText cs
    → Typed s k
    → k + length cs < 127
    → Line s k (cs ++ (newline ∷ [])) (consoleintr (cs ++ (newline ∷ [])) s).0
unfolding consoleintr
type-Line [] s k t v lt =
    subst (λ u. Line s k (newline ∷ []) u) (sym (insert_newline s k v (omega (arith, lt))))
      (record {
        same_r = refl;
        at_end = refl;
        holds = (append_same newline s, tt);
        kept = λ j less. append_other newline s k j v (omega (arith, lt)) less;
      })
type-Line (c ∷ cs) s k (text, more) v lt =
    let a = v.r_fits in
    let b = v.e_at in
    let s1 : Input = append c s in
    let v1 : Typed s1 (k + 1) = record { r_fits = a; e_at = omega arith } in
    let rest = type-Line cs s1 (k + 1) more v1 (omega (arith, lt)) in
    let l : List ℕ = cs ++ (newline ∷ []) in
    let t : Input = (consoleintr l s1).0 in
    subst (λ u. Line s k (c ∷ l) (consoleintr l u).0)
      (sym (insert_text c s k text v (omega (arith, lt))))
      (record {
        same_r = rest.same_r;
        at_end = rest.at_end ∙ omega arith;
        holds = (
          ap (λ i. t.buf (i % 128)) b
              ∙ rest.kept k (omega arith)
              ∙ ap (λ i. s1.buf (i % 128)) (sym b)
              ∙ append_same c s,
          rest.holds,
        );
        kept = λ j less.
            rest.kept j (omega (arith, less)) ∙ append_other c s k j v (omega (arith, lt)) less;
      })

read_back :
    (cs : List ℕ) (s : Input) (target n : ℕ)
    → AreText cs
    → Holds s.buf s.r (cs ++ (newline ∷ []))
    → s.r < 4294967296
    → s.w ≡ (s.r + length (cs ++ (newline ∷ []))) % 4294967296
    → length cs < 127
    → length cs < n
    → n ≤ target
    → ((read_line false target n s).0 ≡ returns (pos (target - n + (length cs + 1))))
      × ((read_line false target n s).1 ≡ cs ++ (newline ∷ []))
unfolding read_line
read_back cs s target zero t h a b small lt le = absurd (omega (arith, lt))
read_back [] s target (suc n) t (here, rest) a b small lt le =
    let ne : (s.r == s.w) ≡ false = is_false s.r s.w (omega arith) in
    (rw (ne, here) (ap (λ k. returns (pos k)) (omega (arith, le))), rw (ne, here) refl)
read_back (c ∷ cs) s target (suc n) (text, more) (here, rest) a b small lt le =
    let (n4, n10, n13) = text.not_end in
    let long = length-append cs (newline ∷ []) in
    let ne : (s.r == s.w) ≡ false = is_false s.r s.w (omega (arith, long)) in
    let s1 : Input = record s { r = next_index (s.r) } in
    let later : s.w ≡ (s1.r + length (cs ++ (newline ∷ []))) % 4294967296 = omega arith in
    let back =
      read_back cs s1 target n more rest (omega arith) later (omega (arith, small))
        (omega (arith, lt)) (omega (arith, le)) in
    (
      rw (ne, here, is_false c 4 n4, is_false c 10 n10)
          (back.0 ∙ ap (λ k. returns (pos k)) (omega (arith, le))),
      rw (ne, here, is_false c 4 n4, is_false c 10 n10) (ap (λ l. c ∷ l) back.1),
    )

-- At an empty ring, a line of fewer than 127 ordinary characters that is typed with its newline is what
-- the next `consoleread` stores, if there is room for it, and its length is the result.
pub consoleread-consoleintr :
    (cs : List ℕ) (s : Input) (n : ℕ)
    → AreText cs
    → s.r < 4294967296
    → s.e ≡ s.r
    → length cs < 127
    → length cs < n
    → let t = (consoleintr (cs ++ (newline ∷ [])) s).0 in
      ((consoleread false n t).0 ≡ returns (pos (length cs + 1)))
      × ((consoleread false n t).1 ≡ cs ++ (newline ∷ []))
unfolding consoleread
consoleread-consoleintr cs s n text fits empty small room =
    let t : Input = (consoleintr (cs ++ (newline ∷ [])) s).0 in
    let typed =
      type-Line cs s 0 text (record { r_fits = fits; e_at = omega arith }) (omega (arith, small)) in
    let start : s.e ≡ t.r = empty ∙ sym (typed.same_r) in
    let there : Holds t.buf t.r (cs ++ (newline ∷ [])) =
      subst (λ a. Holds t.buf a (cs ++ (newline ∷ []))) start typed.holds in
    let end : t.w ≡ (t.r + length (cs ++ (newline ∷ []))) % 4294967296 =
      typed.at_end ∙ ap (λ a. (a + length (cs ++ (newline ∷ []))) % 4294967296) start in
    let back =
      read_back cs t n n text there (omega (arith, start, empty, fits)) end small room
        (omega arith) in
    (back.0 ∙ ap (λ k. returns (pos k)) (omega arith), back.1)
