-- ===== src/Tools/RegexLaws.antt =====
-- The matcher of grep.c finds the regular language that its pattern denotes.
use assignment.Prelude.{
  ℕ, ◌≡◌, refl, sym, ap, ◌∙◌, ◌↔◌, inl, inr, Bool, true, false, List, [], ◌∷◌, ◌++◌, arith, ◌==◌,
  if◌then◌else◌, Bool-cases, append_assoc,
}
use assignment.Tools.Regex.{
  caret, dollar, asterisk, accepts, is_empty, star_loop, one_byte, matchhere, search_from, match,
}

-- One byte of the pattern, with or without a star behind it.
pub data Item : Type 0 where
  one : ℕ → Item
  star : ℕ → Item

-- The items of a pattern without its `^`, up to a last `$`.
abbrev pub items : List ℕ → List Item
items [] = []
items (c ∷ []) = if c == dollar then [] else one c ∷ []
items (c ∷ d ∷ re) =
    let starred = items re in
    let single = items (d ∷ re) in if d == asterisk then star c ∷ starred else one c ∷ single

-- The pattern ends in a `$` of its own.
abbrev pub at_end : List ℕ → Bool
at_end [] = false
at_end (c ∷ []) = c == dollar
at_end (c ∷ d ∷ re) =
    let starred = at_end re in
    let single = at_end (d ∷ re) in if d == asterisk then starred else single

abbrev pub All : (ℕ → Bool) → List ℕ → Type 0
All p [] = Unit
All p (t ∷ w) = (p t ≡ true) × All p w

-- The language of a list of items: concatenation, and repetition for a star.
abbrev pub Denotes : List Item → List ℕ → Type 0
Denotes [] w = w ≡ []
Denotes (one c ∷ p) w = (t : ℕ) × (v : List ℕ) × (w ≡ t ∷ v) × (accepts c t ≡ true) × Denotes p v
Denotes (star c ∷ p) w =
    (u : List ℕ) × (v : List ℕ) × (w ≡ u ++ v) × All (accepts c) u × Denotes p v

-- `text` begins with a word of the pattern, and ends with it where the pattern has its `$`.
abbrev pub Begins : List Item → Bool → List ℕ → Type 0
Begins p end text =
    (v : List ℕ) × (w : List ℕ) × (text ≡ v ++ w) × Denotes p v × (end ≡ true → w ≡ [])

-- A repetition of `c`, then something that satisfies `P`.
abbrev Repeats : (List ℕ → Type 0) → ℕ → List ℕ → Type 0
Repeats P c text = (u : List ℕ) × (s : List ℕ) × (text ≡ u ++ s) × All (accepts c) u × P s

module _ (rest : List ℕ → Bool) (P : List ℕ → Type 0)
    (decides : (s : List ℕ) → (rest s ≡ true) ↔ P s) where
  star_loop→Repeats : (c : ℕ) (text : List ℕ) → star_loop rest c text ≡ true → Repeats P c text
  unfolding star_loop
  star_loop→Repeats c [] h = ([], [], refl, tt, (decides []).0 h)
  star_loop→Repeats c (t ∷ text) h = elim (Bool-cases (rest (t ∷ text))) [
    | inl r ↦ ([], t ∷ text, refl, tt, (decides (t ∷ text)).0 r)
    | inr r ↦
        let (u, s, e, all, d) = star_loop→Repeats c text (ground arith) in
        (t ∷ u, s, ap (λ l. t ∷ l) e, (ground arith, all), d)
  ]

  Repeats→star_loop :
      (c : ℕ) (text u s : List ℕ)
      → text ≡ u ++ s
      → All (accepts c) u
      → P s
      → star_loop rest c text ≡ true
  unfolding star_loop
  Repeats→star_loop c [] [] [] e all d = (decides []).1 d
  Repeats→star_loop c [] [] (t ∷ s) e all d = ground arith
  Repeats→star_loop c [] (t ∷ u) s e all d = ground arith
  Repeats→star_loop c (t ∷ text) [] s e all d = let r = (decides s).1 d in rw (e, r) refl
  Repeats→star_loop c (t ∷ text) (x ∷ u) s e all d =
      let onward = Repeats→star_loop c text u s (ground arith) all.1 d in
      let ok = all.0 in ground arith

module _ (rest : List ℕ → Bool) (p : List Item) (end : Bool)
    (decides : (s : List ℕ) → (rest s ≡ true) ↔ Begins p end s) where
  one_byte_iff :
      (c : ℕ) (text : List ℕ) → (one_byte rest c text ≡ true) ↔ Begins (one c ∷ p) end text
  unfolding one_byte
  one_byte_iff c [] = (
    λ h. absurd (ground arith),
    λ (v, w, e, (t, v', e', _, _), _). absurd (ground (arith, e, e')),
  )
  one_byte_iff c (t ∷ text) = (
    λ h.
        let (v, w, e, d, ends) = (decides text).0 (ground arith) in
        (t ∷ v, w, ap (λ l. t ∷ l) e, (t, v, refl, ground arith, d), ends),
    λ (v, w, e, (t', v', e', ok, d), ends).
        let parts : t ∷ text ≡ t' ∷ (v' ++ w) = e ∙ ap (λ l. l ++ w) e' in
        let found : rest text ≡ true = (decides text).1 (v', w, ground arith, d, ends) in
        ground (arith, parts, ok),
  )

  star_loop_iff :
      (c : ℕ) (text : List ℕ) → (star_loop rest c text ≡ true) ↔ Begins (star c ∷ p) end text
  star_loop_iff c text = (
    λ h.
        let (u, s, e, all, (v, w, e', d, ends)) =
          star_loop→Repeats rest (Begins p end) decides c text h in
        (u ++ v, w, e ∙ ap (λ l. u ++ l) e' ∙ sym (append_assoc u v w), (u, v, refl, all, d), ends),
    λ (x, w, e, (u, v, e', all, d), ends).
        Repeats→star_loop rest (Begins p end) decides c text u (v ++ w)
          (e ∙ ap (λ l. l ++ w) e' ∙ append_assoc u v w) all (v, w, refl, d, ends),
  )

is_empty_iff : (text : List ℕ) → (is_empty text ≡ true) ↔ Begins [] true text
is_empty_iff [] = (λ h. ([], [], refl, refl, λ e. refl), λ d. refl)
is_empty_iff (t ∷ text) =
    (λ h. absurd (ground arith), λ (v, w, e, e', ends). absurd (ground (arith, e, e', ends refl)))

matchhere_iff : (re text : List ℕ) → (matchhere re text ≡ true) ↔ Begins (items re) (at_end re) text
unfolding matchhere
matchhere_iff [] text = (λ h. ([], text, refl, refl, λ e. absurd (ground arith)), λ d. refl)
matchhere_iff (c ∷ []) text = elim (Bool-cases (c == dollar)) [
  | inl q ↦ rw q (is_empty_iff text)
  | inr q ↦ rw q (one_byte_iff (matchhere []) [] false (matchhere_iff []) c text)
]
matchhere_iff (c ∷ d ∷ re) text = elim (Bool-cases (d == asterisk)) [
  | inl q ↦ rw q (star_loop_iff (matchhere re) (items re) (at_end re) (matchhere_iff re) c text)
  | inr q ↦ rw q (
      one_byte_iff (matchhere (d ∷ re)) (items (d ∷ re)) (at_end (d ∷ re)) (matchhere_iff (d ∷ re))
        c text)
]

-- What a pattern means: its `^`, if it begins with one, and the rest.
abbrev pub anchored : List ℕ → Bool
anchored [] = false
anchored (c ∷ re) = c == caret

abbrev pub body : List ℕ → List ℕ
body [] = []
body (c ∷ re) = if c == caret then re else c ∷ re

-- Somewhere in the text, at its start where the pattern has its `^`, a word of the pattern begins.
abbrev pub Selects : List ℕ → List ℕ → Type 0
Selects re text =
    (u : List ℕ) × (s : List ℕ) × (text ≡ u ++ s)
    × (anchored re ≡ true → u ≡ [])
    × Begins (items (body re)) (at_end (body re)) s

search_from→Begins :
    (re text : List ℕ)
    → search_from re text ≡ true
    → (u : List ℕ) × (s : List ℕ) × (text ≡ u ++ s) × Begins (items re) (at_end re) s
unfolding search_from
search_from→Begins re [] h = ([], [], refl, (matchhere_iff re []).0 h)
search_from→Begins re (t ∷ text) h = elim (Bool-cases (matchhere re (t ∷ text))) [
  | inl r ↦ ([], t ∷ text, refl, (matchhere_iff re (t ∷ text)).0 r)
  | inr r ↦
      let (u, s, e, d) = search_from→Begins re text (ground arith) in
      (t ∷ u, s, ap (λ l. t ∷ l) e, d)
]

Begins→search_from :
    (re text u s : List ℕ)
    → text ≡ u ++ s
    → Begins (items re) (at_end re) s
    → search_from re text ≡ true
unfolding search_from
Begins→search_from re [] [] s e d = let r = (matchhere_iff re s).1 d in rw (e, r) refl
Begins→search_from re [] (x ∷ u) s e d = absurd (ground arith)
Begins→search_from re (t ∷ text) [] s e d = let r = (matchhere_iff re s).1 d in rw (e, r) refl
Begins→search_from re (t ∷ text) (x ∷ u) s e d =
    let onward = Begins→search_from re text u s (ground arith) d in ground arith

-- `match` answers one exactly on the texts that hold a word of the regular language its pattern
-- denotes, at the start after a `^`, at the end before a `$`.
pub match_iff : (re text : List ℕ) → (match re text ≡ true) ↔ Selects re text
unfolding match
match_iff [] text = (
  λ h. let (u, s, e, d) = search_from→Begins [] text h in (u, s, e, λ f. absurd (ground arith), d),
  λ (u, s, e, _, d). Begins→search_from [] text u s e d,
)
match_iff (c ∷ re) text = elim (Bool-cases (c == caret)) [
  | inl q ↦ rw q (
    λ h. ([], text, refl, λ _. refl, (matchhere_iff re text).0 h),
    λ (u, s, e, start, d).
        let whole : text ≡ s = e ∙ ap (λ l. l ++ s) (start refl) in
        let found = (matchhere_iff re s).1 d in rw (whole, found) refl,
  )
  | inr q ↦ rw q (
    λ h.
        let (u, s, e, d) = search_from→Begins (c ∷ re) text h in
        (u, s, e, λ f. absurd (ground arith), d),
    λ (u, s, e, _, d). Begins→search_from (c ∷ re) text u s e d,
  )
]
