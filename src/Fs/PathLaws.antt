-- ===== src/Fs/PathLaws.antt =====
-- `skipelem` on paths, and the end of the loop of `namex` (fs.c).
use assignment.Prelude.{
  ℕ, zero, suc, ◌≤◌, ◌<◌, ◌≡◌, ◌≢◌, inl, inr, refl, sym, ◌∙◌, ap, Bool, true, false, List, [], ◌∷◌,
  ◌++◌, none, some, arith, Option-cases, if◌then◌else◌, length, replicate, take, drop, leb,
}
use mathlib.Core.Path.{fun_ext}
use assignment.Fs.Monad.{Fs, return, ◌>>◌}
use assignment.Fs.Map.{iput}
use assignment.Fs.File.{Devsw}
use assignment.Fs.Path.{
  slash, skip_slashes, elem_of, after_elem, overlay, store_name, skipelem, is_end, enter, walk,
}

-- A name: it is not empty and has no slash.
abbrev pub HasNoSlash : List ℕ → Type 0
HasNoSlash [] = Unit
HasNoSlash (c ∷ cs) = (c ≢ slash) × HasNoSlash cs

skip_slashes-replicate :
    (n : ℕ) (path : List ℕ) → skip_slashes (replicate n slash ++ path) ≡ skip_slashes path
unfolding skip_slashes
skip_slashes-replicate zero path = refl
skip_slashes-replicate (suc n) path = skip_slashes-replicate n path

elem_of-append : (e rest : List ℕ) → HasNoSlash e → elem_of (e ++ (slash ∷ rest)) ≡ e
unfolding elem_of
elem_of-append [] rest h = refl
elem_of-append (c ∷ e) rest (ne, h) = ground (arith, elem_of-append e rest h)

after_elem-append :
    (e rest : List ℕ) → HasNoSlash e → after_elem (e ++ (slash ∷ rest)) ≡ slash ∷ rest
unfolding after_elem
after_elem-append [] rest h = refl
after_elem-append (c ∷ e) rest (ne, h) = ground (arith, after_elem-append e rest h)

elem_of_whole : (e : List ℕ) → HasNoSlash e → elem_of e ≡ e
unfolding elem_of
elem_of_whole [] h = refl
elem_of_whole (c ∷ e) (ne, h) = ground (arith, elem_of_whole e h)

after_elem_whole : (e : List ℕ) → HasNoSlash e → after_elem e ≡ []
unfolding after_elem
after_elem_whole [] h = refl
after_elem_whole (c ∷ e) (ne, h) = ground (arith, after_elem_whole e h)

skip_slashes_name : (c : ℕ) (cs : List ℕ) → c ≢ slash → skip_slashes (c ∷ cs) ≡ c ∷ cs
unfolding skip_slashes
skip_slashes_name c cs ne = ground arith

skipelem_at :
    (path name cs : List ℕ) (c : ℕ)
    → skip_slashes path ≡ c ∷ cs
    → skipelem path name
      ≡ some (skip_slashes (after_elem (c ∷ cs)), store_name (elem_of (c ∷ cs)) name)
unfolding skipelem
skipelem_at path name cs c e = rw (e, skipelem) refl

skipelem_end : (path name : List ℕ) → skip_slashes path ≡ [] → skipelem path name ≡ none
unfolding skipelem
skipelem_end path name e = rw (e, skipelem) refl

replicate_nil : (n : ℕ) → skip_slashes (replicate n slash) ≡ []
unfolding skip_slashes
replicate_nil zero = refl
replicate_nil (suc n) = replicate_nil n

overlay-take :
    (n : ℕ) (s name : List ℕ) → n ≤ length s → length name ≡ n → overlay (take n s) name ≡ take n s
unfolding overlay
overlay-take zero s [] le e = refl
overlay-take zero s (d ∷ name) le e = absurd (omega (arith, e))
overlay-take (suc n) [] name le e = absurd (omega (arith, le))
overlay-take (suc n) (c ∷ s) [] le e = absurd (omega (arith, e))
overlay-take (suc n) (c ∷ s) (d ∷ name) le e =
    ap (λ l. c ∷ l) (overlay-take n s name (omega (arith, le)) (omega (arith, e)))

overlay_with_zero :
    (s name : List ℕ)
    → length s < length name
    → overlay (s ++ (0 ∷ [])) name ≡ s ++ (0 ∷ drop (suc (length s)) name)
unfolding overlay
overlay_with_zero [] [] lt = absurd (omega (arith, lt))
overlay_with_zero [] (d ∷ name) lt = refl
overlay_with_zero (c ∷ s) [] lt = absurd (omega (arith, lt))
overlay_with_zero (c ∷ s) (d ∷ name) lt =
    ap (λ l. c ∷ l) (overlay_with_zero s name (omega (arith, lt)))

leb_yes : (a b : ℕ) → a ≤ b → leb a b ≡ true
leb_yes a b le = ground (arith, le)

leb_no : (a b : ℕ) → b < a → leb a b ≡ false
leb_no a b lt = ground (arith, lt)

-- A buffer of 14 bytes after a name is stored in it: a long name is cut to 14 bytes, a shorter one
-- has a zero behind it, and the bytes behind that are the old ones.
abbrev pub IsStored : List ℕ → List ℕ → List ℕ → Type 0
IsStored s name name' =
    (14 ≤ length s → name' ≡ take 14 s)
    × (length s < 14 → name' ≡ s ++ (0 ∷ drop (suc (length s)) name))

store_name-IsStored : (s name : List ℕ) → length name ≡ 14 → IsStored s name (store_name s name)
unfolding store_name
store_name-IsStored s name room = (
  λ long. rw (leb_yes 14 (length s) long) (overlay-take 14 s name long room),
  λ short. rw (leb_no 14 (length s) short) (overlay_with_zero s name (omega (arith, short, room))),
)

-- A path that does not start with a slash.
abbrev pub IsBare : List ℕ → Type 0
IsBare [] = Unit
IsBare (c ∷ cs) = c ≢ slash

skip_slashes_bare : (path : List ℕ) → IsBare path → skip_slashes path ≡ path
unfolding skip_slashes
skip_slashes_bare [] h = refl
skip_slashes_bare (c ∷ cs) ne = skip_slashes_name c cs ne

-- With a buffer of 14 bytes, `skipelem` skips any slashes in front, stores the name up to the next
-- slash or the end, cut to 14 bytes or with a zero behind it, and skips the slashes behind it. A
-- path of slashes alone has no name.
pub skipelem_takes :
    (n m c : ℕ) (e rest name : List ℕ)
    → HasNoSlash (c ∷ e)
    → IsBare rest
    → length name ≡ 14
    → (name' : List ℕ) × IsStored (c ∷ e) name name'
      × (skipelem (replicate n slash ++ (c ∷ (e ++ (slash ∷ (replicate m slash ++ rest))))) name
          ≡ some (rest, name'))
      × (skipelem (replicate n slash ++ (c ∷ e)) name ≡ some ([], name'))
      × (skipelem (replicate n slash) name ≡ none)
unfolding skip_slashes
skipelem_takes n m c e rest name (ne, h) bare room =
    let behind = replicate m slash ++ rest in
    let tail = e ++ (slash ∷ behind) in
    (
      store_name (c ∷ e) name,
      store_name-IsStored (c ∷ e) name room,
      skipelem_at _ name tail c (skip_slashes-replicate n (c ∷ tail) ∙ skip_slashes_name c tail ne)
          ∙ ap (λ p. some (skip_slashes p, store_name (elem_of (c ∷ tail)) name))
              (after_elem-append (c ∷ e) behind (ne, h))
          ∙ ap (λ q. some (skip_slashes (slash ∷ behind), store_name q name))
              (elem_of-append (c ∷ e) behind (ne, h))
          ∙ ap (λ p. some (p, store_name (c ∷ e) name))
              (skip_slashes-replicate m rest ∙ skip_slashes_bare rest bare),
      skipelem_at _ name e c (skip_slashes-replicate n (c ∷ e) ∙ skip_slashes_name c e ne)
          ∙ ap (λ p. some (skip_slashes p, store_name (elem_of (c ∷ e)) name))
              (after_elem_whole (c ∷ e) (ne, h))
          ∙ ap (λ q. some (skip_slashes [], store_name q name)) (elem_of_whole (c ∷ e) (ne, h)),
      skipelem_end (replicate n slash) name (replicate_nil n),
    )

length-skip_slashes : (path : List ℕ) → length (skip_slashes path) ≤ length path
unfolding skip_slashes
length-skip_slashes [] = omega arith
length-skip_slashes (c ∷ cs) = ground (arith, length-skip_slashes cs)

length-after_elem : (path : List ℕ) → length (after_elem path) ≤ length path
unfolding after_elem
length-after_elem [] = omega arith
length-after_elem (c ∷ cs) = ground (arith, length-after_elem cs)

skip_slashes_head : (path cs : List ℕ) (c : ℕ) → skip_slashes path ≡ c ∷ cs → c ≢ slash
unfolding skip_slashes
skip_slashes_head [] cs c e = ground (arith, e)
skip_slashes_head (d ∷ path) cs c e = ground (arith, e, skip_slashes_head path cs c)

after_elem_head : (c : ℕ) (cs : List ℕ) → c ≢ slash → length (after_elem (c ∷ cs)) ≤ length cs
unfolding after_elem
after_elem_head c cs ne = ground (arith, length-after_elem cs)

-- Each element makes the path shorter.
skipelem-shorter :
    (path name path' name' : List ℕ)
    → skipelem path name ≡ some (path', name')
    → length path' < length path
skipelem-shorter path name path' name' e = go (skip_slashes path) refl
  where
    go : (l : List ℕ) → skip_slashes path ≡ l → length path' < length path
    go [] q = absurd (ground (arith, e, skipelem_end path name q))
    go (c ∷ cs) q =
        let r : some (skip_slashes (after_elem (c ∷ cs)), store_name (elem_of (c ∷ cs)) name)
            ≡ some (path', name') =
          sym (skipelem_at path name cs c q) ∙ e in
        let s : skip_slashes (after_elem (c ∷ cs)) ≡ path' =
          ap (λ o. elim o [ none ↦ path' | some x ↦ x.0 ]) r in
        omega (
          arith,
          ap (λ l. length l) s,
          ap (λ l. length l) q,
          length-skip_slashes path,
          length-skip_slashes (after_elem (c ∷ cs)),
          after_elem_head c cs (skip_slashes_head path cs c q),
        )

module _ (devsw : Devsw) where
  walk_end :
      (f : ℕ) (parent : Bool) (ip : ℕ) (path name : List ℕ) (s : Fs)
      → skipelem path name ≡ none
      → walk devsw (suc f) parent ip path name s
        ≡ (if parent then (iput ip >> return none) else return (some (ip, name))) s
  unfolding walk
  walk_end f parent ip path name s e = rw (e, walk) refl

  walk_on :
      (f : ℕ) (parent : Bool) (ip : ℕ) (path name path' name' : List ℕ) (s : Fs)
      → skipelem path name ≡ some (path', name')
      → walk devsw (suc f) parent ip path name s
        ≡ enter devsw (λ ip'. walk devsw f parent ip' path' name') parent ip (is_end path') name' s
  unfolding walk
  walk_on f parent ip path name path' name' s e = rw (e, walk) refl

  -- The fuel of the loop of `namex` does not matter once it is above the length of the path: the loop
  -- does not end for want of it.
  pub walk_fuel :
      (f g : ℕ) (parent : Bool) (ip : ℕ) (path name : List ℕ) (s : Fs)
      → length path < f
      → length path < g
      → walk devsw f parent ip path name s ≡ walk devsw g parent ip path name s
  walk_fuel zero g parent ip path name s lf lg = absurd (omega (arith, lf))
  walk_fuel (suc f) zero parent ip path name s lf lg = absurd (omega (arith, lg))
  walk_fuel (suc f) (suc g) parent ip path name s lf lg = elim (Option-cases (skipelem path name)) [
    | inl e ↦ walk_end f parent ip path name s e ∙ sym (walk_end g parent ip path name s e)
    | inr ((path', name'), e) ↦
        let short = skipelem-shorter path name path' name' e in
        walk_on f parent ip path name path' name' s e
        ∙ ap (λ go. enter devsw go parent ip (is_end path') name' s)
            (fun_ext (λ ip'. fun_ext (λ t.
              walk_fuel f g parent ip' path' name' t (omega (arith, short, lf))
                (omega (arith, short, lg)))))
        ∙ sym (walk_on g parent ip path name path' name' s e)
  ]
