-- ===== src/Shell/ParserLaws.antt =====
-- The parser of sh.c ends on every input.
use assignment.Prelude.{
  ℕ, zero, suc, ◌+◌, ◌≤◌, ◌<◌, ◌≡◌, ◌⊎◌, inl, inr, refl, Bool, true, false, List, [], ◌∷◌, arith,
  ◌==◌, if◌then◌else◌, length,
}
use assignment.Shell.Token.{has, symbols, gettoken, peek}
use assignment.Shell.TokenLaws.{length-gettoken, taken-shorter, length-peek, angles, single}
use assignment.Shell.Parser.{
  Cmd, Parse, parsed, panics, unfinished, P, ◌>>=◌, ◌>>◌, return, panic, redirs_from, parseredirs,
  args_from, parseblock, parseexec, pipe_from, parsepipe, backs_from, backs, line_from, parseline,
  parsecmd, is_empty, backcmd,
}

-- A part that ends leaves at most `n` characters.
abbrev pub Leaves : ℕ → {A : Type 0} → Parse A → Type 0
Leaves n (parsed a s) = length s ≤ n
Leaves n panics = Unit
Leaves n unfinished = ⊥

Leaves-bind :
    {A B : Type 0} (n k : ℕ) (m : P A) (f : A → P B) (s : List ℕ)
    → Leaves n (m s)
    → ((a : A) (t : List ℕ) → length t ≤ n → Leaves k (f a t))
    → Leaves k ((m >>= f) s)
Leaves-bind {A} n k m f s l h = go (m s) l
  where
    go :
        (r : Parse A)
        → Leaves n r
        → Leaves k (elim r [ parsed a t ↦ f a t | panics ↦ panics | unfinished ↦ unfinished ])
    go (parsed a t) l = h a t l
    go panics l = tt
    go unfinished l = l

-- A test that may panic.
Leaves-check :
    {A : Type 0} (k : ℕ) (b : Bool) (m : P A) (s : List ℕ)
    → (b ≡ true → Leaves k (m s))
    → Leaves k (((if b then return tt else panic) >> m) s)
Leaves-check k true m s h = h refl
Leaves-check k false m s h = tt

Leaves-if :
    {A : Type 0} (k : ℕ) (b : Bool) (m n : P A) (s : List ℕ)
    → (b ≡ true → Leaves k (m s))
    → (b ≡ false → Leaves k (n s))
    → Leaves k ((if b then m else n) s)
Leaves-if k true m n s h g = h refl
Leaves-if k false m n s h g = g refl

redirs_from-Leaves :
    (fuel : ℕ) (s : List ℕ) → length s < fuel → Leaves (length s) (redirs_from fuel s)
unfolding redirs_from
redirs_from-Leaves zero s lt = absurd (omega (arith, lt))
redirs_from-Leaves (suc fuel) s lt =
    Leaves-if (length s) (peek (60 ∷ 62 ∷ []) s).0 _ _ (peek (60 ∷ 62 ∷ []) s).1
      (λ e.
        let one = taken-shorter (60 ∷ 62 ∷ []) s angles e in
        let t = (gettoken (peek (60 ∷ 62 ∷ []) s).1).rest in
        let two = length-gettoken t in
        Leaves-check (length s) ((gettoken t).kind == 97) _ (gettoken t).rest (λ q.
          Leaves-bind (length (gettoken t).rest) (length s) (redirs_from fuel) _ (gettoken t).rest
            (redirs_from-Leaves fuel (gettoken t).rest (omega (arith, one, two, lt)))
            (λ rs u le. omega (arith, le, one, two))))
      (λ e. length-peek (60 ∷ 62 ∷ []) s)

Leaves-mono : {A : Type 0} (n k : ℕ) (r : Parse A) → n ≤ k → Leaves n r → Leaves k r
Leaves-mono n k (parsed a t) le l = omega (arith, le, l)
Leaves-mono n k panics le l = tt
Leaves-mono n k unfinished le l = l

Leaves-stop :
    {A : Type 0} (k : ℕ) (b : Bool) (m : P A) (s : List ℕ)
    → Leaves k (m s)
    → Leaves k (((if b then panic else return tt) >> m) s)
Leaves-stop k true m s l = tt
Leaves-stop k false m s l = l

paren : has symbols 40 ≡ true
unfolding has
paren = refl

bar : has symbols 124 ≡ true
unfolding has
bar = refl

ampersand : has symbols 38 ≡ true
unfolding has
ampersand = refl

semicolon : has symbols 59 ≡ true
unfolding has
semicolon = refl

parseredirs-Leaves : (s : List ℕ) → Leaves (length s) (parseredirs s)
unfolding parseredirs
parseredirs-Leaves s = redirs_from-Leaves (length s + 1) s (omega arith)

args_from-Leaves : (left : ℕ) (s : List ℕ) → Leaves (length s) (args_from left s)
unfolding args_from
args_from-Leaves zero s = tt
args_from-Leaves (suc left) s =
    let p = (peek (124 ∷ 41 ∷ 38 ∷ 59 ∷ []) s).1 in
    let seen = length-peek (124 ∷ 41 ∷ 38 ∷ 59 ∷ []) s in
    let t = (gettoken p).rest in
    let le : length t ≤ length s = omega (arith, length-gettoken p, seen) in
    Leaves-if (length s) (peek (124 ∷ 41 ∷ 38 ∷ 59 ∷ []) s).0 _ _ p (λ e. seen)
      (λ e.
        Leaves-if (length s) ((gettoken p).kind == 0) _ _ t (λ z. le)
          (λ z. Leaves-check (length s) ((gettoken p).kind == 97) _ t (λ w.
            Leaves-stop (length s) (left == 0) _ t (
              Leaves-bind (length t) (length s) parseredirs _ t (parseredirs-Leaves t) (λ rs u lu.
                Leaves-bind (length u) (length s) (args_from left) _ u (args_from-Leaves left u)
                  (λ more v lv. omega (arith, lv, lu, le)))))))

-- A parser that ends on every input shorter than `n`.
abbrev Ends : P Cmd → ℕ → Type 0
Ends line n = (s : List ℕ) → length s < n → Leaves (length s) (line s)

module _ (line : P Cmd) (n : ℕ) (ends : Ends line n) where
  parseblock-Leaves : (s : List ℕ) → length s ≤ n → Leaves (length s) (parseblock line s)
  unfolding parseblock
  parseblock-Leaves s le = Leaves-check (length s) (peek (40 ∷ []) s).0 _ (peek (40 ∷ []) s).1 (λ e.
      let t = (gettoken (peek (40 ∷ []) s).1).rest in
      let one : length t < length s = taken-shorter (40 ∷ []) s (single 40 paren) e in
      Leaves-bind (length t) (length s) line _ t (ends t (omega (arith, one, le))) (λ cmd u lu.
        Leaves-check (length s) (peek (41 ∷ []) u).0 _ (peek (41 ∷ []) u).1 (λ q.
          let v = (gettoken (peek (41 ∷ []) u).1).rest in
          Leaves-bind (length v) (length s) parseredirs _ v (parseredirs-Leaves v) (λ rs w lw.
            omega (
              arith,
              lw,
              lu,
              one,
              length-gettoken (peek (41 ∷ []) u).1,
              length-peek (41 ∷ []) u,
            )))))

  parseexec-Leaves : (s : List ℕ) → length s ≤ n → Leaves (length s) (parseexec line s)
  unfolding parseexec
  parseexec-Leaves s le =
      let p = (peek (40 ∷ []) s).1 in
      let seen = length-peek (40 ∷ []) s in
      Leaves-if (length s) (peek (40 ∷ []) s).0 _ _ p
        (λ e.
          Leaves-mono (length p) (length s) (parseblock line p) seen
            (parseblock-Leaves p (omega (arith, seen, le))))
        (λ e. Leaves-bind (length p) (length s) parseredirs _ p (parseredirs-Leaves p) (λ rs t lt.
          Leaves-bind (length t) (length s) (args_from 10) _ t (args_from-Leaves 10 t)
            (λ more u lu. omega (arith, lu, lt, seen))))

  pipe_from-Leaves :
      (fuel : ℕ) (s : List ℕ)
      → length s < fuel
      → length s ≤ n
      → Leaves (length s) (pipe_from line fuel s)
  unfolding pipe_from
  pipe_from-Leaves zero s lt le = absurd (omega (arith, lt))
  pipe_from-Leaves (suc fuel) s lt le =
      Leaves-bind (length s) (length s) (parseexec line) _ s (parseexec-Leaves s le) (λ cmd u lu.
        Leaves-if (length s) (peek (124 ∷ []) u).0 _ _ (peek (124 ∷ []) u).1
          (λ e.
            let t = (gettoken (peek (124 ∷ []) u).1).rest in
            let one : length t < length u = taken-shorter (124 ∷ []) u (single 124 bar) e in
            Leaves-bind (length t) (length s) (pipe_from line fuel) _ t
              (pipe_from-Leaves fuel t (omega (arith, one, lu, lt)) (omega (arith, one, lu, le)))
              (λ right v lv. omega (arith, lv, one, lu)))
          (λ e. omega (arith, lu, length-peek (124 ∷ []) u)))

backs_from-Leaves :
    (fuel : ℕ) (cmd : Cmd) (s : List ℕ)
    → length s < fuel
    → Leaves (length s) (backs_from fuel cmd s)
unfolding backs_from
backs_from-Leaves zero cmd s lt = absurd (omega (arith, lt))
backs_from-Leaves (suc fuel) cmd s lt =
    Leaves-if (length s) (peek (38 ∷ []) s).0 _ _ (peek (38 ∷ []) s).1
      (λ e.
        let t = (gettoken (peek (38 ∷ []) s).1).rest in
        let one : length t < length s = taken-shorter (38 ∷ []) s (single 38 ampersand) e in
        Leaves-mono (length t) (length s) (backs_from fuel (backcmd cmd) t) (omega (arith, one))
          (backs_from-Leaves fuel (backcmd cmd) t (omega (arith, one, lt))))
      (λ e. length-peek (38 ∷ []) s)

line_from-Leaves : (fuel : ℕ) (s : List ℕ) → length s < fuel → Leaves (length s) (line_from fuel s)
unfolding line_from parsepipe backs
line_from-Leaves zero s lt = absurd (omega (arith, lt))
line_from-Leaves (suc fuel) s lt =
    let ends : Ends (line_from fuel) (length s) =
      λ t less. line_from-Leaves fuel t (omega (arith, less, lt)) in
    Leaves-bind (length s) (length s) (parsepipe (line_from fuel) >>= backs) _ s
      (Leaves-bind (length s) (length s) (parsepipe (line_from fuel)) backs s
        (pipe_from-Leaves (line_from fuel) (length s) ends (length s + 1) s (omega arith)
          (omega arith))
        (λ cmd t lt'.
          Leaves-mono (length t) (length s) (backs cmd t) lt'
            (backs_from-Leaves (length t + 1) cmd t (omega arith))))
      (λ cmd u lu.
        Leaves-if (length s) (peek (59 ∷ []) u).0 _ _ (peek (59 ∷ []) u).1
          (λ e.
            let t = (gettoken (peek (59 ∷ []) u).1).rest in
            let one : length t < length u = taken-shorter (59 ∷ []) u (single 59 semicolon) e in
            Leaves-bind (length t) (length s) (line_from fuel) _ t (ends t (omega (arith, one, lu)))
              (λ right v lv. omega (arith, lv, one, lu)))
          (λ e. omega (arith, lu, length-peek (59 ∷ []) u)))

parsecmd-Leaves : (s : List ℕ) → Leaves 0 (parsecmd s)
unfolding parsecmd parseline
parsecmd-Leaves s =
    Leaves-bind (length s) 0 parseline _ s (line_from-Leaves (length s + 1) s (omega arith))
      (λ cmd t le. all_read cmd (peek [] t).1)
  where
    all_read : (cmd : Cmd) (u : List ℕ) → Leaves 0 (if is_empty u then parsed cmd u else panics)
    all_read cmd [] = omega arith
    all_read cmd (c ∷ u) = tt

-- On every input the parser of the shell ends: it makes a command of the whole input, or panics.
pub parsecmd_ends :
    (s : List ℕ) → ((cmd : Cmd) × (parsecmd s ≡ parsed cmd [])) ⊎ (parsecmd s ≡ panics)
parsecmd_ends s = go (parsecmd s) refl (parsecmd-Leaves s)
  where
    go :
        (r : Parse Cmd)
        → parsecmd s ≡ r
        → Leaves 0 r
        → ((cmd : Cmd) × (parsecmd s ≡ parsed cmd [])) ⊎ (parsecmd s ≡ panics)
    go (parsed cmd []) e l = inl (cmd, e)
    go (parsed cmd (c ∷ t)) e l = absurd (omega (arith, l))
    go panics e l = inr e
    go unfinished e l = absurd l
