-- ===== src/Shell/Parser.antt =====
-- The recursive descent of sh.c. The words of a command are the characters from `argv[i]` to
-- `eargv[i]`, which `nulterminate` ends with a zero.
use assignment.Prelude.{
  ℕ, zero, suc, ◌+◌, Bool, true, false, List, [], ◌∷◌, ◌++◌, ◌==◌, if◌then◌else◌, length,
}
use assignment.Shell.Token.{Token, gettoken, peek}

-- `struct execcmd`, `redircmd`, `pipecmd`, `listcmd` and `backcmd`, made by the functions of these names
pub data Cmd : Type 0 where
  execcmd : List (List ℕ) → Cmd
  redircmd : Cmd → (file : List ℕ) → (mode fd : ℕ) → Cmd
  pipecmd listcmd : Cmd → Cmd → Cmd
  backcmd : Cmd → Cmd

-- What a part of the parser comes to: a result with the input that is left, a panic, or the end of its
-- fuel.
pub data Parse (A : Type 0) : Type 0 where
  parsed : A → List ℕ → Parse A
  panics : Parse A
  unfinished : Parse A

abbrev pub P : Type 0 → Type 0
P A = List ℕ → Parse A

infixl 5 ◌>>=◌ ◌>>◌
abbrev pub ◌>>=◌ : {A B : Type 0} → P A → (A → P B) → P B
◌>>=◌ m f s = elim (m s) [ parsed a t ↦ f a t | panics ↦ panics | unfinished ↦ unfinished ]

abbrev pub ◌>>◌ : {A B : Type 0} → P A → P B → P B
m >> k = m >>= λ _. k

abbrev pub return : {A : Type 0} → A → P A
return a s = parsed a s

abbrev pub panic : {A : Type 0} → P A
panic s = panics

abbrev pub take_token : P Token
take_token s = parsed (gettoken s) (gettoken s).rest

abbrev pub sees : List ℕ → P Bool
sees toks s = parsed (peek toks s).0 (peek toks s).1

-- A redirection: the file, O_RDONLY or O_WRONLY|O_CREATE, and the descriptor.
pub record Redir : Type 0 where
  pub file : List ℕ
  pub mode : ℕ
  pub fd : ℕ

abbrev pub redir : ℕ → List ℕ → Redir
redir kind file =
    if kind == 60
    then record { file = file; mode = 0; fd = 0 }
    else record { file = file; mode = 513; fd = 1 }

-- The commands that `redircmd` makes around a command, the last one outermost.
unfoldable pub redirected : List Redir → Cmd → Cmd
redirected [] cmd = cmd
redirected (r ∷ rs) cmd = redirected rs (redircmd cmd r.file r.mode r.fd)

-- The loop of `parseredirs`: the redirections in their order.
unfoldable pub redirs_from : ℕ → P (List Redir)
redirs_from zero s = unfinished
redirs_from (suc fuel) s =
    (sees (60 ∷ 62 ∷ []) >>= λ more.
    if more
    then (do
      t ← take_token
      f ← take_token
      if f.kind == 97 then return tt else panic
      rs ← redirs_from fuel
      return (redir t.kind f.text ∷ rs))
    else return [])
      s

unfoldable pub parseredirs : P (List Redir)
parseredirs s = redirs_from (length s + 1) s

-- The loop of `parseexec` with room for `left` words before MAXARGS is reached.
unfoldable pub args_from : ℕ → P (List (List ℕ) × List Redir)
args_from zero s = panics
args_from (suc left) s =
    (sees (124 ∷ 41 ∷ 38 ∷ 59 ∷ []) >>= λ stop. if stop then return ([], []) else (do
      t ← take_token
      if t.kind == 0 then return ([], []) else (do
        if t.kind == 97 then return tt else panic
        if left == 0 then panic else return tt
        rs ← parseredirs
        more ← args_from left
        return (t.text ∷ more.0, rs ++ more.1))))
      s

-- `parseblock`; `line` is `parseline`.
unfoldable pub parseblock : P Cmd → P Cmd
parseblock line = do
  open_paren ← sees (40 ∷ [])
  if open_paren then return tt else panic
  take_token
  cmd ← line
  closed ← sees (41 ∷ [])
  if closed then return tt else panic
  take_token
  rs ← parseredirs
  return (redirected rs cmd)

unfoldable pub parseexec : P Cmd → P Cmd
parseexec line = do
  block ← sees (40 ∷ [])
  if block then parseblock line else (do
    rs ← parseredirs
    more ← args_from 10
    return (redirected (rs ++ more.1) (execcmd (more.0))))

-- `parsepipe`
unfoldable pub pipe_from : P Cmd → ℕ → P Cmd
pipe_from line zero s = unfinished
pipe_from line (suc fuel) s =
    (parseexec line >>= λ cmd. sees (124 ∷ []) >>= λ bar.
    if bar
    then (do take_token; right ← pipe_from line fuel; return (pipecmd cmd right))
    else return cmd)
      s

unfoldable pub parsepipe : P Cmd → P Cmd
parsepipe line s = pipe_from line (length s + 1) s

-- The loop of `parseline` over '&'.
unfoldable pub backs_from : ℕ → Cmd → P Cmd
backs_from zero cmd s = unfinished
backs_from (suc fuel) cmd s =
    (sees (38 ∷ []) >>= λ back.
    if back then (take_token >> backs_from fuel (backcmd cmd)) else return cmd)
      s

unfoldable pub backs : Cmd → P Cmd
backs cmd s = backs_from (length s + 1) cmd s

-- `parseline`; one unit of fuel for each line inside a line.
unfoldable pub line_from : ℕ → P Cmd
line_from zero s = unfinished
line_from (suc fuel) s =
    (parsepipe (line_from fuel) >>= backs >>= λ cmd. sees (59 ∷ []) >>= λ semi.
    if semi
    then (do take_token; right ← line_from fuel; return (listcmd cmd right))
    else return cmd)
      s

unfoldable pub parseline : P Cmd
parseline s = line_from (length s + 1) s

abbrev pub is_empty : List ℕ → Bool
is_empty [] = true
is_empty (c ∷ s) = false

-- `parsecmd`, which panics at leftovers.
unfoldable pub parsecmd : P Cmd
parsecmd = do cmd ← parseline; sees []; λ s. if is_empty s then parsed cmd s else panics
