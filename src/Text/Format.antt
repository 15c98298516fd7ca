-- ===== src/Text/Format.antt =====
-- `printf` (printf.c) and `cprintf` (console.c). The arguments are the words above the format on the
-- stack, and `mem` is the memory for the strings among them: the characters before the zero.
use assignment.Prelude.{
  ℕ, ◌+◌, ◌%◌, Bool, true, false, ◌||◌, List, [], ◌∷◌, ◌++◌, ◌==◌, if◌then◌else◌,
}
use assignment.Text.Number.{printint, console_printint}

-- '%', 'c', 'd', 'p', 's', 'x'
abbrev pub percent : ℕ
percent = 37

-- `if((s = (char*)*argp++) == 0) s = "(null)";`
abbrev pub string_at : (ℕ → List ℕ) → ℕ → List ℕ
string_at mem a = if a == 0 then 40 ∷ 110 ∷ 117 ∷ 108 ∷ 108 ∷ 41 ∷ [] else mem a

module _ (args : ℕ → ℕ) (mem : ℕ → List ℕ) where
  -- The loop of `printf`; `state` is true behind a '%', and `k` arguments are used.
  unfoldable pub printf_from : Bool → ℕ → List ℕ → List ℕ
  printf_from state k [] = []
  printf_from false k (c ∷ fmt) =
      let plain = printf_from false k fmt in
      let behind = printf_from true k fmt in if c == percent then behind else c ∷ plain
  printf_from true k (c ∷ fmt) =
      let used = printf_from false (k + 1) fmt in
      let unused = printf_from false k fmt in
      if c == 100
      then printint (args k) 10 true ++ used
      else (if c == 120 || c == 112
          then printint (args k) 16 false ++ used
          else (if c == 115
              then string_at mem (args k) ++ used
              else (if c == 99
                  then (args k % 256) ∷ used
                  else (if c == percent then percent ∷ unused else percent ∷ c ∷ unused))))

  unfoldable pub printf : List ℕ → List ℕ
  printf fmt = printf_from false 0 fmt

  -- The loop of `cprintf`.
  unfoldable pub cprintf_from : ℕ → List ℕ → List ℕ
  cprintf_from k [] = []
  cprintf_from k (c ∷ []) = if c == percent then [] else c ∷ []
  cprintf_from k (c ∷ d ∷ fmt) =
      let plain = cprintf_from k (d ∷ fmt) in
      let used = cprintf_from (k + 1) fmt in
      let unused = cprintf_from k fmt in
      if c == percent
      then (if d == 100
          then console_printint (args k) 10 true ++ used
          else (if d == 120 || d == 112
              then console_printint (args k) 16 false ++ used
              else (if d == 115
                  then string_at mem (args k) ++ used
                  else (if d == percent then percent ∷ unused else percent ∷ d ∷ unused))))
      else c ∷ plain

  unfoldable pub cprintf : List ℕ → List ℕ
  cprintf fmt = cprintf_from 0 fmt
