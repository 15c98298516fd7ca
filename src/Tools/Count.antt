-- ===== src/Tools/Count.antt =====
-- wc.c, `wc`, and ls.c, `fmtname`. The counts are below the bound of `int`.
use assignment.Prelude.{
  ℕ, ◌+◌, ◌-◌, Bool, true, false, List, [], ◌∷◌, ◌++◌, none, some, ◌==◌, leb, if◌then◌else◌, length,
  replicate,
}
use assignment.Text.Ulib.{strchr}

-- The variables of `wc`.
pub record Counts : Type 0 where
  pub lines : ℕ
  pub words : ℕ
  pub chars : ℕ
  pub inword : Bool

-- " \r\t\n\v", with its zero
abbrev spaces : List ℕ
spaces = 32 ∷ 13 ∷ 9 ∷ 10 ∷ 11 ∷ 0 ∷ []

-- `strchr(" \r\t\n\v", c)` is no null pointer.
unfoldable pub is_space : ℕ → Bool
is_space c = elim (strchr spaces c) [
  | none ↦ false
  | some r ↦ elim r [ none ↦ false | some i ↦ true ]
]

unfoldable pub count_word : ℕ → Counts → Counts
count_word c k =
    if is_space c
    then record k { inword = false }
    else (if k.inword then k else record k { words = k.words + 1; inword = true })

-- The body of the inner loop.
unfoldable pub count_byte : ℕ → Counts → Counts
count_byte c k =
    count_word c
      (record k { chars = k.chars + 1; lines = if c == 10 then k.lines + 1 else k.lines })

unfoldable pub count_bytes : List ℕ → Counts → Counts
count_bytes [] k = k
count_bytes (c ∷ buf) k = count_bytes buf (count_byte c k)

unfoldable pub count_reads : List (List ℕ) → Counts → Counts
count_reads [] k = k
count_reads (buf ∷ reads) k = count_reads reads (count_bytes buf k)

-- `wc`, without its errors: the list has the bytes of each `read`.
unfoldable pub wc : List (List ℕ) → Counts
wc reads = count_reads reads (record { lines = 0; words = 0; chars = 0; inword = false })

-- DIRSIZ
abbrev dirsiz : ℕ
dirsiz = 14

-- What stands behind the last slash, of a string without its zero.
unfoldable pub last_name : List ℕ → List ℕ → List ℕ
last_name name [] = name
last_name name (c ∷ path) = if c == 47 then last_name path path else last_name name path

-- `fmtname`: the name is padded with blanks up to DIRSIZ.
unfoldable pub fmtname : List ℕ → List ℕ
fmtname path =
    let p = last_name path path in
    if leb dirsiz (length p) then p else p ++ replicate (dirsiz - length p) 32
