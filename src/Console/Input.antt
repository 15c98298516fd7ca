-- ===== src/Console/Input.antt =====
-- `consoleintr` and `consoleread` (console.c) on the ring of 128 characters.
use assignment.Prelude.{
  ℕ, zero, suc, ◌+◌, ◌-◌, ◌%◌, ◌^◌, Bool, ◌&&◌, ◌||◌, not, List, [], ◌∷◌, ◌++◌, ℤ, pos, minus_one,
  ◌==◌, ltb, if◌then◌else◌,
}

-- `input`. The indices are `uint`s that wrap round.
pub record Input : Type 0 where
  pub buf : ℕ → ℕ
  pub r : ℕ
  pub w : ℕ
  pub e : ℕ

-- INPUT_BUF
abbrev pub input_buf : ℕ
input_buf = 128

abbrev pub next_index : ℕ → ℕ
next_index a = (a + 1) % 2 ^ 32

abbrev pub previous_index : ℕ → ℕ
previous_index a = (a + 4294967295) % 2 ^ 32

-- `b - a`, on `uint`s
abbrev pub distance : ℕ → ℕ → ℕ
distance a b = (b + 2 ^ 32 - a) % 2 ^ 32

-- What the handler does besides: a character put on the screen, `procdump`, or the wakeup of readers.
pub data Effect : Type 0 where
  put : ℕ → Effect
  dump : Effect
  wake : Effect

-- BACKSPACE, '\n', and the control characters D, H, P and U
abbrev pub backspace : ℕ
backspace = 256

abbrev pub newline : ℕ
newline = 10

-- The loop of control-U; the edited line has at most 128 characters.
unfoldable pub kill_line : ℕ → Input → Input × List Effect
kill_line zero s = (s, [])
kill_line (suc fuel) s =
    let rest = kill_line fuel (record s { e = previous_index (s.e) }) in
    if not (s.e == s.w) && not (s.buf (previous_index s.e % input_buf) == newline)
    then (rest.0, put backspace ∷ rest.1)
    else (s, [])

-- Backspace.
unfoldable pub erase : Input → Input × List Effect
erase s =
    if s.e == s.w then (s, []) else (record s { e = previous_index (s.e) }, put backspace ∷ [])

-- A character that is stored, '\r' as '\n'.
abbrev pub stored : ℕ → ℕ
stored c = if c == 13 then newline else c

abbrev pub ends_line : ℕ → Input → Bool
ends_line c s = c == newline || (c == 4 || s.e == (s.r + input_buf) % 2 ^ 32)

abbrev pub append : ℕ → Input → Input
append c s = record s {
  buf = λ i. if i == s.e % input_buf then c else s.buf i;
  e = next_index (s.e);
}

-- The `default` branch.
unfoldable pub insert : ℕ → Input → Input × List Effect
insert c s =
    if not (c == 0) && ltb (distance s.r s.e) input_buf
    then (let t = append (stored c) s in
        if ends_line (stored c) t
        then (record t { w = t.e }, put (stored c) ∷ wake ∷ [])
        else (t, put (stored c) ∷ []))
    else (s, [])

-- One round of `consoleintr`.
unfoldable pub handle : ℕ → Input → Input × List Effect
handle c s =
    if c == 16
    then (s, dump ∷ [])
    else (if c == 21
        then kill_line input_buf s
        else (if c == 8 || c == 127 then erase s else insert c s))

-- `consoleintr`, with what `getc` gives until it is negative.
unfoldable pub consoleintr : List ℕ → Input → Input × List Effect
consoleintr [] s = (s, [])
consoleintr (c ∷ cs) s =
    let first = handle c s in let rest = consoleintr cs first.0 in (rest.0, first.1 ++ rest.1)

-- How a read goes on: it returns, or sleeps for more, with the bytes stored so far.
pub data Outcome : Type 0 where
  returns : ℤ → Outcome
  sleeps : Outcome

-- The loop of `consoleread` with `n` bytes left of `target`, and what it stores at `dst`. The lock of
-- the inode is left out.
unfoldable pub read_line : Bool → ℕ → ℕ → Input → Outcome × List ℕ × Input
read_line killed target zero s = (returns (pos target), [], s)
read_line killed target (suc n) s =
    let c = s.buf (s.r % input_buf) in
    let t = record s { r = next_index (s.r) } in
    let rest = read_line killed target n t in
    if s.r == s.w
    then ((if killed then returns minus_one else sleeps), [], s)
    else (if c == 4
        then (returns (pos (target - suc n)), [], if ltb (suc n) target then s else t)
        else (if c == newline
            then (returns (pos (target - n)), c ∷ [], t)
            else (rest.0, c ∷ rest.1, rest.2)))

-- `consoleread` of `n` bytes, `n` from 0 on.
unfoldable pub consoleread : Bool → ℕ → Input → Outcome × List ℕ × Input
consoleread killed n s = read_line killed n n s
