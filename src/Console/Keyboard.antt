-- ===== src/Console/Keyboard.antt =====
-- kbd.c and kbd.h: from the codes of the keyboard to characters. A character is a byte, and a control
-- character `C(x)` is `x - 64` as one.
use assignment.Prelude.{
  ℕ, ◌+◌, ◌-◌, Bool, true, false, ◌&&◌, ◌||◌, not, List, [], ◌∷◌, none, some, ◌==◌, leb,
  if◌then◌else◌, get_elem?,
}
use assignment.Console.Input.{Input, Effect, consoleintr}

-- The bits of `shift`, and of the entries of `shiftcode` and `togglecode`.
pub record Shift : Type 0 where
  pub shift : Bool
  pub ctl : Bool
  pub alt : Bool
  pub capslock : Bool
  pub numlock : Bool
  pub scrolllock : Bool
  pub e0esc : Bool

abbrev pub is_shift : ℕ → Bool
is_shift code = code == 0x2A || code == 0x36

abbrev pub is_ctl : ℕ → Bool
is_ctl code = code == 0x1D || code == 0x9D

abbrev pub is_alt : ℕ → Bool
is_alt code = code == 0x38 || code == 0xB8

-- The first entries of `normalmap`, `shiftmap` and `ctlmap`.
abbrev normal_keys : List ℕ
normal_keys =
    0 ∷ 27 ∷ 49 ∷ 50 ∷ 51 ∷ 52 ∷ 53 ∷ 54 ∷ 55 ∷ 56 ∷ 57 ∷ 48 ∷ 45 ∷ 61 ∷ 8 ∷ 9 ∷ 113 ∷ 119 ∷ 101
    ∷ 114 ∷ 116 ∷ 121 ∷ 117 ∷ 105 ∷ 111 ∷ 112 ∷ 91 ∷ 93 ∷ 10 ∷ 0 ∷ 97 ∷ 115 ∷ 100 ∷ 102 ∷ 103 ∷ 104
    ∷ 106 ∷ 107 ∷ 108 ∷ 59 ∷ 39 ∷ 96 ∷ 0 ∷ 92 ∷ 122 ∷ 120 ∷ 99 ∷ 118 ∷ 98 ∷ 110 ∷ 109 ∷ 44 ∷ 46 ∷ 47
    ∷ 0 ∷ 42 ∷ 0 ∷ 32 ∷ 0 ∷ 0 ∷ 0 ∷ 0 ∷ 0 ∷ 0 ∷ 0 ∷ 0 ∷ 0 ∷ 0 ∷ 0 ∷ 0 ∷ 0 ∷ 55 ∷ 56 ∷ 57 ∷ 45 ∷ 52
    ∷ 53 ∷ 54 ∷ 43 ∷ 49 ∷ 50 ∷ 51 ∷ 48 ∷ 46 ∷ 0 ∷ 0 ∷ 0 ∷ 0 ∷ []

abbrev shift_keys : List ℕ
shift_keys =
    0 ∷ 27 ∷ 33 ∷ 64 ∷ 35 ∷ 36 ∷ 37 ∷ 94 ∷ 38 ∷ 42 ∷ 40 ∷ 41 ∷ 95 ∷ 43 ∷ 8 ∷ 9 ∷ 81 ∷ 87 ∷ 69 ∷ 82
    ∷ 84 ∷ 89 ∷ 85 ∷ 73 ∷ 79 ∷ 80 ∷ 123 ∷ 125 ∷ 10 ∷ 0 ∷ 65 ∷ 83 ∷ 68 ∷ 70 ∷ 71 ∷ 72 ∷ 74 ∷ 75 ∷ 76
    ∷ 58 ∷ 34 ∷ 126 ∷ 0 ∷ 124 ∷ 90 ∷ 88 ∷ 67 ∷ 86 ∷ 66 ∷ 78 ∷ 77 ∷ 60 ∷ 62 ∷ 63 ∷ 0 ∷ 42 ∷ 0 ∷ 32
    ∷ 0 ∷ 0 ∷ 0 ∷ 0 ∷ 0 ∷ 0 ∷ 0 ∷ 0 ∷ 0 ∷ 0 ∷ 0 ∷ 0 ∷ 0 ∷ 55 ∷ 56 ∷ 57 ∷ 45 ∷ 52 ∷ 53 ∷ 54 ∷ 43 ∷ 49
    ∷ 50 ∷ 51 ∷ 48 ∷ 46 ∷ 0 ∷ 0 ∷ 0 ∷ 0 ∷ []

abbrev ctl_keys : List ℕ
ctl_keys =
    0 ∷ 0 ∷ 0 ∷ 0 ∷ 0 ∷ 0 ∷ 0 ∷ 0 ∷ 0 ∷ 0 ∷ 0 ∷ 0 ∷ 0 ∷ 0 ∷ 0 ∷ 0 ∷ 17 ∷ 23 ∷ 5 ∷ 18 ∷ 20 ∷ 25 ∷ 21
    ∷ 9 ∷ 15 ∷ 16 ∷ 0 ∷ 0 ∷ 13 ∷ 0 ∷ 1 ∷ 19 ∷ 4 ∷ 6 ∷ 7 ∷ 8 ∷ 10 ∷ 11 ∷ 12 ∷ 0 ∷ 0 ∷ 0 ∷ 0 ∷ 28 ∷ 26
    ∷ 24 ∷ 3 ∷ 22 ∷ 2 ∷ 14 ∷ 13 ∷ 0 ∷ 0 ∷ 239 ∷ 0 ∷ 0 ∷ []

-- The others of them, which differ at two keys of the keypad.
unfoldable pub keypad : (enter slash : ℕ) → ℕ → ℕ
keypad enter slash code =
    if code == 0x9C
    then enter
    else if code == 0xB5
    then slash
    else if code == 0xC8
    then 0xE2
    else if code == 0xD0
    then 0xE3
    else if code == 0xC9
    then 0xE6
    else if code == 0xD1
    then 0xE7
    else if code == 0xCB
    then 0xE4
    else if code == 0xCD
    then 0xE5
    else if code == 0x97
    then 0xE0
    else if code == 0xCF
    then 0xE1
    else if code == 0xD2
    then 0xE8
    else if code == 0xD3
    then 0xE9
    else 0

abbrev look_up : List ℕ → (enter slash : ℕ) → ℕ → ℕ
look_up keys enter slash code = elim (get_elem? keys code) [
  | none ↦ keypad enter slash code
  | some c ↦ c
]

unfoldable pub normalmap : ℕ → ℕ
normalmap = look_up normal_keys 10 47

unfoldable pub shiftmap : ℕ → ℕ
shiftmap = look_up shift_keys 10 47

unfoldable pub ctlmap : ℕ → ℕ
ctlmap = look_up ctl_keys 13 239

-- `charcode[shift & (CTL | SHIFT)]`
unfoldable pub charcode : Shift → ℕ → ℕ
charcode s code = if s.ctl then ctlmap code else if s.shift then shiftmap code else normalmap code

-- `shift &= ~(shiftcode[data] | E0ESC)`
unfoldable pub release : ℕ → Shift → Shift
release code s = record s {
  shift = s.shift && not (is_shift code);
  ctl = s.ctl && not (is_ctl code);
  alt = s.alt && not (is_alt code);
  e0esc = false;
}

-- `shift |= shiftcode[data]; shift ^= togglecode[data];`
unfoldable pub press : ℕ → Shift → Shift
press code s = record s {
  shift = s.shift || is_shift code;
  ctl = s.ctl || is_ctl code;
  alt = s.alt || is_alt code;
  capslock = if code == 0x3A then not s.capslock else s.capslock;
  numlock = if code == 0x45 then not s.numlock else s.numlock;
  scrolllock = if code == 0x46 then not s.scrolllock else s.scrolllock;
}

-- The change of case under CAPSLOCK.
unfoldable pub swap_case : ℕ → ℕ
swap_case c = if leb 97 c && leb c 122 then c - 32 else if leb 65 c && leb c 90 then c + 32 else c

-- `kbdgetc` of a byte `data` from the keyboard: the character, or 0.
unfoldable pub kbdgetc : ℕ → Shift → ℕ × Shift
kbdgetc code s =
    if code == 0xE0
    then (0, record s { e0esc = true })
    else if leb 0x80 code
    then (0, release (if s.e0esc then code else code - 0x80) s)
    else (let code' = if s.e0esc then code + 0x80 else code in
        let t = press code' (record s { e0esc = false }) in
        let c = charcode t code' in (if t.capslock then swap_case c else c, t))

-- What it gives for the bytes that the keyboard has, until it has no more.
unfoldable pub kbd_chars : List ℕ → Shift → List ℕ × Shift
kbd_chars [] s = ([], s)
kbd_chars (code ∷ codes) s =
    let first = kbdgetc code s in let rest = kbd_chars codes first.1 in (first.0 ∷ rest.0, rest.1)

-- `kbdintr`
unfoldable pub kbdintr : List ℕ → Shift → Input → (Input × List Effect) × Shift
kbdintr codes s input = let cs = kbd_chars codes s in (consoleintr cs.0 input, cs.1)
