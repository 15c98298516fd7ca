-- ===== src/Console/Tests.antt =====
-- The theorems on the console's input at a short line.
use assignment.Prelude.{ℕ, refl, ◌<◌, ◌≡◌, pos, false, [], ◌∷◌, arith}
use assignment.Console.Input.{Input, consoleintr, consoleread, returns}
use assignment.Console.InputLaws.{IsInput, consoleintr-IsInput}
use assignment.Console.LineLaws.{IsText, consoleread-consoleintr}
use assignment.Console.Keyboard.{
  Shift, kbd_chars, kbdgetc, press, release, charcode, swap_case, normalmap, shiftmap,
}

abbrev no_shift : Shift
no_shift = record {
  shift = false;
  ctl = false;
  alt = false;
  capslock = false;
  numlock = false;
  scrolllock = false;
  e0esc = false;
}

abbrev empty : Input
empty = record { buf = λ i. 0; r = 4294967295; w = 4294967295; e = 4294967295 }

empty-IsInput : IsInput empty
empty-IsInput = record {
  r_fits = omega arith;
  w_fits = omega arith;
  e_fits = omega arith;
  ended = omega arith;
  room = omega arith;
}

consoleintr-IsInput_example : IsInput (consoleintr (97 ∷ 8 ∷ 98 ∷ 10 ∷ []) empty).0
consoleintr-IsInput_example = consoleintr-IsInput (97 ∷ 8 ∷ 98 ∷ 10 ∷ []) empty empty-IsInput

letter : (c : ℕ) → 96 < c → c < 123 → IsText c
letter c lo hi = record {
  not_null = omega (arith, lo);
  not_end = (omega (arith, lo), omega (arith, lo), omega (arith, lo));
  not_control = (omega (arith, lo), omega (arith, lo), omega (arith, lo), omega (arith, hi));
}

consoleread-consoleintr_example :
    let t = (consoleintr (97 ∷ 98 ∷ 10 ∷ []) empty).0 in
    ((consoleread false 5 t).0 ≡ returns (pos 3)) × ((consoleread false 5 t).1 ≡ 97 ∷ 98 ∷ 10 ∷ [])
consoleread-consoleintr_example =
    consoleread-consoleintr (97 ∷ 98 ∷ []) empty 5
      (letter 97 (omega arith) (omega arith), (letter 98 (omega arith) (omega arith), tt))
      (omega arith) refl (omega arith) (omega arith)

-- Shift is pressed, A is pressed, shift is released, A is pressed.
kbd_chars-shift : (kbd_chars (42 ∷ 30 ∷ 170 ∷ 30 ∷ []) no_shift).0 ≡ 0 ∷ 65 ∷ 0 ∷ 97 ∷ []
unfolding kbd_chars kbdgetc press release charcode swap_case normalmap shiftmap
kbd_chars-shift = refl
