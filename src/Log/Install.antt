-- ===== src/Log/Install.antt =====
-- What the loop of `install_trans` (log.c) writes, and that it can be run again after it was cut off.
use assignment.Prelude.{
  ℕ, zero, suc, ◌+◌, ◌≤◌, ◌<◌, ◌≡◌, ◌≢◌, refl, sym, ◌∙◌, ap, true, false, List, [], ◌∷◌, arith,
  ◌==◌, Bool-cases, inl, inr, if◌then◌else◌, length, take,
}
use assignment.Log.Disk.{Block, Disk, write, apply, put_words, get_words, header_of, install_from}

-- All the sectors lie before `start`, outside the log.
abbrev pub IsHome : ℕ → List ℕ → Type 0
IsHome start [] = Unit
IsHome start (s ∷ ss) = (s < start) × IsHome start ss

-- The block of the sector `s` once the blocks of the log are installed over `b`.
abbrev pub pick : Disk → ℕ → ℕ → List ℕ → ℕ → Block → Block
pick d start tail [] s b = b
pick d start tail (x ∷ ss) s b =
    pick d start (tail + 1) ss s (if s == x then d (start + tail + 1) else b)

-- The header that was written is the header that is read.
pub header-put_words :
    (ss : List ℕ) (b : Block) → length ss < length b → header_of (put_words (length ss ∷ ss) b) ≡ ss
header-put_words ss [] lt = absurd (omega (arith, lt))
header-put_words ss (c ∷ b) lt = go ss b (omega (arith, lt))
  where
    go :
        (ss : List ℕ) (b : Block)
        → length ss ≤ length b
        → get_words (length ss) (put_words ss b) ≡ ss
    go [] b le = refl
    go (s ∷ ss) [] le = absurd (omega (arith, le))
    go (s ∷ ss) (c ∷ b) le = ap (λ l. s ∷ l) (go ss b (omega (arith, le)))

-- The first `j` writes of the loop are those of the first `j` sectors.
pub take-install_from :
    (j start tail : ℕ) (ss : List ℕ) (d : Disk)
    → take j (install_from start tail ss d) ≡ install_from start tail (take j ss) d
unfolding install_from
take-install_from zero start tail ss d = refl
take-install_from (suc j) start tail [] d = refl
take-install_from (suc j) start tail (s ∷ ss) d =
    ap (λ l. (s, d (start + tail + 1)) ∷ l)
      (take-install_from j start (tail + 1) ss (write d (s, d (start + tail + 1))))

pub take-IsHome : (j start : ℕ) (ss : List ℕ) → IsHome start ss → IsHome start (take j ss)
take-IsHome zero start ss h = tt
take-IsHome (suc j) start [] h = tt
take-IsHome (suc j) start (s ∷ ss) (lt, h) = (lt, take-IsHome j start ss h)

pub write_off : (d : Disk) (s t : ℕ) (b : Block) → t ≢ s → write d (s, b) t ≡ d t
write_off d s t b ne = ground (arith, ne)

-- The loop leaves the log as it is.
pub install_from_off :
    (start tail : ℕ) (ss : List ℕ) (d : Disk) (t : ℕ)
    → IsHome start ss
    → start ≤ t
    → apply (install_from start tail ss d) d t ≡ d t
unfolding install_from
install_from_off start tail [] d t h le = refl
install_from_off start tail (s ∷ ss) d t (lt, h) le =
    install_from_off start (tail + 1) ss (write d (s, d (start + tail + 1))) t h le
    ∙ write_off d s t (d (start + tail + 1)) (λ e. omega (arith, lt, le, e))

pub pick_ext :
    (d d' : Disk) (start tail : ℕ) (ss : List ℕ) (s : ℕ) (b : Block)
    → ((t : ℕ) → start ≤ t → d t ≡ d' t)
    → pick d start tail ss s b ≡ pick d' start tail ss s b
pick_ext d d' start tail [] s b same = refl
pick_ext d d' start tail (x ∷ ss) s b same =
    pick_ext d d' start (tail + 1) ss s _ same
    ∙ ap (λ c. pick d' start (tail + 1) ss s (if s == x then c else b))
        (same (start + tail + 1) (omega arith))

-- What a sector holds after the loop.
pub install_from-pick :
    (start tail : ℕ) (ss : List ℕ) (d : Disk) (s : ℕ)
    → IsHome start ss
    → apply (install_from start tail ss d) d s ≡ pick d start tail ss s (d s)
unfolding install_from
install_from-pick start tail [] d s h = refl
install_from-pick start tail (x ∷ ss) d s (lt, h) =
    let d1 = write d (x, d (start + tail + 1)) in
    install_from-pick start (tail + 1) ss d1 s h
    ∙ pick_ext d1 d start (tail + 1) ss s (d1 s)
        (λ t le. write_off d x t (d (start + tail + 1)) (λ e. omega (arith, lt, le, e)))

pick_skip :
    (d : Disk) (start tail x : ℕ) (ss : List ℕ) (s : ℕ) (b : Block)
    → (s == x) ≡ false
    → pick d start tail (x ∷ ss) s b ≡ pick d start (tail + 1) ss s b
pick_skip d start tail x ss s b e =
    ap (λ t. pick d start (tail + 1) ss s (if t then d (start + tail + 1) else b)) e

pick_over :
    (d : Disk) (start tail x : ℕ) (ss : List ℕ) (s : ℕ) (b c : Block)
    → (s == x) ≡ true
    → pick d start tail (x ∷ ss) s b ≡ pick d start tail (x ∷ ss) s c
pick_over d start tail x ss s b c e =
    ap (λ t. pick d start (tail + 1) ss s (if t then d (start + tail + 1) else b)) e
    ∙ sym (ap (λ t. pick d start (tail + 1) ss s (if t then d (start + tail + 1) else c)) e)

-- Blocks that were installed in part are overwritten when all are installed.
pub pick_again :
    (d : Disk) (start tail j : ℕ) (ss : List ℕ) (s : ℕ) (b : Block)
    → pick d start tail ss s (pick d start tail (take j ss) s b) ≡ pick d start tail ss s b
pick_again d start tail zero ss s b = refl
pick_again d start tail (suc j) [] s b = refl
pick_again d start tail (suc j) (x ∷ ss) s b = elim (Bool-cases (s == x)) [
  | inl e ↦ pick_over d start tail x ss s (pick d start tail (x ∷ take j ss) s b) b e
  | inr e ↦
      pick_skip d start tail x ss s (pick d start tail (x ∷ take j ss) s b) e
      ∙ ap (pick d start (tail + 1) ss s) (pick_skip d start tail x (take j ss) s b e)
      ∙ pick_again d start (tail + 1) j ss s b
      ∙ sym (pick_skip d start tail x ss s b e)
]
