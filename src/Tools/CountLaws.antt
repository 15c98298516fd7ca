-- ===== src/Tools/CountLaws.antt =====
-- What wc.c counts, whatever the reads that bring the bytes.
use assignment.Prelude.{
  ℕ, suc, ◌+◌, Bool, false, not, ◌&&◌, ◌≡◌, refl, sym, ap, ◌∙◌, List, [], ◌∷◌, ◌++◌, arith, ◌==◌,
  if◌then◌else◌, length, count_if,
}
use assignment.Tools.Count.{Counts, is_space, count_word, count_byte, count_bytes, count_reads, wc}

abbrev pub concat : List (List ℕ) → List ℕ
concat [] = []
concat (s ∷ ss) = s ++ concat ss

-- The bytes that begin a word: no space, at the start or behind a space.
abbrev pub word_starts : Bool → List ℕ → ℕ
word_starts inside [] = 0
word_starts inside (c ∷ s) =
    (if not (is_space c) && not inside then 1 else 0) + word_starts (not (is_space c)) s

count_bytes-append :
    (s t : List ℕ) (k : Counts) → count_bytes (s ++ t) k ≡ count_bytes t (count_bytes s k)
unfolding count_bytes
count_bytes-append [] t k = refl
count_bytes-append (c ∷ s) t k = count_bytes-append s t (count_byte c k)

count_reads-concat :
    (reads : List (List ℕ)) (k : Counts) → count_reads reads k ≡ count_bytes (concat reads) k
unfolding count_reads count_bytes
count_reads-concat [] k = refl
count_reads-concat (s ∷ reads) k =
    count_reads-concat reads (count_bytes s k) ∙ sym (count_bytes-append s (concat reads) k)

-- What a byte changes.
count_byte_lem :
    (c : ℕ) (k : Counts)
    → ((count_byte c k).lines ≡ (if c == 10 then suc k.lines else k.lines))
      × ((count_byte c k).words ≡ k.words + (if not (is_space c) && not k.inword then 1 else 0))
      × ((count_byte c k).chars ≡ suc k.chars)
      × ((count_byte c k).inword ≡ not (is_space c))
unfolding count_byte count_word
count_byte_lem c k = (ground arith, ground arith, ground arith, ground arith)

count_bytes_lem :
    (s : List ℕ) (k : Counts)
    → ((count_bytes s k).lines ≡ k.lines + count_if (λ c. c == 10) s)
      × ((count_bytes s k).words ≡ k.words + word_starts k.inword s)
      × ((count_bytes s k).chars ≡ k.chars + length s)
unfolding count_bytes
count_bytes_lem [] k = (omega arith, omega arith, omega arith)
count_bytes_lem (c ∷ s) k =
    let (lines, words, chars) = count_bytes_lem s (count_byte c k) in
    let (line, word, char, state) = count_byte_lem c k in
    let begun = ap (λ b. word_starts b s) state in
    (ground arith, omega (arith, words, word, begun), omega (arith, chars, char))

-- However the reads cut up the input, `wc` counts the newlines, the bytes that begin a word, and all the
-- bytes of the whole.
pub wc_counts :
    (reads : List (List ℕ))
    → ((wc reads).lines ≡ count_if (λ c. c == 10) (concat reads))
      × ((wc reads).words ≡ word_starts false (concat reads))
      × ((wc reads).chars ≡ length (concat reads))
unfolding wc
wc_counts reads =
    let start : Counts = record { lines = 0; words = 0; chars = 0; inword = false } in
    let (lines, words, chars) = count_bytes_lem (concat reads) start in
    rw (count_reads-concat reads start)
      (omega (arith, lines), omega (arith, words), omega (arith, chars))
