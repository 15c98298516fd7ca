-- ===== src/Log/Recovery.antt =====
-- Crashes during `commit_trans` and `recover_from_log` (log.c).
use assignment.Prelude.{
  ℕ, zero, suc, ◌≤◌, ◌<◌, ◌≡◌, ◌⊎◌, inl, inr, refl, sym, ◌∙◌, ap, ==_refl, if◌then◌else◌, List, [],
  ◌∷◌, ◌++◌, arith, length, take,
}
use assignment.Log.Disk.{
  Block, Disk, Write, write, apply, Log, put_words, header_of, read_head, write_head, install_from,
  install_trans, install_and_clear, recover_from_log, commit_writes, commit_trans,
}
use assignment.Log.Install.{
  IsHome, pick, header-put_words, take-install_from, take-IsHome, write_off, install_from_off,
  pick_ext, install_from-pick, pick_again,
}

-- The disk after a crash that lets `k` of the writes through.
abbrev pub crashed : ℕ → List Write → Disk → Disk
crashed k ws d = apply (take k ws) d

-- The disk once it is up again.
abbrev pub recovered : ℕ → Disk → Disk
recovered start d = apply (recover_from_log start d) d

apply-append : (xs ys : List Write) (d : Disk) → apply (xs ++ ys) d ≡ apply ys (apply xs d)
apply-append [] ys d = refl
apply-append (x ∷ xs) ys d = apply-append xs ys (write d x)

take_snoc :
    (k : ℕ) (xs : List Write) (c : Write)
    → (take k (xs ++ (c ∷ [])) ≡ take k xs) ⊎ (take k (xs ++ (c ∷ [])) ≡ xs ++ (c ∷ []))
take_snoc zero xs c = inl refl
take_snoc (suc k) [] c = inr (go k)
  where
    go : (k : ℕ) → take (suc k) (c ∷ []) ≡ c ∷ []
    go zero = refl
    go (suc k) = refl
take_snoc (suc k) (x ∷ xs) c = elim (take_snoc k xs c) [
  | inl e ↦ inl (ap (λ l. x ∷ l) e)
  | inr e ↦ inr (ap (λ l. x ∷ l) e)
]

write_on : (d : Disk) (s : ℕ) (b : Block) → write d (s, b) s ≡ b
write_on d s b = ap (λ t. if t then b else d s) (==_refl s)

header_cleared : (b : Block) → header_of (put_words (0 ∷ []) b) ≡ []
header_cleared [] = refl
header_cleared (c ∷ b) = refl

module _ (start s : ℕ) (home : s < start) where
  install_and_clear-pick :
      (ss : List ℕ) (d : Disk)
      → IsHome start ss
      → apply (install_and_clear start ss d) d s ≡ pick d start 0 ss s (d s)
  unfolding install_and_clear install_trans write_head
  install_and_clear-pick ss d h =
      ap (λ e. e s) (apply-append (install_trans start ss d) _ d)
      ∙ write_off (apply (install_trans start ss d) d) start s _ (λ e. omega (arith, home, e))
      ∙ install_from-pick start 0 ss d s h

  recovered-pick :
      (ss : List ℕ) (d : Disk)
      → read_head start d ≡ ss
      → IsHome start ss
      → recovered start d s ≡ pick d start 0 ss s (d s)
  unfolding recover_from_log
  recovered-pick ss d e h =
      ap (λ l. apply (install_and_clear start l d) d s) e ∙ install_and_clear-pick ss d h

  -- The header is cleared when all the writes are made.
  cleared : (ss : List ℕ) (d : Disk) → read_head start (apply (install_and_clear start ss d) d) ≡ []
  unfolding install_and_clear write_head read_head
  cleared ss d =
      let installs = install_trans start ss d in
      ap header_of (
        ap (λ e. e start) (apply-append installs _ d)
        ∙ write_on (apply installs d) start (put_words (0 ∷ []) (apply installs d start)))
      ∙ header_cleared (apply installs d start)

  partly :
      (k : ℕ) (ss : List ℕ) (d : Disk)
      → read_head start d ≡ ss
      → IsHome start ss
      → recovered start (apply (install_from start 0 (take k ss) d) d) s
        ≡ apply (install_and_clear start ss d) d s
  unfolding read_head
  partly k ss d e h =
      let d' = apply (install_from start 0 (take k ss) d) d in
      let off : (t : ℕ) → start ≤ t → d' t ≡ d t =
        λ t le. install_from_off start 0 (take k ss) d t (take-IsHome k start ss h) le in
      recovered-pick ss d' (ap header_of (off start (omega arith)) ∙ e) h
      ∙ pick_ext d' d start 0 ss s (d' s) off
      ∙ ap (pick d start 0 ss s)
          (install_from-pick start 0 (take k ss) d s (take-IsHome k start ss h))
      ∙ pick_again d start 0 k ss s (d s)
      ∙ sym (install_and_clear-pick ss d h)

  cut_off :
      (k : ℕ) (ss : List ℕ) (d : Disk)
      → read_head start d ≡ ss
      → IsHome start ss
      → recovered start (crashed k (install_and_clear start ss d) d) s
        ≡ apply (install_and_clear start ss d) d s
  unfolding install_and_clear install_trans
  cut_off k ss d e h =
      let installs = install_from start 0 ss d in
      let all = install_and_clear start ss d in
      elim (take_snoc k installs (write_head start [] (apply installs d))) [
        | inl q ↦
            ap (λ l. recovered start (apply l d) s) (q ∙ take-install_from k start 0 ss d)
            ∙ partly k ss d e h
        | inr q ↦
            ap (λ l. recovered start (apply l d) s) q
            ∙ recovered-pick [] (apply all d) (cleared ss d) tt
      ]

-- A crash at any point of `recover_from_log`, and the recovery that follows it, leave in each sector
-- before the log what a recovery that is not cut off leaves there, if the header names sectors
-- before the log alone.
pub recover_again :
    (start k s : ℕ) (d : Disk)
    → s < start
    → IsHome start (read_head start d)
    → recovered start (crashed k (recover_from_log start d) d) s ≡ recovered start d s
unfolding recover_from_log
recover_again start k s d home h = cut_off start s home k (read_head start d) d refl h

-- The two outcomes of a crash after `k` writes of a commit.
abbrev pub IsAtomic : ℕ → ℕ → List Write → Disk → Type 0
IsAtomic start k ws d =
    ((s : ℕ) → s < start → recovered start (crashed k ws d) s ≡ d s)
    ⊎ ((s : ℕ) → s < start → recovered start (crashed k ws d) s ≡ apply ws d s)

commit_writes-IsAtomic :
    (start k : ℕ) (ss : List ℕ) (d : Disk)
    → read_head start d ≡ []
    → IsHome start ss
    → length ss < length (d start)
    → IsAtomic start k (commit_writes start ss d) d
unfolding commit_writes write_head read_head
commit_writes-IsAtomic start zero ss d clear h fits =
    inl (λ s home. recovered-pick start s home [] d clear tt)
commit_writes-IsAtomic start (suc k) [] d clear h fits =
    inl (λ s home. recovered-pick start s home [] d clear tt)
commit_writes-IsAtomic start (suc k) (x ∷ ss) d clear h fits =
    let b = put_words (length (x ∷ ss) ∷ x ∷ ss) (d start) in
    inr (λ s home.
      cut_off start s home k (x ∷ ss) (write d (start, b))
        (ap header_of (write_on d start b) ∙ header-put_words (x ∷ ss) (d start) fits) h)

-- A crash at any point of `commit_trans`, and the recovery that follows it, leave either every sector
-- before the log as it was before the call, or every one as a call that is not cut off leaves
-- it. The header on the disk is empty before the call, the transaction names sectors before the
-- log alone, and it has fewer of them than a block has words.
pub commit_trans-IsAtomic :
    (log : Log) (k : ℕ) (d : Disk)
    → read_head log.start d ≡ []
    → IsHome log.start log.sectors
    → length log.sectors < length (d log.start)
    → IsAtomic log.start k (commit_trans log d).1 d
unfolding commit_trans
commit_trans-IsAtomic log k d clear h fits =
    commit_writes-IsAtomic log.start k log.sectors d clear h fits
