-- ===== src/Sysfile/NamesLaws.antt =====
-- `isdirempty` (sysfile.c) against the list of the entries of a directory.
use assignment.Prelude.{
  ℕ, zero, suc, ◌+◌, ◌-◌, ◌*◌, ◌≤◌, ◌<◌, ◌≡◌, ◌≢◌, ◌⊎◌, inl, inr, refl, ap, subst, ◌∙◌, true, false,
  some, arith, ◌==◌, ℕ_discrete, get_elem?,
}
use assignment.Fs.Monad.{Inode, Fs, ok}
use assignment.Fs.MonadLaws.{inode_at, returns_then}
use assignment.Fs.File.{Devsw}
use assignment.Fs.Dir.{Dirent, rounds, read_dirent}
use assignment.Fs.DirLaws.{HasEntries}
use assignment.Sysfile.Names.{empty_on, isdirempty}

module _ (devsw : Devsw) (dp : ℕ) (s : Fs) (n : ℕ) (entries : ℕ → Dirent)
    (has : HasEntries devsw dp s n entries) where
  empty_step :
      (m k : ℕ)
      → k < n
      → (entries k).inum ≡ 0
      → empty_on devsw (suc m) dp (k * 16) s ≡ empty_on devsw m dp ((k + 1) * 16) s
  unfolding empty_on
  empty_step m k lt e =
      returns_then (read_dirent devsw dp (k * 16)) _ s s (entries k) (has k lt)
      ∙ rw (is_zero (entries k).inum e) (ap (λ o. empty_on devsw m dp o s) (omega arith))
    where
      is_zero : (a : ℕ) → a ≡ 0 → (a == 0) ≡ true
      is_zero a e = ground arith

  used_step :
      (m k : ℕ) → k < n → (entries k).inum ≢ 0 → empty_on devsw (suc m) dp (k * 16) s ≡ ok false s
  unfolding empty_on
  used_step m k lt ne =
      returns_then (read_dirent devsw dp (k * 16)) _ s s (entries k) (has k lt)
      ∙ rw (is_used (entries k).inum ne) refl
    where
      is_used : (a : ℕ) → a ≢ 0 → (a == 0) ≡ false
      is_used a e = ground arith

  end : (k : ℕ) → empty_on devsw zero dp (k * 16) s ≡ ok true s
  unfolding empty_on
  end k = refl

  empty_on_cases :
      (m k : ℕ)
      → k + m ≡ n
      → ((empty_on devsw m dp (k * 16) s ≡ ok true s)
          × ((j : ℕ) → k ≤ j → j < n → (entries j).inum ≡ 0))
        ⊎ ((empty_on devsw m dp (k * 16) s ≡ ok false s)
            × (j : ℕ) × (k ≤ j)
            × (j < n)
            × ((entries j).inum ≢ 0))
  empty_on_cases zero k e = inl (end k, λ j le lt. absurd (omega (arith, le, lt, e)))
  empty_on_cases (suc m) k e = elim (ℕ_discrete (entries k).inum 0) [
    | no ne ↦ inr (used_step m k (omega (arith, e)) ne, k, omega arith, omega (arith, e), ne)
    | yes z ↦ elim (empty_on_cases m (k + 1) (omega (arith, e))) [
      | inl (q, all) ↦ inl (empty_step m k (omega (arith, e)) z ∙ q, zeros k z all)
      | inr (q, j, le, lt, ne) ↦
          inr (empty_step m k (omega (arith, e)) z ∙ q, j, omega (arith, le), lt, ne)
    ]
  ]
    where
      zeros :
          (k : ℕ)
          → (entries k).inum ≡ 0
          → ((j : ℕ) → k + 1 ≤ j → j < n → (entries j).inum ≡ 0)
          → (j : ℕ) → k ≤ j
          → j < n
          → (entries j).inum ≡ 0
      zeros k z all j le lt = elim (ℕ_discrete k j) [
        | yes q ↦ subst (λ i. (entries i).inum ≡ 0) q z
        | no ne ↦ all j (omega arith) lt
      ]

-- If the entries of a directory of at least two can be read, `isdirempty` returns 1 when all from the
-- third on are free, and 0 when one of them is in use.
pub isdirempty_exact :
    (devsw : Devsw) (dp : ℕ) (x : Inode) (s : Fs) (entries : ℕ → Dirent)
    → get_elem? s.icache dp ≡ some x
    → 32 ≤ x.node.size
    → HasEntries devsw dp s (rounds (x.node.size)) entries
    → ((isdirempty devsw dp s ≡ ok true s)
        × ((k : ℕ) → 2 ≤ k → k < rounds (x.node.size) → (entries k).inum ≡ 0))
      ⊎ ((isdirempty devsw dp s ≡ ok false s)
          × (k : ℕ) × (2 ≤ k)
          × (k < rounds (x.node.size))
          × ((entries k).inum ≢ 0))
unfolding isdirempty
isdirempty_exact devsw dp x s entries at two has =
    let n = rounds (x.node.size) in
    let start : isdirempty devsw dp s ≡ empty_on devsw (n - 2) dp 32 s =
      inode_at dp x s _ at ∙ ap (λ m. empty_on devsw m dp 32 s) (omega (arith, two)) in
    elim (empty_on_cases devsw dp s n entries has (n - 2) 2 (omega (arith, two))) [
      | inl (q, all) ↦ inl (start ∙ q, all)
      | inr (q, j, le, lt, ne) ↦ inr (start ∙ q, j, le, lt, ne)
    ]
