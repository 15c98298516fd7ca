-- ===== src/Fs/DirLaws.antt =====
-- `dirlookup` (fs.c) against the list of the entries of a directory.
use assignment.Prelude.{
  ℕ, zero, suc, ◌+◌, ◌*◌, ◌≤◌, ◌<◌, ◌≡◌, ◌≢◌, ◌⊎◌, inl, inr, refl, subst, ap, ◌∙◌, true, false,
  List, Option, none, some, ℤ, pos, ◌==ℤ◌, ==ℤ_iff, arith, ◌==◌, Bool-cases, ℕ_discrete, get_elem?,
}
use assignment.Fs.Monad.{Inode, Fs, Result, ok, M, ◌>>=◌, return}
use assignment.Fs.MonadLaws.{inode_at, returns_then}
use assignment.Fs.Inode.{iget}
use assignment.Fs.File.{Devsw, t_dir}
use assignment.Fs.Dir.{Dirent, namecmp, rounds, dirent_size, read_dirent, lookup_from, dirlookup}

-- The first `n` entries of the directory `dp` can be read, without a change of the state.
abbrev pub HasEntries : Devsw → ℕ → Fs → ℕ → (ℕ → Dirent) → Type 0
HasEntries devsw dp s n entries =
    (k : ℕ) → k < n → read_dirent devsw dp (k * 16) s ≡ ok (entries k) s

-- Whether the name compares equal to that of an entry in use; `cmp` is the result of `namecmp`.
abbrev pub IsMatch : (ℕ → Dirent) → (ℕ → ℤ) → ℕ → Type 0
IsMatch entries cmp k = ((entries k).inum ≢ 0) × (cmp k ≡ pos 0)

abbrev pub IsMiss : (ℕ → Dirent) → (ℕ → ℤ) → ℕ → Type 0
IsMiss entries cmp k = ((entries k).inum ≡ 0) ⊎ (cmp k ≢ pos 0)

differs : (c : ℤ) → c ≢ pos 0 → (c ==ℤ pos 0) ≡ false
differs c ne = elim (Bool-cases (c ==ℤ pos 0)) [
  | inl e ↦ absurd (ne ((==ℤ_iff c (pos 0)).0 e))
  | inr e ↦ e
]

equals : (c : ℤ) → c ≡ pos 0 → (c ==ℤ pos 0) ≡ true
equals c e = (==ℤ_iff c (pos 0)).1 e

is_used : (n : ℕ) → n ≢ 0 → (n == 0) ≡ false
is_used n ne = ground arith

IsMatch-cases :
    (entries : ℕ → Dirent) (cmp : ℕ → ℤ) (k : ℕ) → IsMiss entries cmp k ⊎ IsMatch entries cmp k
IsMatch-cases entries cmp k = elim (ℕ_discrete (entries k).inum 0) [
  | yes e ↦ inl (inl e)
  | no ne ↦ elim (Bool-cases (cmp k ==ℤ pos 0)) [
    | inl e ↦ inr (ne, (==ℤ_iff (cmp k) (pos 0)).0 e)
    | inr e ↦ inl (inr (λ q. absurd (ground (arith, e, equals (cmp k) q))))
  ]
]

IsMiss-step :
    (entries : ℕ → Dirent) (cmp : ℕ → ℤ) (k n : ℕ)
    → IsMiss entries cmp k
    → ((j : ℕ) → k + 1 ≤ j → j < n → IsMiss entries cmp j)
    → (j : ℕ) → k ≤ j
    → j < n
    → IsMiss entries cmp j
IsMiss-step entries cmp k n miss all j le lt = elim (ℕ_discrete k j) [
  | yes e ↦ subst (λ i. IsMiss entries cmp i) e miss
  | no ne ↦ all j (omega arith) lt
]

module _ (devsw : Devsw) (dp : ℕ) (x : Inode) (s : Fs) (n : ℕ) (entries : ℕ → Dirent)
    (name : List ℕ) (cmp : ℕ → ℤ) (at : get_elem? s.icache dp ≡ some x)
    (has : HasEntries devsw dp s n entries)
    (compared : (k : ℕ) → k < n → namecmp name (entries k).name ≡ some (cmp k)) where
  -- `iget` of the entry `k`, with its offset.
  abbrev found : ℕ → M (Option (ℕ × ℕ))
  found k = do ip ← iget x.dev (entries k).inum; return (some (ip, k * 16))

  next : ℕ → ℕ → Result (Option (ℕ × ℕ))
  next m k = lookup_from devsw m dp name ((k + 1) * 16) s

  offset_next : (m k : ℕ) → lookup_from devsw m dp name (k * 16 + dirent_size) s ≡ next m k
  unfolding next
  offset_next m k = ap (λ o. lookup_from devsw m dp name o s) (omega arith)

  round_miss :
      (m k : ℕ)
      → k < n
      → IsMiss entries cmp k
      → lookup_from devsw (suc m) dp name (k * 16) s ≡ next m k
  unfolding lookup_from
  round_miss m k lt miss =
      returns_then (read_dirent devsw dp (k * 16)) _ s s (entries k) (has k lt)
      ∙ elim (Bool-cases ((entries k).inum == 0)) [
        | inl e ↦ rw e (offset_next m k)
        | inr e ↦
            rw e (
              rw (compared k lt) (rw (differs (cmp k) (ground (arith, miss, e))) (offset_next m k)))
      ]

  round_match :
      (m k : ℕ)
      → k < n
      → IsMatch entries cmp k
      → lookup_from devsw (suc m) dp name (k * 16) s ≡ found k s
  unfolding lookup_from
  round_match m k lt (used, same) =
      returns_then (read_dirent devsw dp (k * 16)) _ s s (entries k) (has k lt)
      ∙ rw (is_used (entries k).inum used)
          (rw (compared k lt) (rw (equals (cmp k) same) (inode_at dp x s _ at)))

  end : (k : ℕ) → lookup_from devsw zero dp name (k * 16) s ≡ ok none s
  unfolding lookup_from
  end k = refl

  lookup_from_cases :
      (m k : ℕ)
      → k + m ≡ n
      → ((lookup_from devsw m dp name (k * 16) s ≡ ok none s)
          × ((j : ℕ) → k ≤ j → j < n → IsMiss entries cmp j))
        ⊎ ((j : ℕ) × (k ≤ j)
            × (j < n)
            × IsMatch entries cmp j
            × ((i : ℕ) → k ≤ i → i < j → IsMiss entries cmp i)
            × (lookup_from devsw m dp name (k * 16) s ≡ found j s))
  unfolding next
  lookup_from_cases zero k e = inl (end k, λ j le lt. absurd (omega (arith, le, lt, e)))
  lookup_from_cases (suc m) k e = elim (IsMatch-cases entries cmp k) [
    | inr hit ↦ inr (
      k,
      omega arith,
      omega (arith, e),
      hit,
      λ i le lt. absurd (omega (arith, le, lt)),
      round_match m k (omega (arith, e)) hit,
    )
    | inl miss ↦ elim (lookup_from_cases m (k + 1) (omega (arith, e))) [
      | inl (q, all) ↦
          inl (round_miss m k (omega (arith, e)) miss ∙ q, IsMiss-step entries cmp k n miss all)
      | inr (j, le, lt, hit, all, q) ↦ inr (
        j,
        omega (arith, le),
        lt,
        hit,
        IsMiss-step entries cmp k j miss all,
        round_miss m k (omega (arith, e)) miss ∙ q,
      )
    ]
  ]

-- If the entries of a directory can be read, `dirlookup` finds the first one in use whose name
-- compares equal, and returns the inode that `iget` gives for it with the offset of the entry; it
-- returns 0 if there is none.
pub dirlookup_first :
    (devsw : Devsw) (dp : ℕ) (x : Inode) (s : Fs) (entries : ℕ → Dirent) (name : List ℕ)
    (cmp : ℕ → ℤ)
    → get_elem? s.icache dp ≡ some x
    → x.node.type ≡ t_dir
    → HasEntries devsw dp s (rounds (x.node.size)) entries
    → ((k : ℕ) → k < rounds (x.node.size) → namecmp name (entries k).name ≡ some (cmp k))
    → ((dirlookup devsw dp name s ≡ ok none s)
        × ((k : ℕ) → k < rounds (x.node.size) → IsMiss entries cmp k))
      ⊎ ((k : ℕ) × (k < rounds (x.node.size))
          × IsMatch entries cmp k
          × ((i : ℕ) → i < k → IsMiss entries cmp i)
          × (dirlookup devsw dp name s
              ≡ (iget x.dev (entries k).inum >>= λ ip. return (some (ip, k * 16))) s))
unfolding dirlookup
dirlookup_first devsw dp x s entries name cmp at dir has compared =
    let n = rounds (x.node.size) in
    let start : dirlookup devsw dp name s ≡ lookup_from devsw n dp name 0 s =
      inode_at dp x s _ at ∙ rw dir refl in
    elim (lookup_from_cases devsw dp x s n entries name cmp at has compared n 0 (omega arith)) [
      | inl (q, all) ↦ inl (start ∙ q, λ k lt. all k (omega arith) lt)
      | inr (k, le, lt, hit, all, q) ↦
          inr (k, lt, hit, λ i less. all i (omega arith) less, start ∙ q)
    ]
