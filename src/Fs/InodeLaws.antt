-- ===== src/Fs/InodeLaws.antt =====
-- The inode cache (fs.c): one entry for each inode, and the lock and the disk copy of an entry.
use assignment.Prelude.{
  ℕ, ◌+◌, ◌<◌, ◌≡◌, ◌≢◌, ◌⊎◌, inl, inr, refl, sym, ◌∙◌, ap, Bool, true, false, List, none, some,
  arith, ◌==◌, ==_refl, Option-cases, ℕ_discrete, if◌then◌else◌, get_elem?, modify, find_index,
  find_index-some, find_index-none, get_elem?-modify_self, get_elem?-modify_ne,
  get_elem?-modify_inv,
}
use assignment.Fs.Block.{update}
use assignment.Fs.Alloc.{inode_block}
use assignment.Fs.Dinode.{Dinode, IsDinode, read_dinode, write_dinode, read-write_dinode}
use assignment.Fs.Monad.{Inode, Fs, ok, sleeps, panics, ◌>>◌, set_inode, panic, return}
use assignment.Fs.MonadLaws.{inode_at}
use assignment.Fs.Inode.{
  dinode_offset, is_cached, is_recyclable, iget, iupdate, load, ilock, iunlock,
}

-- No inode has two entries in the cache.
abbrev pub IsUnique : List Inode → Type 0
IsUnique cache =
    (i j : ℕ) (x y : Inode)
    → get_elem? cache i ≡ some x
    → get_elem? cache j ≡ some y
    → 0 < x.ref
    → 0 < y.ref
    → x.dev ≡ y.dev
    → x.inum ≡ y.inum
    → i ≡ j

referred : Inode → Inode
referred i = record i { ref = i.ref + 1 }

recycled : ℕ → ℕ → Inode → Inode
recycled dev inum i = record i { dev = dev; inum = inum; ref = 1; busy = false; valid = false }

old_live :
    (cache : List Inode) (ip i : ℕ) (z w x : Inode)
    → get_elem? cache i ≡ some w
    → get_elem? cache ip ≡ some z
    → 0 < z.ref
    → x ≡ (if ip == i then referred w else w)
    → 0 < x.ref
    → 0 < w.ref
unfolding referred
old_live cache ip i z w x at_i at live e lx = elim (ℕ_discrete ip i) [
  | yes q ↦
      let same : some w ≡ some z = sym at_i ∙ ap (get_elem? cache) (sym q) ∙ at in
      ground (arith, same, live)
  | no ne ↦ ground (arith, e, lx, ne)
]

referred-IsUnique :
    (cache : List Inode) (ip : ℕ) (z : Inode)
    → IsUnique cache
    → get_elem? cache ip ≡ some z
    → 0 < z.ref
    → IsUnique (modify cache ip referred)
unfolding referred
referred-IsUnique cache ip z u at live i j x y p q lx ly d n =
    let a = get_elem?-modify_inv cache ip i referred x p in
    let b = get_elem?-modify_inv cache ip j referred y q in
    u i j a.0 b.0 a.1 b.1 (old_live cache ip i z a.0 x a.1 at live a.2 lx)
      (old_live cache ip j z b.0 y b.1 at live b.2 ly) (ground (arith, a.2, b.2, d))
      (ground (arith, a.2, b.2, n))

recycled-IsUnique :
    (dev inum : ℕ) (cache : List Inode) (ip : ℕ)
    → IsUnique cache
    → find_index (is_cached dev inum) cache ≡ none
    → IsUnique (modify cache ip (recycled dev inum))
unfolding recycled
recycled-IsUnique dev inum cache ip u absent i j x y p q lx ly d n =
    let a = get_elem?-modify_inv cache ip i (recycled dev inum) x p in
    let b = get_elem?-modify_inv cache ip j (recycled dev inum) y q in
    elim (ℕ_discrete ip i) [
      | yes p_new ↦ elim (ℕ_discrete ip j) [
        | yes q_new ↦ sym p_new ∙ q_new
        | no q_old ↦ absurd (
            ground (
              arith,
              find_index-none (is_cached dev inum) cache j b.0 absent b.1,
              b.2,
              a.2,
              p_new,
              q_old,
              d,
              n,
              ly,
            ))
      ]
      | no p_old ↦ elim (ℕ_discrete ip j) [
        | yes q_new ↦ absurd (
            ground (
              arith,
              find_index-none (is_cached dev inum) cache i a.0 absent a.1,
              a.2,
              b.2,
              p_old,
              q_new,
              d,
              n,
              lx,
            ))
        | no q_old ↦
            u i j x y (ground (arith, a.1, a.2, p_old)) (ground (arith, b.1, b.2, q_old)) lx ly d n
      ]
    ]

-- The inode has no entry in the cache that is in use.
abbrev pub IsAbsent : ℕ → ℕ → List Inode → Type 0
IsAbsent dev inum cache =
    (j : ℕ) (x : Inode) → get_elem? cache j ≡ some x → 0 < x.ref → x.dev ≡ dev → x.inum ≢ inum

-- What becomes of the entry that `iget` returns: that of the inode has a reference more and is
-- otherwise as it was; or the inode was not cached, the entry was free, and it is now that of the
-- inode, with one reference and no flag.
abbrev pub IsTaken : ℕ → ℕ → List Inode → Inode → Inode → Type 0
IsTaken dev inum cache before now =
    ((0 < before.ref)
      × (before.dev ≡ dev)
      × (before.inum ≡ inum)
      × (now ≡ record before { ref = before.ref + 1 }))
    ⊎ (IsAbsent dev inum cache
        × (before.ref ≡ 0)
        × (now ≡ record before { dev = dev; inum = inum; ref = 1; busy = false; valid = false }))

-- What `iget` gives.
pub record Got (dev inum : ℕ) (s : Fs) (ip : ℕ) (s' : Fs) : Type 0 where
  pub before : Inode
  pub now : Inode
  pub was : get_elem? s.icache ip ≡ some before
  pub at : get_elem? s'.icache ip ≡ some now
  pub taken : IsTaken dev inum s.icache before now
  pub still_unique : IsUnique s'.icache
  pub others : (j : ℕ) → ip ≢ j → get_elem? s'.icache j ≡ get_elem? s.icache j
  pub same_blocks : s'.blocks ≡ s.blocks

absent_lem :
    (dev inum : ℕ) (cache : List Inode)
    → find_index (is_cached dev inum) cache ≡ none
    → IsAbsent dev inum cache
absent_lem dev inum cache e j x at live d n =
    ground (arith, find_index-none (is_cached dev inum) cache j x e at, live, d, n)

-- `iget` keeps one entry at most for each inode that is in use. If the inode is cached, `iget` returns its entry,
-- with one reference more and nothing else changed in it. Otherwise it returns an entry that was
-- free, which is now that of the inode, with one reference, neither busy nor valid. It changes no
-- other entry and no block. It panics only when the inode is not cached and every entry is in use.
pub iget-Got :
    (dev inum : ℕ) (s : Fs)
    → IsUnique s.icache
    → ((ip : ℕ) × (s' : Fs) × (iget dev inum s ≡ ok ip s') × Got dev inum s ip s')
      ⊎ ((iget dev inum s ≡ panics)
          × IsAbsent dev inum s.icache
          × ((j : ℕ) (x : Inode) → get_elem? s.icache j ≡ some x → 0 < x.ref))
unfolding iget referred recycled
iget-Got dev inum s u = elim (Option-cases (find_index (is_cached dev inum) s.icache)) [
  | inr (ip, e) ↦
      let f = find_index-some (is_cached dev inum) s.icache ip e in
      inl (
        ip,
        record s { icache = modify s.icache ip referred },
        rw (e, iget) refl,
        record {
          before = f.0;
          now = referred f.0;
          was = f.1;
          at = get_elem?-modify_self s.icache ip referred f.1;
          taken = inl (ground (arith, f.2), ground (arith, f.2), ground (arith, f.2), refl);
          still_unique = referred-IsUnique s.icache ip f.0 u f.1 (ground (arith, f.2));
          others = λ j ne. get_elem?-modify_ne s.icache ip j referred ne;
          same_blocks = refl;
        },
      )
  | inl absent ↦ elim (Option-cases (find_index is_recyclable s.icache)) [
    | inl full ↦ inr (
      rw (absent, iget) (rw (full, iget) refl),
      absent_lem dev inum s.icache absent,
      λ j x at. ground (arith, find_index-none is_recyclable s.icache j x full at),
    )
    | inr (ip, e) ↦
        let f = find_index-some is_recyclable s.icache ip e in
        inl (
          ip,
          record s { icache = modify s.icache ip (recycled dev inum) },
          rw (absent, iget) (rw (e, iget) refl),
          record {
            before = f.0;
            now = recycled dev inum f.0;
            was = f.1;
            at = get_elem?-modify_self s.icache ip (recycled dev inum) f.1;
            taken = inr (absent_lem dev inum s.icache absent, ground (arith, f.2), refl);
            still_unique = recycled-IsUnique dev inum s.icache ip u absent;
            others = λ j ne. get_elem?-modify_ne s.icache ip j (recycled dev inum) ne;
            same_blocks = refl;
          },
        )
  ]
]

-- What `iupdate` writes of a cached inode is what `load`, the read of `ilock`, gives it back, if its
-- fields fit their types and its type is not 0.
pub load-iupdate :
    (ip : ℕ) (x : Inode) (s : Fs)
    → get_elem? s.icache ip ≡ some x
    → IsDinode x.node
    → x.node.type ≢ 0
    → (s' : Fs) × (iupdate ip s ≡ ok tt s')
      × (s'' : Fs) × (load ip s' ≡ ok tt s'')
      × (get_elem? s''.icache ip ≡ some (record x { valid = true }))
unfolding iupdate load
load-iupdate ip x s at v typed =
    let b = inode_block x.inum in
    let o = dinode_offset x.inum in
    let s' : Fs = record s { blocks = update (s.blocks) b (write_dinode o x.node (s.blocks b)) } in
    let read : read_dinode o (s'.blocks b) ≡ x.node =
      ap
        (λ (c : Bool). read_dinode o (if c then write_dinode o x.node (s.blocks b) else s.blocks b))
        (==_refl b)
      ∙ read-write_dinode o x.node (s.blocks b) v in
    let marked : Inode → Inode = λ i. record i { node = x.node; valid = true } in
    (
      s',
      inode_at ip x s _ at,
      record s' { icache = modify s.icache ip marked },
      inode_at ip x s' _ at
          ∙ ap
              (λ (node : Dinode).
                (set_inode ip (λ i. record i { node = node; valid = true })
                    >> (if node.type == 0 then panic else return tt))
                  s')
              read
          ∙ ground (arith, typed),
      get_elem?-modify_self s.icache ip marked at,
    )

-- An inode that is free is locked by `ilock`; then `ilock` sleeps, and `iunlock` gives it back as it
-- was.
pub ilock-iunlock :
    (ip : ℕ) (x : Inode) (s : Fs)
    → get_elem? s.icache ip ≡ some x
    → 0 < x.ref
    → x.busy ≡ false
    → x.valid ≡ true
    → (s' : Fs) × (ilock ip s ≡ ok tt s')
      × (ilock ip s' ≡ sleeps ip s')
      × (s'' : Fs) × (iunlock ip s' ≡ ok tt s'')
      × (get_elem? s''.icache ip ≡ some x)
unfolding ilock iunlock
ilock-iunlock ip x s at live free ready =
    let taken : Inode → Inode = λ i. record i { busy = true } in
    let given : Inode → Inode = λ i. record i { busy = false } in
    let s' : Fs = record s { icache = modify s.icache ip taken } in
    let at' : get_elem? s'.icache ip ≡ some (taken x) =
      get_elem?-modify_self s.icache ip taken at in
    (
      s',
      inode_at ip x s _ at ∙ ground (arith, live, free, ready),
      inode_at ip (taken x) s' _ at' ∙ ground (arith, live),
      record s' { icache = modify s'.icache ip given },
      inode_at ip (taken x) s' _ at' ∙ ground (arith, live),
      get_elem?-modify_self s'.icache ip given at'
          ∙ ap (λ b. some (record x { busy = b })) (sym free),
    )
