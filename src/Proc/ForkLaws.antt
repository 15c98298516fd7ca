-- ===== src/Proc/ForkLaws.antt =====
-- `fork` and `kthread_create`: the child's entry, the reference counts of the open files, and the
-- way back when memory runs out.
use assignment.Prelude.{
  ℕ, ◌+◌, ◌≡◌, ◌≢◌, refl, ◌∙◌, ap, sym, subst, true, List, [], ◌∷◌, Option, none, some, arith, ℤ,
  pos, minus_one, ◌==◌, if◌then◌else◌, get_elem?, modify, get_elem?-modify, get_elem?-modify_self,
  get_elem?-modify_ne, find_index, Option-cases, inl, inr,
}
use mathlib.Core.Option
use mathlib.Core.Option.{some-injective}
use assignment.Kernel.{Kernel, Proc, File, unused, runnable}
use assignment.Kalloc.{kfree, is_page}
use assignment.File.{filedup}
use assignment.Env.{Env}
use assignment.CString.{safestrcpy}
use assignment.Proc.Table.{is_unused, allocproc}
use assignment.Proc.TableLaws.{Allocated, allocproc_takes, KeepsOthers}
use assignment.Proc.Fork.{
  entered, with_entry, fork, fork_at, fork_copied, dup_files, share_files, fork_into, thread_into,
  idup, forked, threaded, undo_alloc, thread_name,
}

-- How often a pointer to the file `f` stands among open files.
pub pointers_to : ℕ → List (Option ℕ) → ℕ
pointers_to f [] = 0
pointers_to f (none ∷ fs) = pointers_to f fs
pointers_to f (some g ∷ fs) = (if g == f then 1 else 0) + pointers_to f fs

abbrev pub ref_of : List File → ℕ → Option ℕ
ref_of files f = elim (get_elem? files f) [ none ↦ none | some x ↦ some x.ref ]

filedup-ref :
    (g f : ℕ) (files files' : List File)
    → filedup g files ≡ some files'
    → ref_of files' f ≡ Option.map (λ r. r + (if g == f then 1 else 0)) (ref_of files f)
unfolding filedup
filedup-ref g f files files' e =
    ground (arith, e, get_elem?-modify files g f (λ x. record x { ref = x.ref + 1 }))

-- The loop of `fork` raises the count of each file by the number of pointers to it that the parent
-- has, when it returns.
pub dup_files-refs :
    (fs ofile ofile' : List (Option ℕ)) (files files' : List File) (f : ℕ)
    → dup_files fs ofile files ≡ some (ofile', files')
    → ref_of files' f ≡ Option.map (λ r. r + pointers_to f fs) (ref_of files f)
unfolding dup_files pointers_to
dup_files-refs [] ofile ofile' files files' f e = ground (arith, e)
dup_files-refs (g ∷ fs) [] ofile' files files' f e = absurd (ground (arith, e))
dup_files-refs (none ∷ fs) (o ∷ ofile) ofile' files files' f e =
    elim (Option-cases (dup_files fs ofile files)) [
      | inl d ↦ absurd (ground (arith, d, e))
      | inr (r, d) ↦ let ih = dup_files-refs fs ofile r.0 files r.1 f d in ground (arith, d, e, ih)
    ]
dup_files-refs (some g ∷ fs) (o ∷ ofile) ofile' files files' f e =
    elim (Option-cases (filedup g files)) [
      | inl d ↦ absurd (ground (arith, d, e))
      | inr (files1, d) ↦ elim (Option-cases (dup_files fs ofile files1)) [
        | inl h ↦ absurd (ground (arith, d, h, e))
        | inr (r, h) ↦
            let ih = dup_files-refs fs ofile r.0 files1 r.1 f h in
            let one = filedup-ref g f files files1 d in ground (arith, d, h, e, ih, one)
      ]
    ]

-- The child that `fork` leaves in the entry `i`.
pub record Child (cur i pgdir : ℕ) (np proc : Proc) (k k' : Kernel) : Type 0 where
  pub child : Proc
  pub slot : get_elem? k'.procs i ≡ some child
  pub state : child.state ≡ runnable
  pub pid : child.pid ≡ np.pid
  pub parent : child.parent ≡ some cur
  pub thread_id : child.thread_id ≡ minus_one
  pub memory : (child.pgdir ≡ pgdir) × (child.sz ≡ proc.sz)
  pub returns_zero : child.tf ≡ record (proc.tf) { eax = 0 }
  pub refs :
      (f : ℕ)
      → ref_of k'.files f ≡ Option.map (λ r. r + pointers_to f proc.ofile) (ref_of k.files f)
  pub others : KeepsOthers i k.procs k'.procs

-- When `fork` gets past the copy of the memory and returns, it returns the pid of the child. The
-- child is runnable on the copied memory, is the main thread of its process, sees 0 returned, and
-- has the caller as its parent; each open file is counted once more for each of its pointers, and
-- the other entries are as they were.
pub fork_into-Child :
    (cur i pgdir : ℕ) (np proc : Proc) (k k' : Kernel) (r : ℤ)
    → get_elem? k.procs i ≡ some np
    → fork_into cur i np proc pgdir k ≡ some (r, k')
    → (r ≡ pos np.pid) × Child cur i pgdir np proc k k'
unfolding fork_into
fork_into-Child cur i pgdir np proc k k' r at e =
    elim (Option-cases (dup_files proc.ofile np.ofile k.files)) [
      | inl d ↦ absurd (ground (arith, d, e))
      | inr (dup, d) ↦ elim (Option-cases (idup proc.cwd k.inode_refs)) [
        | inl u ↦ absurd (ground (arith, d, u, e))
        | inr (refs, u) ↦ elim (Option-cases (safestrcpy np.name proc.name 16)) [
          | inl n ↦ absurd (ground (arith, d, u, n, e))
          | inr (name, n) ↦
              let done : Kernel = record k {
                files = dup.1;
                inode_refs = refs;
                procs = modify k.procs i (forked cur pgdir dup.0 name proc);
              } in
              let eq : ◌≡◌ {A = Option (ℤ × Kernel)} (some (pos np.pid, done)) (some (r, k')) =
                ground (arith, d, u, n, e) in
              let same : done ≡ k' = ap (λ (z : ℤ × Kernel). z.1) (some-injective _ _ eq) in
              (
                sym (ap (λ (z : ℤ × Kernel). z.0) (some-injective _ _ eq)),
                subst (Child cur i pgdir np proc k) same (record {
                  child = forked cur pgdir dup.0 name proc np;
                  slot = get_elem?-modify_self k.procs i _ at;
                  state = refl;
                  pid = refl;
                  parent = refl;
                  thread_id = refl;
                  memory = (refl, refl);
                  returns_zero = refl;
                  refs = λ f. dup_files-refs proc.ofile np.ofile dup.0 k.files dup.1 f d;
                  others = λ j ne. get_elem?-modify_ne k.procs i j _ ne;
                }),
              )
        ]
      ]
    ]

-- When `kthread_create` gets past the copy of the memory and returns, the new entry has the memory
-- of the caller and its pointers to the open files, and no file and no inode is counted once more.
pub thread_shares :
    (i start_func esp : ℕ) (np proc : Proc) (k k' : Kernel) (r : ℤ)
    → get_elem? k.procs i ≡ some np
    → thread_into i start_func esp np proc k ≡ some (r, k')
    → (t : Proc) × (get_elem? k'.procs i ≡ some t)
      × (t.pgdir ≡ proc.pgdir)
      × (t.pid ≡ proc.pid)
      × (share_files proc.ofile np.ofile ≡ some t.ofile)
      × (k'.files ≡ k.files)
      × (k'.inode_refs ≡ k.inode_refs)
unfolding thread_into
thread_shares i start_func esp np proc k k' r at e =
    elim (Option-cases (share_files proc.ofile np.ofile)) [
      | inl s ↦ absurd (ground (arith, s, e))
      | inr (ofile, s) ↦ elim (Option-cases (safestrcpy np.name thread_name 16)) [
        | inl n ↦ absurd (ground (arith, s, n, e))
        | inr (name, n) ↦ (
          threaded (k.next_thread + 1) start_func esp ofile name proc np,
          ground (
            arith,
            s,
            n,
            e,
            get_elem?-modify_self k.procs i
                (threaded (k.next_thread + 1) start_func esp ofile name proc) at,
          ),
          refl,
          refl,
          s,
          ground (arith, s, n, e),
          ground (arith, s, n, e),
        )
      ]
    ]

fork_at_undone :
    (env : Env) (cur i : ℕ) (np proc : Proc) (k : Kernel) (freelist : List ℕ)
    → env.copyuvm proc.pgdir proc.sz k.freelist ≡ (0, freelist)
    → is_page k.kernel_end np.kstack ≡ true
    → (k' : Kernel) × (fork_at env cur i np proc k ≡ some (minus_one, k'))
      × (k'.freelist ≡ np.kstack ∷ freelist)
      × (get_elem? k.procs i ≡ some np
          → get_elem? k'.procs i
            ≡ some (record np { thread_id = minus_one; pgdir = 0; kstack = 0; state = unused }))
      × KeepsOthers i k.procs k'.procs
unfolding fork_at fork_copied undo_alloc kfree
fork_at_undone env cur i np proc k freelist copied ok = (
  record k {
    freelist = np.kstack ∷ freelist;
    procs =
        modify (modify k.procs i (λ p. record p { thread_id = minus_one; pgdir = 0 })) i
          (λ p. record p { kstack = 0; state = unused });
  },
  rw (fork_at, fork_copied, copied) (rw (ok, fork_copied, undo_alloc, kfree) refl),
  refl,
  λ at. get_elem?-modify_self _ i _ (get_elem?-modify_self k.procs i _ at),
  λ j ne. get_elem?-modify_ne _ i j _ ne ∙ get_elem?-modify_ne k.procs i j _ ne,
)

-- A new entry that `allocproc` has just made for the caller in another entry.
module _ (env : Env) (cur i page : ℕ) (rest freelist : List ℕ) (proc : Proc) (k : Kernel)
    (pgdir : ℕ) (free : find_index is_unused k.procs ≡ some i) (pages : k.freelist ≡ page ∷ rest)
    (real : page ≢ 0) (caller : get_elem? k.procs cur ≡ some proc) (other : i ≢ cur)
    (copied : env.copyuvm proc.pgdir proc.sz rest ≡ (pgdir, freelist)) where
  made : (k' : Kernel) × (allocproc k ≡ (some i, k')) × Allocated k i k'
  made = allocproc_takes k i page rest free pages real

  enters :
      (go : ℕ → Proc → Proc → Kernel → Option (ℤ × Kernel))
      → with_entry cur go k ≡ go i made.2.new proc made.0
  unfolding with_entry entered
  enters go =
      let here : get_elem? made.0.procs cur ≡ some proc = made.2.others cur other ∙ caller in
      rw (with_entry, made.1) (rw (here, made.2.now, entered) refl)

  -- When `copyuvm` fails, `fork` returns -1. The stack page is back on the free
  -- list, the entry is UNUSED again with no stack, and the other entries are as they were.
  pub fork_undone :
      pgdir ≡ 0
      → is_page k.kernel_end page ≡ true
      → (k' : Kernel) × (q : Proc) × (fork env cur k ≡ some (minus_one, k'))
        × (k'.freelist ≡ page ∷ freelist)
        × (get_elem? k'.procs i ≡ some q)
        × (q.state ≡ unused)
        × (q.kstack ≡ 0)
        × KeepsOthers i k.procs k'.procs
  unfolding fork
  fork_undone failed ok =
      let a = made.2 in
      let same_rest : made.0.freelist ≡ rest = ground (arith, pages, a.taken) in
      let same_page : a.new.kstack ≡ page = a.stack ∙ ground (arith, pages, a.taken) in
      let u =
        fork_at_undone env cur i a.new proc made.0 freelist
          (ap (λ l. env.copyuvm proc.pgdir proc.sz l) same_rest
            ∙ copied
            ∙ ap (λ g. (g, freelist)) failed)
          (rw (same_page, a.end) ok) in
      (
        u.0,
        record a.new { thread_id = minus_one; pgdir = 0; kstack = 0; state = unused },
        enters (fork_at env cur) ∙ u.1,
        rw (← same_page) u.2,
        u.3 a.now,
        refl,
        refl,
        λ j ne. u.4 j ne ∙ a.others j ne,
      )
