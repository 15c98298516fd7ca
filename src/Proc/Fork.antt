-- ===== src/Proc/Fork.antt =====
-- `fork` and `kthread_create`, by the process in the entry `cur`.
use assignment.Prelude.{
  ℕ, ◌+◌, ◌%◌, ◌^◌, List, [], ◌∷◌, Option, none, some, ℤ, pos, minus_one, ◌==◌, ltb, if◌then◌else◌,
  get_elem?, modify, replicate, length,
}
use assignment.Kernel.{Kernel, Proc, File, unused, runnable}
use assignment.Kalloc.{kfree}
use assignment.CString.{safestrcpy}
use assignment.File.{filedup}
use assignment.Env.{Env}
use assignment.Proc.Table.{allocproc}

-- `np->ofile[i] = filedup(proc->ofile[i])` for the files that the parent has open.
unfoldable pub dup_files :
    List (Option ℕ) → List (Option ℕ) → List File → Option (List (Option ℕ) × List File)
dup_files [] ofile files = some (ofile, files)
dup_files (f ∷ fs) [] files = none
dup_files (none ∷ fs) (o ∷ ofile) files = elim (dup_files fs ofile files) [
  | none ↦ none
  | some (ofile', files') ↦ some (o ∷ ofile', files')
]
dup_files (some f ∷ fs) (o ∷ ofile) files = elim (filedup f files) [
  | none ↦ none
  | some files1 ↦ elim (dup_files fs ofile files1) [
    | none ↦ none
    | some (ofile', files') ↦ some (some f ∷ ofile', files')
  ]
]

-- The same loop in `kthread_create`, which copies the pointers alone.
unfoldable pub share_files : List (Option ℕ) → List (Option ℕ) → Option (List (Option ℕ))
share_files [] ofile = some ofile
share_files (f ∷ fs) [] = none
share_files (f ∷ fs) (o ∷ ofile) = elim (share_files fs ofile) [
  | none ↦ none
  | some ofile' ↦ some (elim f [ none ↦ o | some i ↦ some i ] ∷ ofile')
]

-- `idup(ip)`: one more reference to the inode.
unfoldable pub idup : Option ℕ → List ℕ → Option (List ℕ)
idup none refs = none
idup (some ip) refs = if ltb ip (length refs) then some (modify refs ip (λ r. r + 1)) else none

-- The way out when `copyuvm` fails: the stack is freed and the entry is given back.
unfoldable pub undo_alloc : ℕ → ℕ → Kernel → Option (ℤ × Kernel)
undo_alloc np kstack k = elim (kfree k.kernel_end kstack k.freelist) [
  | none ↦ none
  | some freelist ↦ some (
    minus_one,
    record k {
      freelist = freelist;
      procs = modify k.procs np (λ p. record p { kstack = 0; state = unused });
    },
  )
]

abbrev pub no_sleepers : List (Option ℕ)
no_sleepers = replicate 64 none

-- The entry of a forked child, from the entry that was allocated and the parent's.
abbrev pub forked : ℕ → ℕ → List (Option ℕ) → List ℕ → Proc → Proc → Proc
forked cur pgdir ofile name parent np = record np {
  thread_id = minus_one;
  pgdir = pgdir;
  sz = parent.sz;
  parent = some cur;
  tf = record (parent.tf) { eax = 0 };
  ofile = ofile;
  cwd = parent.cwd;
  state = runnable;
  name = name;
  sleeping_threads = no_sleepers;
}

-- The rest of `fork` once the entry `i` and the copied memory are there.
unfoldable pub fork_into : ℕ → ℕ → Proc → Proc → ℕ → Kernel → Option (ℤ × Kernel)
fork_into cur i np proc pgdir k = elim (dup_files proc.ofile np.ofile k.files) [
  | none ↦ none
  | some (ofile, files) ↦ elim (idup proc.cwd k.inode_refs) [
    | none ↦ none
    | some refs ↦ elim (safestrcpy np.name proc.name 16) [
      | none ↦ none
      | some name ↦ some (
        pos np.pid,
        record k {
          files = files;
          inode_refs = refs;
          procs = modify k.procs i (forked cur pgdir ofile name proc);
        },
      )
    ]
  ]
]

-- The rest of `fork` with what `copyuvm` returned and left of the free pages.
unfoldable pub fork_copied : ℕ → ℕ → Proc → Proc → Kernel → ℕ × List ℕ → Option (ℤ × Kernel)
fork_copied cur i np proc k (pgdir, freelist) =
    let k' : Kernel = record k { freelist = freelist } in
    let marked : Kernel = record k' {
      procs = modify k'.procs i (λ p. record p { thread_id = minus_one; pgdir = pgdir });
    } in
    if pgdir == 0 then undo_alloc i np.kstack marked else fork_into cur i np proc pgdir k'

-- `fork` from the call of `copyuvm` on, with the entry `i` allocated.
unfoldable pub fork_at : Env → ℕ → ℕ → Proc → Proc → Kernel → Option (ℤ × Kernel)
fork_at env cur i np proc k =
    fork_copied cur i np proc k (env.copyuvm proc.pgdir proc.sz k.freelist)

-- What follows `allocproc`: with an entry, the caller's and the new one are read.
unfoldable pub entered :
    ℕ → (ℕ → Proc → Proc → Kernel → Option (ℤ × Kernel)) → Option ℕ × Kernel → Option (ℤ × Kernel)
entered cur go (none, k) = some (minus_one, k)
entered cur go (some i, k) = elim (get_elem? k.procs cur) [
  | none ↦ none
  | some proc ↦ elim (get_elem? k.procs i) [ none ↦ none | some np ↦ go i np proc k ]
]

-- The start that `fork` and `kthread_create` share.
unfoldable pub with_entry :
    ℕ → (ℕ → Proc → Proc → Kernel → Option (ℤ × Kernel)) → Kernel → Option (ℤ × Kernel)
with_entry cur go k = entered cur go (allocproc k)

-- `fork`: the pid of the child, or -1.
unfoldable pub fork : Env → ℕ → Kernel → Option (ℤ × Kernel)
fork env cur = with_entry cur (fork_at env cur)

-- "thread" and its zero, from a buffer that ends there.
abbrev pub thread_name : List ℕ
thread_name = b't' ∷ b'h' ∷ b'r' ∷ b'e' ∷ b'a' ∷ b'd' ∷ 0 ∷ []

-- The entry of a new thread. The trap frame enters `start_func` on top of the given stack.
abbrev pub threaded : ℕ → ℕ → ℕ → List (Option ℕ) → List ℕ → Proc → Proc → Proc
threaded tid start_func esp ofile name proc np = record np {
  thread_id = pos tid;
  pid = proc.pid;
  pgdir = proc.pgdir;
  sz = proc.sz;
  parent = proc.parent;
  tf = record (proc.tf) { eax = 0; eip = start_func; esp = esp };
  ofile = ofile;
  cwd = proc.cwd;
  state = runnable;
  name = name;
  sleeping_threads = no_sleepers;
}

unfoldable pub thread_into : ℕ → ℕ → ℕ → Proc → Proc → Kernel → Option (ℤ × Kernel)
thread_into i start_func esp np proc k = elim (share_files proc.ofile np.ofile) [
  | none ↦ none
  | some ofile ↦ elim (safestrcpy np.name thread_name 16) [
    | none ↦ none
    | some name ↦ some (
      pos proc.pid,
      record k {
        next_thread = k.next_thread + 1;
        procs = modify k.procs i (threaded (k.next_thread + 1) start_func esp ofile name proc);
      },
    )
  ]
]

-- The rest of `kthread_create` with what `copyuvm` returned and left of the free pages. The memory
-- that it made is dropped for that of the process.
unfoldable pub create_copied : ℕ → ℕ → ℕ → Proc → Proc → Kernel → ℕ × List ℕ → Option (ℤ × Kernel)
create_copied start_func esp i np proc k (pgdir, freelist) =
    let k' : Kernel = record k { freelist = freelist } in
    let cleared : Kernel = record k' {
      procs = modify k'.procs i (λ p. record p { sleeping_threads = no_sleepers; pgdir = pgdir });
    } in
    if pgdir == 0 then undo_alloc i np.kstack cleared else thread_into i start_func esp np proc k'

-- `kthread_create` from the call of `copyuvm` on, with the entry `i` allocated.
unfoldable pub create_at : Env → ℕ → ℕ → ℕ → ℕ → Proc → Proc → Kernel → Option (ℤ × Kernel)
create_at env start_func stack stack_size i np proc k =
    create_copied start_func ((stack + stack_size) % 2 ^ 32) i np proc k
      (env.copyuvm proc.pgdir proc.sz k.freelist)

-- `kthread_create`: the pid of the process, or -1.
unfoldable pub kthread_create : Env → ℕ → ℕ → ℕ → ℕ → Kernel → Option (ℤ × Kernel)
kthread_create env start_func stack stack_size cur =
    with_entry cur (create_at env start_func stack stack_size)
