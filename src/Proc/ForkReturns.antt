-- ===== src/Proc/ForkReturns.antt =====
-- `fork` (proc.c) does not panic and does not read outside an array when its tables are in order.
use assignment.Prelude.{
  ℕ, zero, suc, ◌+◌, ◌≤◌, ◌<◌, ◌≡◌, refl, ◌∙◌, ap, List, [], ◌∷◌, Option, none, some, pos, arith,
  ◌==◌, Bool-cases, inl, inr, get_elem?, modify, length, get_elem?-modify,
}
use assignment.Kernel.{Kernel, Proc, File}
use assignment.CString.{safestrcpy, copy_from}
use assignment.File.{filedup}
use assignment.Proc.Fork.{dup_files, idup, forked, fork_into}

-- Each open file of the list is in the file table, with a reference.
abbrev pub AreOpen : List File → List (Option ℕ) → Type 0
AreOpen files [] = Unit
AreOpen files (none ∷ fs) = AreOpen files fs
AreOpen files (some f ∷ fs) =
    ((x : File) × (get_elem? files f ≡ some x) × (0 < x.ref)) × AreOpen files fs

referred : File → File
referred f = record f { ref = f.ref + 1 }

referred-open :
    (files : List File) (f g : ℕ) (x : File)
    → get_elem? files g ≡ some x
    → 0 < x.ref
    → (y : File) × (get_elem? (modify files f referred) g ≡ some y) × (0 < y.ref)
unfolding referred
referred-open files f g x at more =
    let q = get_elem?-modify files f g referred in
    elim (Bool-cases (f == g)) [
      | inl e ↦ (referred x, ground (arith, q, at, e), omega arith)
      | inr e ↦ (x, ground (arith, q, at, e), more)
    ]

AreOpen-referred :
    (files : List File) (f : ℕ) (fs : List (Option ℕ))
    → AreOpen files fs
    → AreOpen (modify files f referred) fs
AreOpen-referred files f [] o = tt
AreOpen-referred files f (none ∷ fs) o = AreOpen-referred files f fs o
AreOpen-referred files f (some g ∷ fs) ((x, at, more), o) =
    (referred-open files f g x at more, AreOpen-referred files f fs o)

filedup_returns :
    (f : ℕ) (files : List File) (x : File)
    → get_elem? files f ≡ some x
    → 0 < x.ref
    → filedup f files ≡ some (modify files f referred)
unfolding filedup referred
filedup_returns f files x at more = ground (arith, at, more)

dup_files_returns :
    (fs ofile : List (Option ℕ)) (files : List File)
    → AreOpen files fs
    → length fs ≤ length ofile
    → (r : List (Option ℕ) × List File) × (dup_files fs ofile files ≡ some r)
unfolding dup_files
dup_files_returns [] ofile files o le = ((ofile, files), refl)
dup_files_returns (f ∷ fs) [] files o le = absurd (omega (arith, le))
dup_files_returns (none ∷ fs) (p ∷ ofile) files o le =
    let r = dup_files_returns fs ofile files o (omega (arith, le)) in
    ((p ∷ r.0.0, r.0.1), rw (r.1, dup_files) refl)
dup_files_returns (some f ∷ fs) (p ∷ ofile) files ((x, at, more), o) le =
    let r =
      dup_files_returns fs ofile (modify files f referred) (AreOpen-referred files f fs o)
        (omega (arith, le)) in
    (
      (some f ∷ r.0.0, r.0.1),
      rw (filedup_returns f files x at more, dup_files) (rw (r.1, dup_files) refl),
    )

copy_from_returns :
    (n : ℕ) (s t : List ℕ) → n ≤ length s → n ≤ length t → (r : List ℕ) × (copy_from n s t ≡ some r)
unfolding copy_from
copy_from_returns zero s t ls lt = (s, refl)
copy_from_returns (suc zero) [] t ls lt = absurd (omega (arith, ls))
copy_from_returns (suc zero) (d ∷ s) t ls lt = (0 ∷ s, refl)
copy_from_returns (suc (suc n)) [] t ls lt = absurd (omega (arith, ls))
copy_from_returns (suc (suc n)) (d ∷ []) t ls lt = absurd (omega (arith, ls))
copy_from_returns (suc (suc n)) (d ∷ e ∷ s) [] ls lt = absurd (omega (arith, lt))
copy_from_returns (suc (suc n)) (d ∷ e ∷ s) (c ∷ t) ls lt =
    let r = copy_from_returns (suc n) (e ∷ s) t (omega (arith, ls)) (omega (arith, lt)) in
    elim (Bool-cases (c == 0)) [
      | inl q ↦ (c ∷ 0 ∷ s, rw (q, copy_from) refl)
      | inr q ↦ (c ∷ r.0, rw (q, copy_from) (rw (r.1, copy_from) refl))
    ]

idup_returns :
    (ip : ℕ) (refs : List ℕ)
    → ip < length refs
    → idup (some ip) refs ≡ some (modify refs ip (λ r. r + 1))
unfolding idup
idup_returns ip refs lt = ground (arith, lt)

-- If the open files of the caller have references, its current directory is in the inode cache, and
-- the tables and names have their sizes, `fork` returns the pid of the child once the memory is
-- copied.
pub fork_into_returns :
    (cur i pgdir ip : ℕ) (np proc : Proc) (k : Kernel)
    → AreOpen k.files proc.ofile
    → length proc.ofile ≤ length np.ofile
    → proc.cwd ≡ some ip
    → ip < length k.inode_refs
    → 16 ≤ length np.name
    → 16 ≤ length proc.name
    → (k' : Kernel) × (fork_into cur i np proc pgdir k ≡ some (pos np.pid, k'))
unfolding fork_into safestrcpy
fork_into_returns cur i pgdir ip np proc k o le here cached new_name old_name =
    let r = dup_files_returns proc.ofile np.ofile k.files o le in
    let name = copy_from_returns 16 np.name proc.name new_name old_name in
    let refs = ap (λ c. idup c k.inode_refs) here ∙ idup_returns ip k.inode_refs cached in
    (
      record k {
        files = r.0.1;
        inode_refs = modify k.inode_refs ip (λ n. n + 1);
        procs = modify k.procs i (forked cur pgdir r.0.0 name.0 proc);
      },
      rw (r.1, fork_into) (rw (refs, fork_into) (rw (name.1, fork_into) refl)),
    )
