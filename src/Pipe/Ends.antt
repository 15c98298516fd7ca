-- ===== src/Pipe/Ends.antt =====
-- `pipealloc` and `pipeclose` (pipe.c): how a pipe begins and ends.
use assignment.Prelude.{
  ℕ, ◌≡◌, ◌≢◌, ◌⊎◌, refl, sym, ◌∙◌, ap, Bool, true, false, List, ◌∷◌, none, some, arith, ◌==◌,
  length, get_elem?, modify, find_index, find_index-some, if◌then◌else◌, get_elem?-modify_self,
  get_elem?-modify_ne,
}
use assignment.Kernel.{Kernel, File}
use assignment.Kalloc.{is_page, kfree, kalloc}
use assignment.File.{filealloc}
use assignment.Env.{Env}
use assignment.Pipe.Buffer.{Pipe, pipe_size, IsPipe}
use assignment.Pipe.Ops.{
  read_chan, write_chan, wakeup, close_end, pipeclose, Ends, pipealloc, pipe_end,
}

-- If its address is that of a page, `pipeclose` wakes those who wait for the other end. It frees the page exactly when both ends are
-- closed after it; otherwise the pipe stays, with its bytes and the other end as they were.
pub pipeclose_cases :
    (a : ℕ) (writable : Bool) (p : Pipe) (k : Kernel)
    → is_page k.kernel_end a ≡ true
    → let woken = wakeup (if writable then read_chan a else write_chan a) k in
      (((if writable then p.readopen else p.writeopen) ≡ false)
        × (pipeclose a writable p k ≡ some (none, record woken { freelist = a ∷ k.freelist })))
      ⊎ (((if writable then p.readopen else p.writeopen) ≡ true)
          × (pipeclose a writable p k ≡ some (some (close_end writable p), woken)))
unfolding pipeclose close_end kfree
pipeclose_cases a true p k ok = ground (arith, ok)
pipeclose_cases a false p k ok = ground (arith, ok)

abbrev pub is_closed : File → Bool
is_closed f = f.ref == 0

-- The file that `filealloc` takes.
abbrev pub opened : File → File
opened f = record f { ref = 1 }

apart :
    (files : List File) (i j : ℕ)
    → find_index is_closed files ≡ some i
    → find_index is_closed (modify files i opened) ≡ some j
    → i ≢ j
apart files i j first second e =
    let r = find_index-some is_closed files i first in
    let s = find_index-some is_closed (modify files i opened) j second in
    let at_i : get_elem? (modify files i opened) i ≡ some s.0 =
      ap (get_elem? (modify files i opened)) e ∙ s.1 in
    let q : some (opened r.0) ≡ some s.0 = sym (get_elem?-modify_self files i opened r.1) ∙ at_i in
    ground (arith, q, s.2)

filealloc_takes :
    (files : List File) (i : ℕ)
    → find_index is_closed files ≡ some i
    → ((filealloc files).0 ≡ some i) × ((filealloc files).1 ≡ modify files i opened)
unfolding filealloc
filealloc_takes files i e = (rw (e, filealloc) refl, rw (e, filealloc) refl)

kalloc_takes :
    (freelist rest : List ℕ) (page : ℕ)
    → freelist ≡ page ∷ rest
    → ((kalloc freelist).0 ≡ page) × ((kalloc freelist).1 ≡ rest)
unfolding kalloc
kalloc_takes freelist rest page e = (rw (e, kalloc) refl, rw (e, kalloc) refl)

-- With two files that nobody refers to and a page, `pipealloc` makes a pipe that is empty and open at
-- both ends, and two different files with one reference each: the first reads from the pipe, the
-- second writes to it.
pub pipealloc_makes :
    (env : Env) (junk : List ℕ) (k : Kernel) (i j page : ℕ) (rest : List ℕ) (f g : File)
    → find_index is_closed k.files ≡ some i
    → find_index is_closed (modify k.files i opened) ≡ some j
    → get_elem? k.files i ≡ some f
    → get_elem? k.files j ≡ some g
    → k.freelist ≡ page ∷ rest
    → page ≢ 0
    → length junk ≡ pipe_size
    → (e : Ends) × (k' : Kernel) × (pipealloc env junk k ≡ some (some e, k'))
      × IsPipe e.pipe 0
      × (e.pipe.readopen ≡ true)
      × (e.pipe.writeopen ≡ true)
      × (i ≢ j)
      × (get_elem? k'.files i ≡ some (pipe_end page false (opened f)))
      × (get_elem? k'.files j ≡ some (pipe_end page true (opened g)))
      × (k'.freelist ≡ rest)
unfolding pipealloc
pipealloc_makes env junk k i j page rest f g first second at_i at_j pages real room =
    let ne = apart k.files i j first second in
    let back : j ≢ i = λ e. ne (sym e) in
    let a = filealloc_takes k.files i first in
    let b = filealloc_takes (modify k.files i opened) j second in
    let b0 = ap (λ l. (filealloc l).0) a.1 ∙ b.0 in
    let b1 = ap (λ l. (filealloc l).1) a.1 ∙ b.1 in
    let c = kalloc_takes k.freelist rest page pages in
    (
      record {
        f0 = i;
        f1 = j;
        page = page;
        pipe = record { buf = junk; nread = 0; nwrite = 0; readopen = true; writeopen = true };
      },
      record k {
        files =
            modify (modify (modify (modify k.files i opened) j opened) i (pipe_end page false)) j
              (pipe_end page true);
        freelist = rest;
      },
      rw (a.0, b0, b1, c.0, c.1, pipealloc) (ground (arith, real)),
      record { room = room; read = omega arith; written = refl; few = omega arith },
      refl,
      refl,
      ne,
      get_elem?-modify_ne _ j i _ back
          ∙ get_elem?-modify_self _ i _
              (get_elem?-modify_ne _ j i _ back ∙ get_elem?-modify_self k.files i opened at_i),
      get_elem?-modify_self _ j _ (
          get_elem?-modify_ne _ i j _ ne
          ∙ get_elem?-modify_self _ j opened (get_elem?-modify_ne k.files i j opened ne ∙ at_j)),
      refl,
    )
