-- ===== src/Sysfile/Files.antt =====
-- The operations of file.c on open files, over the inodes of fs.c. A transaction of the log changes
-- nothing here, since `log_write` changes a block at once.
use assignment.Prelude.{
  ℕ, zero, suc, ◌+◌, ◌-◌, ◌%◌, ◌^◌, Bool, true, false, not, List, [], ◌∷◌, Option, none, some, ℤ,
  pos, negsuc, minus_one, ◌==◌, ltb, if◌then◌else◌, length, take, drop, get_elem?, modify,
}
use assignment.Kernel.{File, fd_none, fd_pipe, fd_inode}
use assignment.Fs.Monad.{M, ◌>>=◌, ◌>>◌, return, panic, lift}
use assignment.Fs.Inode.{ilock, iunlock, Stat, stati}
use assignment.Fs.Map.{iput}
use assignment.Fs.File.{Devsw, readi, writei}

-- The operations of pipe.c that file.c calls.
pub record Pipes : Type 0 where
  pub close : ℕ → Bool → M (Unit {0})
  pub read : ℕ → ℕ → M (ℤ × List ℕ)
  pub write : ℕ → List ℕ → M ℤ

-- ((LOGSIZE-1-1-2) / 2) * 512
abbrev pub max_chunk : ℕ
max_chunk = 1536

-- A file of `ftable`; an index outside it is a stray pointer.
abbrev pub file : List File → ℕ → M File
file files i = lift (get_elem? files i)

-- `f->off += r` if `r` is above 0
abbrev pub advance : ℤ → File → File
advance (pos r) f = record f { off = (f.off + r) % 2 ^ 32 }
advance (negsuc r) f = f

unfoldable pub filestat : ℕ → List File → M (Option Stat)
filestat i files = do
  f ← file files i
  elim f.type [
    | fd_inode ↦ do ip ← lift f.ip; ilock ip; st ← stati ip; iunlock ip; return (some st)
    | fd_none ↦ return none
    | fd_pipe ↦ return none
  ]

module _ (devsw : Devsw) (pipes : Pipes) where
  -- What `fileclose` does with the copy of a file that lost its last reference.
  unfoldable pub put_away : File → M (Unit {0})
  put_away f = elim f.type [
    | fd_none ↦ return tt
    | fd_pipe ↦ do p ← lift f.pipe; pipes.close p f.writable
    | fd_inode ↦ do ip ← lift f.ip; iput ip
  ]

  -- `fileclose`: the files that are left.
  unfoldable pub fileclose : ℕ → List File → M (List File)
  fileclose i files = do
    f ← file files i
    if ltb f.ref 1
        then panic
        else (if ltb 0 (f.ref - 1)
            then return (modify files i (λ f. record f { ref = f.ref - 1 }))
            else (do
              put_away f
              return (modify files i (λ f. record f { ref = 0; type = fd_none }))))

  -- `fileread` of an inode.
  unfoldable pub read_inode : ℕ → File → ℕ → List File → M (ℤ × List ℕ × List File)
  read_inode i f n files = do
    ip ← lift f.ip
    ilock ip
    r ← readi devsw ip f.off n
    iunlock ip
    return (r.0, r.1, modify files i (advance r.0))

  -- `fileread`: the result, the bytes stored at `addr`, and the files.
  unfoldable pub fileread : ℕ → ℕ → List File → M (ℤ × List ℕ × List File)
  fileread i n files = do
    f ← file files i
    if not f.readable then return (minus_one, [], files) else elim f.type [
      | fd_none ↦ panic
      | fd_pipe ↦ do p ← lift f.pipe; r ← pipes.read p n; return (r.0, r.1, files)
      | fd_inode ↦ read_inode i f n files
    ]

  -- One round of the loop of `filewrite`, on at most `max_chunk` bytes.
  unfoldable pub write_chunk : ℕ → List ℕ → List File → M (ℤ × List File)
  write_chunk i cs files = do
    f ← file files i
    ip ← lift f.ip
    ilock ip
    r ← writei devsw ip (take max_chunk cs) f.off
    iunlock ip
    return (r, modify files i (advance r))

  -- The loop with the bytes that are left, at most one round for each; true at its end if all are
  -- written.
  unfoldable pub write_chunks : ℕ → ℕ → List ℕ → List File → M (Bool × List File)
  write_chunks zero i cs files = return (true, files)
  write_chunks (suc fuel) i [] files = return (true, files)
  write_chunks (suc fuel) i (c ∷ cs) files = do
    r ← write_chunk i (c ∷ cs) files
    elim r.0 [
      | negsuc e ↦ return (false, r.1)
      | pos n ↦
          if n == length (take max_chunk (c ∷ cs))
          then write_chunks fuel i (drop max_chunk (c ∷ cs)) r.1
          else panic
    ]

  -- `filewrite` of the bytes at `addr`, `n` of them, `n` from 0 on.
  unfoldable pub filewrite : ℕ → List ℕ → List File → M (ℤ × List File)
  filewrite i cs files = do
    f ← file files i
    if not f.writable then return (minus_one, files) else elim f.type [
      | fd_none ↦ panic
      | fd_pipe ↦ do p ← lift f.pipe; r ← pipes.write p cs; return (r, files)
      | fd_inode ↦ do
        r ← write_chunks (length cs) i cs files
        return (if r.0 then pos (length cs) else minus_one, r.1)
    ]
