-- ===== src/Sysfile/FilesLaws.antt =====
-- Descriptors and references: `sys_dup` and `sys_close` (sysfile.c), and the loop of `filewrite` (file.c).
use assignment.Prelude.{
  ℕ, zero, suc, ◌+◌, ◌-◌, ◌≤◌, ◌<◌, ◌≡◌, refl, sym, ap, ap₂, ◌∙◌, Bool, true, false, List, [], ◌∷◌,
  Option, none, some, pos, negsuc, arith, ◌==◌, ltb, leb, if◌then◌else◌, length, take, drop,
  get_elem?, modify, find_index, find_index-some, get_elem?-modify_self, modify-modify, length-drop,
}
use mathlib.Core.Path.{fun_ext}
use assignment.Kernel.{File}
use assignment.File.{filedup}
use assignment.Fs.Monad.{Fs, ok, M, ◌>>=◌, return, panic}
use assignment.Fs.MonadLaws.{returns_then, lift_at}
use assignment.Fs.File.{Devsw}
use assignment.Syscall.Args.{User, argint}
use assignment.Sysfile.Files.{Pipes, fileclose, write_chunk, write_chunks, max_chunk}
use assignment.Sysfile.Calls.{nofile, is_null, argfd, fdalloc, sys_dup, sys_close}

-- The files with one reference more to `f`.
abbrev pub referred : ℕ → List File → List File
referred f files = modify files f (λ x. record x { ref = x.ref + 1 })

is_referred : (r : ℕ) → 0 < r → ltb r 1 ≡ false
is_referred r live = ground arith

sys_dup_makes :
    (u : User) (ofile : List (Option ℕ)) (files : List File) (s : Fs) (fd0 f fd : ℕ) (x : File)
    → argfd 0 u ofile ≡ some (fd0, f)
    → get_elem? files f ≡ some x
    → 0 < x.ref
    → find_index is_null ofile ≡ some fd
    → sys_dup u ofile files s ≡ ok (pos fd, modify ofile fd (λ _. some f), referred f files) s
unfolding sys_dup fdalloc filedup
sys_dup_makes u ofile files s fd0 f fd x arg at live free =
    rw (arg, sys_dup) (rw (free, fdalloc) (rw (at, filedup) (rw (is_referred x.ref live) refl)))

fileclose_drops :
    (devsw : Devsw) (pipes : Pipes) (f : ℕ) (files : List File) (s : Fs) (x : File)
    → get_elem? files f ≡ some x
    → 1 < x.ref
    → fileclose devsw pipes f files s ≡ ok (modify files f (λ x. record x { ref = x.ref - 1 })) s
unfolding fileclose
fileclose_drops devsw pipes f files s x at two =
    lift_at (get_elem? files f) x _ s at
    ∙ rw (is_referred x.ref (omega (arith, two))) (rw (stays (x.ref) two) refl)
  where
    stays : (r : ℕ) → 1 < r → ltb 0 (r - 1) ≡ true
    stays r two = ground arith

argfd_at :
    (u : User) (ofile : List (Option ℕ)) (fd f : ℕ)
    → argint 0 u ≡ some fd
    → fd < nofile
    → get_elem? ofile fd ≡ some (some f)
    → argfd 0 u ofile ≡ some (fd, f)
unfolding argfd
argfd_at u ofile fd f arg lt at = rw (arg, argfd) (rw (inside fd lt) (rw at refl))
  where
    inside : (fd : ℕ) → fd < nofile → leb nofile fd ≡ false
    inside fd lt = ground arith

sys_close_drops :
    (devsw : Devsw) (pipes : Pipes) (u : User) (ofile : List (Option ℕ)) (files : List File)
    (s : Fs) (fd f : ℕ) (x : File)
    → argfd 0 u ofile ≡ some (fd, f)
    → get_elem? files f ≡ some x
    → 1 < x.ref
    → sys_close devsw pipes u ofile files s
      ≡ ok
          (pos 0, modify ofile fd (λ _. none), modify files f (λ x. record x { ref = x.ref - 1 }))
          s
unfolding sys_close
sys_close_drops devsw pipes u ofile files s fd f x arg at two =
    rw (arg, sys_close)
      (returns_then (fileclose devsw pipes f files) _ s s _
        (fileclose_drops devsw pipes f files s x at two))

is_null_lem : (o : Option ℕ) → is_null o ≡ true → o ≡ none
is_null_lem none e = refl
is_null_lem (some f) e = ground (arith, e)

-- `sys_dup` of a file that is open gives it the first free descriptor and one reference more, and
-- `sys_close` of that descriptor then gives back the descriptors and the files as they were.
pub close-dup :
    (devsw : Devsw) (pipes : Pipes) (u v : User) (ofile : List (Option ℕ)) (files : List File)
    (s : Fs) (fd0 f fd : ℕ) (x : File)
    → argfd 0 u ofile ≡ some (fd0, f)
    → get_elem? files f ≡ some x
    → 0 < x.ref
    → find_index is_null ofile ≡ some fd
    → fd < nofile
    → argint 0 v ≡ some fd
    → (ofile' : List (Option ℕ)) × (files' : List File) × (sys_dup u ofile files s
        ≡ ok (pos fd, ofile', files') s)
      × (get_elem? ofile' fd ≡ some (some f))
      × (get_elem? files' f ≡ some (record x { ref = x.ref + 1 }))
      × (sys_close devsw pipes v ofile' files' s ≡ ok (pos 0, ofile, files) s)
close-dup devsw pipes u v ofile files s fd0 f fd x arg at live free lt arg_v =
    let ofile' : List (Option ℕ) = modify ofile fd (λ _. some f) in
    let slot = find_index-some is_null ofile fd free in
    let opened : get_elem? ofile' fd ≡ some (some f) =
      get_elem?-modify_self ofile fd (λ _. some f) slot.1 in
    let more : get_elem? (referred f files) f ≡ some (record x { ref = x.ref + 1 }) =
      get_elem?-modify_self files f (λ x. record x { ref = x.ref + 1 }) at in
    let one_less : x.ref + 1 - 1 ≡ x.ref = omega arith in
    (
      ofile',
      referred f files,
      sys_dup_makes u ofile files s fd0 f fd x arg at live free,
      opened,
      more,
      sys_close_drops devsw pipes v ofile' (referred f files) s fd f _
            (argfd_at v ofile' fd f arg_v lt opened) more (omega (arith, live))
          ∙ ap₂ (λ o fs. ok (pos 0, o, fs) s)
              (modify-modify ofile fd (λ _. some f) (λ _. none) slot.0 slot.1
                (sym (is_null_lem slot.0 slot.2)))
              (modify-modify files f (λ x. record x { ref = x.ref + 1 })
                (λ x. record x { ref = x.ref - 1 }) x at (λ i. record x { ref = one_less i })),
    )

-- `write_chunks` ends for want of fuel on no bytes only.
pub write_chunks_fuel :
    (devsw : Devsw) (pipes : Pipes) (a b i : ℕ) (cs : List ℕ) (files : List File) (s : Fs)
    → length cs ≤ a
    → length cs ≤ b
    → write_chunks devsw pipes a i cs files s ≡ write_chunks devsw pipes b i cs files s
unfolding write_chunks
write_chunks_fuel devsw pipes zero zero i [] files s la lb = refl
write_chunks_fuel devsw pipes zero (suc b) i [] files s la lb = refl
write_chunks_fuel devsw pipes (suc a) zero i [] files s la lb = refl
write_chunks_fuel devsw pipes (suc a) (suc b) i [] files s la lb = refl
write_chunks_fuel devsw pipes zero b i (c ∷ cs) files s la lb = absurd (omega (arith, la))
write_chunks_fuel devsw pipes (suc a) zero i (c ∷ cs) files s la lb = absurd (omega (arith, lb))
write_chunks_fuel devsw pipes (suc a) (suc b) i (c ∷ cs) files s la lb =
    let rest = drop max_chunk (c ∷ cs) in
    let short : length rest ≤ length cs = length-drop 1535 cs in
    ap
      (λ (go : List File → M (Bool × List File)).
        (write_chunk devsw pipes i (c ∷ cs) files >>= λ r. elim r.0 [
          | negsuc e ↦ return (false, r.1)
          | pos n ↦ if n == length (take max_chunk (c ∷ cs)) then go r.1 else panic
        ])
          s)
      (fun_ext (λ fs. fun_ext (λ t.
        write_chunks_fuel devsw pipes a b i rest fs t (omega (arith, short, la))
          (omega (arith, short, lb)))))
