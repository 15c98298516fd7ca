-- ===== src/Mkfs/BuildLaws.antt =====
-- The bitmap of the whole image that `main` of mkfs.c builds.
use assignment.Prelude.{
  ℕ, zero, suc, ◌+◌, ◌-◌, ◌*◌, ◌/◌, ◌<◌, ◌≡◌, refl, sym, ap, ◌∙◌, List, [], ◌∷◌, ◌++◌, Option, none,
  some, ◌==◌, ltb, if◌then◌else◌, Bool-cases, inl, inr, length, replicate,
}
use assignment.CString.{strncpy}
use assignment.Fs.Block.{Block, Blocks, block_size, get32, put32}
use assignment.Fs.Alloc.{Superblock, readsb, in_use}
use assignment.Fs.Dinode.{Dinode}
use assignment.Fs.Dir.{dir_size}
use assignment.Fs.Map.{ndirect, nindirect}
use assignment.Mkfs.Image.{
  Image, xint, ◌then_do◌, rsect, i2b, wsect, winode, rinode, ialloc, balloc,
}
use assignment.Mkfs.Append.{addr_at, ensure_addr, ensure_indirect, block_of, append_from, iappend}
use assignment.Mkfs.AppendLaws.{IsBalanced, use_block-IsBalanced, ensure_addr-IsBalanced}
use assignment.Mkfs.BitmapLaws.{balloc_marks}
use assignment.Mkfs.EndLaws.{main_ends}
use assignment.Mkfs.Build.{
  root_inum, t_file, super, format, clear_from, t_dir, enter, append_reads, has_slash,
  skip_underscore, add_file, add_files, fix_root, main,
}

-- Whatever comes out satisfies `P`.
abbrev pub Gives {ℓ} : {A : Type ℓ} → (A → Type 0) → Option A → Type 0
Gives P none = Unit
Gives P (some a) = P a

Gives-trivial {ℓ} : {A : Type ℓ} (o : Option A) → Gives (λ _. Unit) o
Gives-trivial none = tt
Gives-trivial (some a) = tt

then_do-Gives {ℓ κ} :
    {A : Type ℓ} {B : Type κ} (P : A → Type 0) (Q : B → Type 0) (o : Option A) (f : A → Option B)
    → Gives P o
    → ((a : A) → P a → Gives Q (f a))
    → Gives Q (o then_do f)
then_do-Gives P Q none f h k = tt
then_do-Gives P Q (some a) f h k = k a h

rsect-Gives : (sec : ℕ) (m : Image) → Gives (λ (_ : Block). Unit) (rsect sec m)
rsect-Gives sec m = Gives-trivial (rsect sec m)

ensure_indirect-Gives :
    (a n : ℕ) (m : Image)
    → IsBalanced m
    → Gives (λ (w : ℕ × Image). IsBalanced w.1) (ensure_indirect a n m)
unfolding ensure_indirect wsect
ensure_indirect-Gives a n m b =
    then_do-Gives (λ (_ : Block). Unit) (λ (w : ℕ × Image). IsBalanced w.1) (rsect a m) _
      (rsect-Gives a m)
      (λ indirect _. elim (Bool-cases (get32 indirect (4 * n) == 0)) [
        | inl e ↦ rw e (use_block-IsBalanced m b)
        | inr e ↦ rw e b
      ])

winode-Gives :
    (inum : ℕ) (din : Dinode) (m : Image) → IsBalanced m → Gives IsBalanced (winode inum din m)
unfolding winode wsect
winode-Gives inum din m b =
    then_do-Gives (λ (_ : Block). Unit) IsBalanced (rsect (i2b inum) m) _ (rsect-Gives _ m)
      (λ buf _. b)

ialloc-Gives :
    (type : ℕ) (m : Image)
    → IsBalanced m
    → Gives (λ (r : ℕ × Image). IsBalanced r.1) (ialloc type m)
unfolding ialloc
ialloc-Gives type m b =
    then_do-Gives IsBalanced (λ (r : ℕ × Image). IsBalanced r.1) (winode m.freeinode _ _) _
      (winode-Gives m.freeinode _ _ b) (λ m' b'. b')

block_of-Gives :
    (fbn : ℕ) (din : Dinode) (m : Image)
    → IsBalanced m
    → Gives (λ (r : ℕ × Dinode × Image). IsBalanced r.2) (block_of fbn din m)
unfolding block_of
block_of-Gives fbn din m b = elim (Bool-cases (ltb fbn (ndirect + nindirect))) [
  | inr e ↦ rw e tt
  | inl e ↦ elim (Bool-cases (ltb fbn ndirect)) [
    | inl f ↦ rw (e, f) (ensure_addr-IsBalanced fbn din m b)
    | inr f ↦
        let through = ensure_addr ndirect din m in
        rw (e, f)
          (then_do-Gives (λ (w : ℕ × Image). IsBalanced w.1)
            (λ (r : ℕ × Dinode × Image). IsBalanced r.2)
            (ensure_indirect (xint (addr_at ndirect through.0)) (fbn - ndirect) through.1) _
            (ensure_indirect-Gives _ (fbn - ndirect) _ (ensure_addr-IsBalanced ndirect din m b))
            (λ w b'. b'))
  ]
]

append_from-Gives :
    (fuel off : ℕ) (p : List ℕ) (din : Dinode) (m : Image)
    → IsBalanced m
    → Gives (λ (r : ℕ × Dinode × Image). IsBalanced r.2) (append_from fuel off p din m)
unfolding append_from wsect
append_from-Gives zero off p din m b = tt
append_from-Gives (suc fuel) off [] din m b = b
append_from-Gives (suc fuel) off (c ∷ p) din m b =
    then_do-Gives (λ (r : ℕ × Dinode × Image). IsBalanced r.2)
      (λ (r : ℕ × Dinode × Image). IsBalanced r.2) (block_of (off / block_size) din m) _
      (block_of-Gives (off / block_size) din m b)
      (λ r b'.
        then_do-Gives (λ (_ : Block). Unit) (λ (r : ℕ × Dinode × Image). IsBalanced r.2)
          (rsect r.0 r.2) _ (rsect-Gives r.0 r.2) (λ buf _. append_from-Gives fuel _ _ r.1 _ b'))

iappend-Gives :
    (inum : ℕ) (p : List ℕ) (m : Image) → IsBalanced m → Gives IsBalanced (iappend inum p m)
unfolding iappend
iappend-Gives inum p m b =
    then_do-Gives (λ (_ : Dinode). Unit) IsBalanced (rinode inum m) _
      (Gives-trivial (rinode inum m))
      (λ din _.
        then_do-Gives (λ (r : ℕ × Dinode × Image). IsBalanced r.2) IsBalanced
          (append_from (suc (length p)) (xint din.size) p din m) _
          (append_from-Gives (suc (length p)) (xint din.size) p din m b)
          (λ r b'. winode-Gives inum _ r.2 b'))

enter-Gives :
    (inum : ℕ) (name : List ℕ) (m : Image) → IsBalanced m → Gives IsBalanced (enter inum name m)
unfolding enter
enter-Gives inum name m b =
    then_do-Gives (λ (padded : List ℕ). Unit) IsBalanced
      (strncpy (replicate dir_size 0) (name ++ (0 ∷ [])) dir_size) _ (Gives-trivial _)
      (λ padded _. iappend-Gives root_inum _ m b)

append_reads-Gives :
    (inum : ℕ) (reads : List (List ℕ)) (m : Image)
    → IsBalanced m
    → Gives IsBalanced (append_reads inum reads m)
unfolding append_reads
append_reads-Gives inum [] m b = b
append_reads-Gives inum (cs ∷ reads) m b =
    then_do-Gives IsBalanced IsBalanced (iappend inum cs m) (append_reads inum reads)
      (iappend-Gives inum cs m b) (append_reads-Gives inum reads)

add_file-Gives :
    (f : List ℕ × List (List ℕ)) (m : Image) → IsBalanced m → Gives IsBalanced (add_file f m)
unfolding add_file
add_file-Gives (name, reads) m b = elim (Bool-cases (has_slash name)) [
  | inl e ↦ rw e tt
  | inr e ↦ rw e (
      then_do-Gives (λ (r : ℕ × Image). IsBalanced r.1) IsBalanced (ialloc t_file m) _
        (ialloc-Gives t_file m b)
        (λ r b'.
          then_do-Gives IsBalanced IsBalanced (enter r.0 (skip_underscore name) r.1)
            (append_reads r.0 reads) (enter-Gives r.0 (skip_underscore name) r.1 b')
            (append_reads-Gives r.0 reads)))
]

add_files-Gives :
    (files : List (List ℕ × List (List ℕ))) (m : Image)
    → IsBalanced m
    → Gives IsBalanced (add_files files m)
unfolding add_files
add_files-Gives [] m b = b
add_files-Gives (f ∷ files) m b =
    then_do-Gives IsBalanced IsBalanced (add_file f m) (add_files files) (add_file-Gives f m b)
      (add_files-Gives files)

clear_from-IsBalanced : (n i : ℕ) (m : Image) → IsBalanced m → IsBalanced (clear_from n i m)
unfolding clear_from wsect
clear_from-IsBalanced zero i m b = b
clear_from-IsBalanced (suc n) i m b = clear_from-IsBalanced n (i + 1) (wsect i (λ a. 0) m) b

format-IsBalanced : (d : Blocks) → IsBalanced (format d)
unfolding format wsect
format-IsBalanced d = clear_from-IsBalanced _ 0 _ refl

-- The superblock that `format` writes to the sector 1, as the kernel reads it.
readsb-format :
    (d : Blocks)
    → readsb (format d).disk ≡ record { size = 1024; nblocks = 985; ninodes = 200; nlog = 10 }
unfolding readsb format wsect super xint put32
readsb-format d = refl

-- By the superblock of the formatted image, the blocks in use are exactly those that were handed out.
abbrev pub IsMarked : Blocks → Image → Type 0
IsMarked d m =
    IsBalanced m
    × (readsb (format d).disk ≡ record { size = 1024; nblocks = 985; ninodes = 200; nlog = 10 })
    × ((c : ℕ)
        → c < 4096
        → in_use (readsb (format d).disk) m.disk c ≡ (if ltb c m.freeblock then 1 else 0))

balloc-Gives : (d : Blocks) (m : Image) → IsBalanced m → Gives (IsMarked d) (balloc m.usedblocks m)
balloc-Gives d m b = elim (balloc_marks m.usedblocks m) [
  | inl (big, e) ↦ rw e tt
  | inr (small, m', e, marked) ↦
      let free : m'.freeblock ≡ m.usedblocks = marked.counters.0 ∙ b in
      let inodes = ap (λ (sb : Superblock). sb.ninodes) (readsb-format d) in
      rw e (
        free ∙ sym marked.counters.1,
        readsb-format d,
        λ c lt.
            marked.marks (readsb (format d).disk) c inodes lt
            ∙ ap (λ k. if ltb c k then 1 else 0) (sym free),
      )
]

fix_root-Gives : (m : Image) → IsBalanced m → Gives IsBalanced (fix_root m)
unfolding fix_root
fix_root-Gives m b =
    then_do-Gives (λ (_ : Dinode). Unit) IsBalanced (rinode root_inum m) _
      (Gives-trivial (rinode root_inum m)) (λ din _. winode-Gives root_inum _ m b)

main-Gives :
    (files : List (List ℕ × List (List ℕ))) (d : Blocks) → Gives (IsMarked d) (main files d)
unfolding main
main-Gives files d =
    then_do-Gives (λ (r : ℕ × Image). IsBalanced r.1) (IsMarked d) (ialloc t_dir (format d)) _
      (ialloc-Gives t_dir (format d) (format-IsBalanced d))
      (λ r b. elim (Bool-cases (r.0 == root_inum)) [
        | inr e ↦ rw e tt
        | inl e ↦ rw e (
            then_do-Gives IsBalanced (IsMarked d) _ (λ m. balloc m.usedblocks m)
              (then_do-Gives IsBalanced IsBalanced _ fix_root
                (then_do-Gives IsBalanced IsBalanced _ (add_files files)
                  (then_do-Gives IsBalanced IsBalanced _ (enter root_inum (46 ∷ 46 ∷ []))
                    (enter-Gives root_inum (46 ∷ []) r.1 b) (enter-Gives root_inum (46 ∷ 46 ∷ [])))
                  (add_files-Gives files))
                fix_root-Gives)
              (balloc-Gives d))
      ])

-- Where `main` of mkfs.c ends normally, from any files, the superblock that it has written to the sector 1
-- before the files reads as 1024 blocks, 985 of them for data, 200 inodes and 10 blocks of log. By
-- this superblock the kernel finds in the bitmap of the image exactly those blocks in use, of the
-- 4096 that the bitmap holds, that lie below the next one to hand out, and the two counters of
-- blocks agree. With no files to add, `main` ends normally.
pub main-IsMarked :
    (files : List (List ℕ × List (List ℕ))) (d : Blocks)
    → Gives (IsMarked d) (main files d) × ((m : Image) × (main [] d ≡ some m))
main-IsMarked files d = (main-Gives files d, main_ends d)
