-- ===== src/Mkfs/EndLaws.antt =====
-- `main` of mkfs.c where it is given no files.
use assignment.Prelude.{
  Bool, true, false, ◌≡◌, refl, [], Option, none, some, arith, Option-cases, ap, inl, inr,
}
use assignment.CString.{strncpy, pad}
use assignment.Fs.Block.{Blocks, put16, put32, with_bit}
use assignment.Fs.Dinode.{read_dinode, get_words, write_dinode, put_head, put_words}
use assignment.Fs.File.{overwrite}
use assignment.Fs.Dir.{bytes_of}
use assignment.Mkfs.Image.{
  Image, xshort, xint, wsect, rsect, i2b, winode, rinode, ialloc, mark_from, balloc,
}
use assignment.Mkfs.Append.{use_block, ensure_addr, ensure_indirect, block_of, append_from, iappend}
use assignment.Mkfs.Build.{clear_from, super, format, enter, add_files, fix_root, main}

is_done : Option Image → Bool
is_done none = false
is_done (some m) = true

main-is_done : (d : Blocks) → is_done (main [] d) ≡ true
unfolding main ialloc winode rinode rsect wsect i2b format super clear_from xint xshort read_dinode
    get_words write_dinode put_head put_words put16 put32 enter iappend append_from block_of
    ensure_addr ensure_indirect use_block add_files fix_root balloc mark_from with_bit overwrite
    strncpy pad bytes_of is_done
main-is_done d = refl

-- With no files to add, the build ends normally, whatever the file held before.
pub main_ends : (d : Blocks) → (m : Image) × (main [] d ≡ some m)
unfolding is_done
main_ends d = elim (Option-cases (main [] d)) [
  | inl e ↦ absurd (ground (arith, main-is_done d, ap is_done e))
  | inr (m, e) ↦ (m, e)
]
