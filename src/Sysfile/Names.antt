-- ===== src/Sysfile/Names.antt =====
-- The system calls of sysfile.c that change names: link, unlink, create, mkdir, mknod and chdir. `cwd`
-- is that of the caller. The begin and end of a transaction are left out.
use assignment.Prelude.{
  ℕ, zero, suc, ◌+◌, ◌-◌, ◌/◌, ◌%◌, ◌^◌, Bool, true, false, ◌&&◌, ◌||◌, List, [], ◌∷◌, Option, none,
  some, ℤ, pos, minus_one, ◌==◌, ◌==ℤ◌, leb, if◌then◌else◌, replicate,
}
use assignment.Fs.Monad.{Inode, M, ◌>>=◌, ◌>>◌, return, panic, lift, inode, set_inode}
use assignment.Fs.Inode.{ialloc, iupdate, ilock, iunlock}
use assignment.Fs.Map.{iput, iunlockput}
use assignment.Fs.File.{Devsw, t_dir, t_dev, writei}
use assignment.Fs.Dir.{dir_size, dirent_size, namecmp, read_dirent, dirlookup, dirlink}
use assignment.Fs.Path.{namei, nameiparent}
use assignment.Syscall.Args.{User, argint, argchars}

abbrev pub t_file : ℕ
t_file = 2

-- "." and "..", and a name before anything is stored in it
abbrev pub dot : List ℕ
dot = 46 ∷ 0 ∷ []

abbrev pub dot_dot : List ℕ
dot_dot = 46 ∷ 46 ∷ 0 ∷ []

abbrev pub no_name : List ℕ
no_name = replicate dir_size 0

-- `ip->nlink++` and `ip->nlink--`, on a `short`
abbrev pub add_link : Inode → Inode
add_link i = record i { node = record (i.node) { nlink = (i.node.nlink + 1) % 2 ^ 16 } }

abbrev pub drop_link : Inode → Inode
drop_link i = record i { node = record (i.node) { nlink = (i.node.nlink + 65535) % 2 ^ 16 } }

-- A name that is "." or "..".
unfoldable pub is_dots : List ℕ → Option Bool
is_dots name = elim (namecmp name dot) [
  | none ↦ none
  | some c ↦
      if c ==ℤ pos 0
      then some true
      else elim (namecmp name dot_dot) [ none ↦ none | some d ↦ some (d ==ℤ pos 0) ]
]

-- The end of `sys_link` at `bad`.
unfoldable pub undo_link : ℕ → M ℤ
undo_link ip = do ilock ip; set_inode ip drop_link; iupdate ip; iunlockput ip; return minus_one

module _ (devsw : Devsw) where
  -- `sys_link` from the lookup of the parent of `new` on.
  unfoldable pub link_at : ℕ → ℕ → List ℕ → M ℤ
  link_at cwd ip new = do
    found ← nameiparent devsw cwd new no_name
    elim found [
      | none ↦ undo_link ip
      | some (dp, name) ↦ do
        ilock dp
        d ← inode dp
        i ← inode ip
        r ← (if d.dev == i.dev then dirlink devsw dp name i.inum else return minus_one)
        if r ==ℤ pos 0
            then (do iunlockput dp; iput ip; return (pos 0))
            else (do iunlockput dp; undo_link ip)
    ]

  -- `sys_link` of two paths.
  unfoldable pub link : ℕ → List ℕ → List ℕ → M ℤ
  link cwd old new = do
    found ← namei devsw cwd old no_name
    elim found [
      | none ↦ return minus_one
      | some (ip, name) ↦ do
        ilock ip
        i ← inode ip
        if i.node.type == t_dir
            then (do iunlockput ip; return minus_one)
            else (do set_inode ip add_link; iupdate ip; iunlock ip; link_at cwd ip new)
    ]

  unfoldable pub sys_link : ℕ → User → M ℤ
  sys_link cwd u = elim (argchars 0 u) [
    | none ↦ return minus_one
    | some old ↦ elim (argchars 1 u) [ none ↦ return minus_one | some new ↦ link cwd old new ]
  ]

  -- The loop of `isdirempty` from the offset `off` on, with `n` entries left.
  unfoldable pub empty_on : ℕ → ℕ → ℕ → M Bool
  empty_on zero dp off = return true
  empty_on (suc n) dp off = do
    de ← read_dirent devsw dp off
    if de.inum == 0 then empty_on n dp (off + dirent_size) else return false

  unfoldable pub isdirempty : ℕ → M Bool
  isdirempty dp = do i ← inode dp; empty_on ((i.node.size - 32 + 15) / dirent_size) dp 32

  -- The part of `sys_unlink` that removes the entry at `off`.
  unfoldable pub remove : ℕ → ℕ → ℕ → Bool → M ℤ
  remove dp ip off is_dir = do
    r ← writei devsw dp (replicate dirent_size 0) off
    if r ==ℤ pos 16 then return tt else panic
    if is_dir then (set_inode dp drop_link >> iupdate dp) else return tt
    iunlockput dp
    set_inode ip drop_link
    iupdate ip
    iunlockput ip
    return (pos 0)

  -- `sys_unlink` from the lookup of the name on.
  unfoldable pub unlink_name : ℕ → List ℕ → M ℤ
  unlink_name dp name = do
    found ← dirlookup devsw dp name
    elim found [
      | none ↦ iunlockput dp >> return minus_one
      | some (ip, off) ↦ do
        ilock ip
        i ← inode ip
        if i.node.nlink == 0 || leb 32768 i.node.nlink then panic else return tt
        empty ← (if i.node.type == t_dir then isdirempty ip else return true)
        if empty
            then remove dp ip off (i.node.type == t_dir)
            else (do iunlockput ip; iunlockput dp; return minus_one)
    ]

  -- `sys_unlink` of a path.
  unfoldable pub unlink : ℕ → List ℕ → M ℤ
  unlink cwd path = do
    found ← nameiparent devsw cwd path no_name
    elim found [
      | none ↦ return minus_one
      | some (dp, name) ↦ do
        ilock dp
        dots ← lift (is_dots name)
        if dots then (iunlockput dp >> return minus_one) else unlink_name dp name
    ]

  unfoldable pub sys_unlink : ℕ → User → M ℤ
  sys_unlink cwd u = elim (argchars 0 u) [ none ↦ return minus_one | some path ↦ unlink cwd path ]

  -- The entries "." and ".." of a new directory.
  unfoldable pub add_dots : ℕ → ℕ → M (Unit {0})
  add_dots ip dp = do
    i ← inode ip
    r ← dirlink devsw ip dot i.inum
    if r ==ℤ pos 0 then return tt else panic
    d ← inode dp
    r ← dirlink devsw ip dot_dot d.inum
    if r ==ℤ pos 0 then return tt else panic

  -- `create` of a name that the directory `dp` does not have.
  unfoldable pub create_in : ℕ → List ℕ → ℕ → ℕ → ℕ → M ℕ
  create_in dp name type major minor = do
    d ← inode dp
    ip ← ialloc d.dev type
    ilock ip
    set_inode ip
        (λ i. record i { node = record (i.node) { major = major; minor = minor; nlink = 1 } })
    iupdate ip
    if type == t_dir then (do set_inode dp add_link; iupdate dp; add_dots ip dp) else return tt
    i ← inode ip
    r ← dirlink devsw dp name i.inum
    if r ==ℤ pos 0 then return tt else panic
    iunlockput dp
    return ip

  -- `create`; the inode that it returns is locked.
  unfoldable pub create : ℕ → List ℕ → ℕ → ℕ → ℕ → M (Option ℕ)
  create cwd path type major minor = do
    found ← nameiparent devsw cwd path no_name
    elim found [
      | none ↦ return none
      | some (dp, name) ↦ do
        ilock dp
        old ← dirlookup devsw dp name
        elim old [
          | none ↦ do ip ← create_in dp name type major minor; return (some ip)
          | some (ip, off) ↦ do
            iunlockput dp
            ilock ip
            i ← inode ip
            if type == t_file && i.node.type == t_file
                then return (some ip)
                else (iunlockput ip >> return none)
        ]
    ]

  -- The end of `sys_mkdir` and `sys_mknod`.
  unfoldable pub make : ℕ → List ℕ → ℕ → ℕ → ℕ → M ℤ
  make cwd path type major minor = do
    made ← create cwd path type major minor
    elim made [ none ↦ return minus_one | some ip ↦ iunlockput ip >> return (pos 0) ]

  unfoldable pub sys_mkdir : ℕ → User → M ℤ
  sys_mkdir cwd u = elim (argchars 0 u) [
    | none ↦ return minus_one
    | some path ↦ make cwd path t_dir 0 0
  ]

  unfoldable pub sys_mknod : ℕ → User → M ℤ
  sys_mknod cwd u = elim (argchars 0 u) [
    | none ↦ return minus_one
    | some path ↦ elim (argint 1 u) [
      | none ↦ return minus_one
      | some major ↦ elim (argint 2 u) [
        | none ↦ return minus_one
        | some minor ↦ make cwd path t_dev (major % 2 ^ 16) (minor % 2 ^ 16)
      ]
    ]
  ]

  -- `sys_chdir`: the result and the working directory.
  unfoldable pub chdir : ℕ → List ℕ → M (ℤ × ℕ)
  chdir cwd path = do
    found ← namei devsw cwd path no_name
    elim found [
      | none ↦ return (minus_one, cwd)
      | some (ip, name) ↦ do
        ilock ip
        i ← inode ip
        if i.node.type == t_dir
            then (do iunlock ip; iput cwd; return (pos 0, ip))
            else (iunlockput ip >> return (minus_one, cwd))
    ]

  unfoldable pub sys_chdir : ℕ → User → M (ℤ × ℕ)
  sys_chdir cwd u = elim (argchars 0 u) [
    | none ↦ return (minus_one, cwd)
    | some path ↦ chdir cwd path
  ]
