-- ===== src/Pipe/Ops.antt =====
-- `pipealloc`, `pipeclose`, `pipewrite` and `piperead` (pipe.c). Each runs under the pipe's lock, which
-- `sleep` gives up, so that an operation ends where it sleeps; `none` is a panic or a null access. The
-- pipe is given with the address of its page.
use assignment.Prelude.{
  ℕ, zero, suc, ◌+◌, Bool, true, false, ◌&&◌, ◌||◌, not, List, [], ◌∷◌, Option, none, some, ℤ, pos,
  minus_one, ◌==◌, if◌then◌else◌, get_elem?, modify, length,
}
use assignment.Kernel.{Kernel, File, fd_pipe, Chan, address}
use assignment.Kalloc.{kalloc, kfree}
use assignment.File.{filealloc, fileclose}
use assignment.Env.{Env}
use assignment.Proc.Table.{sleep, wakeup1}
use assignment.Pipe.Buffer.{Pipe, is_empty, is_full, put_byte, get_byte}

-- `&p->nread` and `&p->nwrite`: the lock has 52 bytes and the data 512.
abbrev pub read_chan : ℕ → Chan
read_chan a = address (a + 564)

abbrev pub write_chan : ℕ → Chan
write_chan a = address (a + 568)

-- `wakeup(chan)`
abbrev pub wakeup : Chan → Kernel → Kernel
wakeup chan k = record k { procs = wakeup1 chan k.procs }

-- What a call comes to: it returns, or sleeps with `i` bytes moved.
pub data Transfer : Type 0 where
  returns : ℤ → Transfer
  sleeps : (i : ℕ) → Transfer

-- `pipewrite` at a full pipe with `i` bytes written: it gives up, or sleeps until a byte is read.
unfoldable pub wait_for_room : ℕ → ℕ → ℕ → Pipe → Kernel → Option (Transfer × Pipe × Kernel)
wait_for_room cur a i p k = elim (get_elem? k.procs cur) [
  | none ↦ none
  | some proc ↦
      if not p.readopen || proc.killed
      then some (returns minus_one, p, k)
      else some (sleeps i, p, sleep cur (write_chan a) (wakeup (read_chan a) k))
]

-- The loop of `pipewrite` with `i` bytes written and those of the list left.
unfoldable pub write_from : ℕ → ℕ → ℕ → List ℕ → Pipe → Kernel → Option (Transfer × Pipe × Kernel)
write_from cur a i [] p k = some (returns (pos i), p, wakeup (read_chan a) k)
write_from cur a i (c ∷ cs) p k =
    let rest = write_from cur a (i + 1) cs (put_byte c p) k in
    if is_full p then wait_for_room cur a i p k else rest

-- `pipewrite`, of `n` bytes from `addr` on, `n` from 0 on. A call that slept goes on as `write_from`.
unfoldable pub pipewrite : ℕ → ℕ → List ℕ → Pipe → Kernel → Option (Transfer × Pipe × Kernel)
pipewrite cur a addr p k = write_from cur a 0 addr p k

-- The `for` loop of `piperead` with `n` bytes left to read: those read, and the pipe.
unfoldable pub read_bytes : ℕ → Pipe → List ℕ × Pipe
read_bytes zero p = ([], p)
read_bytes (suc n) p =
    let rest = read_bytes n (get_byte p).1 in
    if is_empty p then ([], p) else ((get_byte p).0 ∷ rest.0, rest.1)

-- What `piperead` gives: the bytes stored at `addr` are those of the list.
abbrev pub Read : Type 0
Read = Transfer × List ℕ × Pipe × Kernel

unfoldable pub wait_for_byte : ℕ → ℕ → Pipe → Kernel → Option Read
wait_for_byte cur a p k = elim (get_elem? k.procs cur) [
  | none ↦ none
  | some proc ↦
      if proc.killed
      then some (returns minus_one, [], p, k)
      else some (sleeps 0, [], p, sleep cur (read_chan a) k)
]

-- `piperead` of `n` bytes, `n` from 0 on. A call that slept starts again.
unfoldable pub piperead : ℕ → ℕ → ℕ → Pipe → Kernel → Option Read
piperead cur a n p k =
    if is_empty p && p.writeopen
    then wait_for_byte cur a p k
    else (let (bytes, p') = read_bytes n p in
        some (returns (pos (length bytes)), bytes, p', wakeup (write_chan a) k))

-- `pipeclose`: the pipe, or nothing when both ends are closed and its page is freed.
unfoldable pub close_end : Bool → Pipe → Pipe
close_end true p = record p { writeopen = false }
close_end false p = record p { readopen = false }

unfoldable pub pipeclose : ℕ → Bool → Pipe → Kernel → Option (Option Pipe × Kernel)
pipeclose a writable p k =
    let p' = close_end writable p in
    let k' = wakeup (if writable then read_chan a else write_chan a) k in
    if not p'.readopen && not p'.writeopen
    then elim (kfree k'.kernel_end a k'.freelist) [
      | none ↦ none
      | some freelist ↦ some (none, record k' { freelist = freelist })
    ]
    else some (some p', k')

-- What `pipealloc` makes: two entries of the file table, and the pipe with its page.
pub record Ends : Type 0 where
  pub f0 : ℕ
  pub f1 : ℕ
  pub page : ℕ
  pub pipe : Pipe

-- The two ends as `pipealloc` sets them.
abbrev pub pipe_end : ℕ → Bool → File → File
pipe_end a writable f = record f {
  type = fd_pipe;
  readable = not writable;
  writable = writable;
  pipe = some a;
}

-- The way out at `bad`, where no page is held.
unfoldable pub undo_files : Env → ℕ → Option ℕ → Kernel → Option (Option Ends × Kernel)
undo_files env f0 f1 k = elim (fileclose env f0 k) [
  | none ↦ none
  | some k1 ↦ elim f1 [
    | none ↦ some (none, k1)
    | some j ↦ elim (fileclose env j k1) [ none ↦ none | some k2 ↦ some (none, k2) ]
  ]
]

-- `pipealloc`, with what the page holds at `data`: nothing, for the result -1, or the two files.
unfoldable pub pipealloc : Env → List ℕ → Kernel → Option (Option Ends × Kernel)
pipealloc env junk k =
    let (f0, files0) = filealloc k.files in
    elim f0 [
      | none ↦ some (none, k)
      | some i ↦
          let (f1, files1) = filealloc files0 in
          elim f1 [
            | none ↦ undo_files env i none (record k { files = files0 })
            | some j ↦
                let (page, freelist) = kalloc k.freelist in
                if page == 0
                then undo_files env i (some j) (record k { files = files1; freelist = freelist })
                else some (
                  some (record {
                    f0 = i;
                    f1 = j;
                    page = page;
                    pipe = record {
                      buf = junk;
                      nread = 0;
                      nwrite = 0;
                      readopen = true;
                      writeopen = true;
                    };
                  }),
                  record k {
                    files = modify (modify files1 i (pipe_end page false)) j (pipe_end page true);
                    freelist = freelist;
                  },
                )
          ]
    ]
