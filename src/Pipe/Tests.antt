-- ===== src/Pipe/Tests.antt =====
-- The theorems on pipes at small pipes and kernels.
use assignment.Prelude.{
  ℕ, ◌+◌, ◌%◌, ◌^◌, ◌≡◌, refl, true, false, [], ◌∷◌, none, some, arith, pos, minus_one, replicate,
}
use assignment.Kernel.{Kernel, Proc, File, fd_none, running}
use assignment.Samples.{thread, free_entry, kernel}
use assignment.Kalloc.{is_page}
use assignment.Pipe.Buffer.{Pipe, IsPipe}
use assignment.Pipe.Ops.{returns, pipewrite, piperead}
use assignment.Pipe.Roundtrip.{write-read}

abbrev writer : Proc
writer = thread 3 minus_one running

abbrev file_with : ℕ → File
file_with n = record {
  type = fd_none;
  ref = n;
  readable = false;
  writable = false;
  pipe = none;
  ip = none;
  off = 0;
}

-- Two files that nobody refers to, in the entries 0 and 2.
abbrev two_files : Kernel
two_files = record (kernel (writer ∷ free_entry ∷ []) [] []) {
  files = file_with 0 ∷ file_with 3 ∷ file_with 0 ∷ [];
}

-- A pipe whose counters are about to wrap round, with `n` bytes in it.
abbrev near_wrap : ℕ → Pipe
near_wrap n = record {
  buf = replicate 512 7;
  nread = 4294967295;
  nwrite = (4294967295 + n) % 2 ^ 32;
  readopen = true;
  writeopen = true;
}

near_wrap-IsPipe : IsPipe (near_wrap 0) 0
near_wrap-IsPipe = record { room = refl; read = omega arith; written = refl; few = omega arith }

near_wrap-IsPipe_full : IsPipe (near_wrap 512) 512
near_wrap-IsPipe_full = record {
  room = refl;
  read = omega arith;
  written = refl;
  few = omega arith;
}

write-read_example :
    (p1 : Pipe) × (p2 : Pipe) × (k1 : Kernel) × (k2 : Kernel) × (pipewrite 0 0x80500000
        (1 ∷ 2 ∷ [])
        (near_wrap 0)
        two_files
      ≡ some (returns (pos 2), p1, k1))
    × (piperead 1 0x80500000 10 p1 k1 ≡ some (returns (pos 2), 1 ∷ 2 ∷ [], p2, k2))
    × IsPipe p2 0
write-read_example =
    write-read 0 1 0x80500000 10 (1 ∷ 2 ∷ []) (near_wrap 0) two_files near_wrap-IsPipe (omega arith)
      (omega arith) (omega arith)

page_ok : is_page 0x80110000 0x80500000 ≡ true
unfolding is_page
page_ok = refl
