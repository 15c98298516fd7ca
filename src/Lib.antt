-- ===== src/Lib.antt =====
-- A verification library for the kernel of this repository, xv6 with kernel threads, mutexes and
-- condition variables, and for its package of user-level threads.
--
-- The parts and the files that model them. Definitions carry the names of the C functions, with
-- words parted by `_`.
--
-- Uthread (uthread.c, uthread.h): the threads of one user process. `Uthread.Sched` has the static
-- variables as the record `Sched` and the two policies (`getNextRoundRobin`, `getNextPB`);
-- `Uthread.Ring` the search for the next slot that both share; `Uthread.Ops` the operations.
-- `uthread_yield` and `uthread_exit` return where control goes, with the registers that are
-- loaded; those that are stored are arguments. `none` is an access outside `threads` or through
-- the null pointer. The proofs are in `Uthread.Policy`, `Uthread.Inv`, `Uthread.Switch`,
-- `Uthread.Yield`.
--
-- Kernel (proc.h, file.h, kthread.h, the variables of proc.c and kalloc.c): the state of the
-- kernel as one record. An entry of the process table is named by its index, and a null pointer is
-- `none`. Unlike the pointers of C the channels of `sleep` are a data type, `Chan`.
--
-- Sync (proc.c from line 45 and from line 750 on): mutexes and condition variables. `Sync.Queue`
-- has the ring of waiting threads and `isInQueue`, `Sync.Mutex` and `Sync.Cond` the operations,
-- each one step because a table lock is held throughout. `kthread_mutex_lock` and
-- `kthread_cond_wait` give the lock up before they block, and `Sync.Calls` puts another thread's
-- steps in between: `step` is one call of one thread and `run` a sequence of them. `Sync.Fifo`
-- relates a ring to the list of those that wait; `Sync.Search`, `Sync.Exclusion`, `Sync.Traces`,
-- `Sync.Handoff`, `Sync.Used`, `Sync.Stale` and `Sync.Races` have the proofs.
--
-- Kalloc (kalloc.c), File (file.c): the free pages and the counts of open files. CString and
-- Memory (string.c): the functions on strings, as lists of bytes, and on memory, as a byte at each
-- address.
--
-- Spinlock (spinlock.c): the spin locks on one processor, with the nesting of `pushcli`.
--
-- Env: what the process code calls from other files (`copyuvm`, `freevm`, `iput`,
-- and what `fileclose` does with a last reference), as a record that the definitions take;
-- `freevm_in` of `Proc.Join` is the `freevm` of Vm in it.
--
-- Proc (proc.c): `Proc.Table` (allocation, sleep and wakeup, kill, the scheduler's choice),
-- `Proc.Fork` (`fork`, `kthread_create`), `Proc.Exit` (`New_exit`, `kthread_exit`), `Proc.Join`
-- (`wait`, `kthread_join`), each with its proofs in the module of the same name with `Laws`;
-- `Proc.ForkReturns` is about the cases in which `fork` returns. `none` is a panic, a null access
-- or a thread that never returns. `wait` and `kthread_join` return what one round of their loop
-- comes to, since the caller sleeps between two rounds.
--
-- Pipe (pipe.c): `Pipe.Buffer` has the ring of bytes with its two 32-bit counters and relates it
-- to a list, `Pipe.Ops` the four operations, each up to the point where it sleeps. The proofs are
-- in `Pipe.Transfer`, `Pipe.Roundtrip` and `Pipe.Ends`.
--
-- Log (log.c): `Log.Disk` has the operations as the lists of the writes to the disk that they
-- make, so that a crash is a prefix of such a list. `log_write` and the buffer cache below it are
-- seen only by these writes. The proofs are in `Log.Install` and `Log.Recovery`.
--
-- Fs (fs.c, fs.h, stat.h and file.h): the file system on one device. `Fs.Monad` has its state, the
-- blocks as a byte at each offset and the list of cached inodes, and the form of an operation,
-- which returns, panics, or sleeps on a busy inode and ends there. `bread` gives a block and
-- `log_write` changes it at once, and `brelse` does nothing. `Fs.Block` has the bits and the
-- little-endian words of a block, `Fs.Alloc` the superblock and the bitmap, `Fs.Dinode` the inode
-- on disk, `Fs.Inode` the inode cache and its locks, `Fs.Map` the blocks of a file and `iput`,
-- `Fs.File` `readi` and `writei`, `Fs.Dir` directories and `Fs.Path` path names. The device
-- functions of `devsw` are a parameter. The proofs are in the modules with `Laws`.
--
-- Syscall (syscall.c, sysproc.c): `Syscall.Args` has the arguments of a system call, read from the
-- memory of the caller, `Syscall.Dispatch` the table and the choice of a call, with what the calls
-- do as a parameter, and `Syscall.Calls` the calls that pass their arguments on to proc.c. A
-- variable that is not set when `argint` fails is an argument.
--
-- Trap (trap.c): `trap`, with the drivers, the system call and what other processes do while this
-- one waits as a parameter. A path that ends in `exit` ends there.
--
-- Exec (exec.c, `loaduvm` of vm.c, `sys_exec` of sysfile.c): `Exec.Monad` joins the states of Fs and
-- Vm, `Exec.Load` has the headers and the segments of a program, `Exec.Stack` its stack, and
-- `Exec.Run` `exec` with its jumps to `bad`. What a variable holds before it is set is an argument.
--
-- Sysfile (file.c, sysfile.c): `Sysfile.Files` has the operations on open files, over the inodes of
-- Fs and with the operations of pipes as a parameter, `Sysfile.Calls` the descriptors,
-- `Sysfile.Names` the calls that change names and `Sysfile.Open` `sys_open` and the end of
-- `sys_pipe`. The tables of files and descriptors are arguments and results. The proofs are in
-- `Sysfile.FilesLaws` and `Sysfile.NamesLaws`, those on directories in `Fs.DirLaws`.
--
-- Text (printf.c, ulib.c, console.c): numbers and formats as lists of characters, and the functions
-- of ulib.c on strings. Console (console.c, kbd.c): the ring of typed characters, where a read ends
-- when it sleeps, and in `Console.Keyboard` the codes of the keyboard.
--
-- Bio (bio.c, memide.c): the buffer cache as the list of its buffers by recency, over a disk in
-- memory, and `Bio.Links` the links `prev` and `next` of the buffers, which `Bio.Refine` relates to that
-- list. It stands by itself; the models above it take `bread` as transparent.
--
-- Vm (vm.c, mmu.h, kalloc.c on pages, and growproc): `Vm.Memory` has the physical pages as
-- bytes, named by their physical addresses, and the words of page tables, `Vm.Walk` the walk and
-- the mapping of pages, `Vm.User` the operations on the user part, `Vm.Grow` `growproc` and
-- `sys_sbrk`; the loops over pages are counted from the addresses at their ends. `Env` stands
-- for these operations in the process model.
--
-- Shell (sh.c): the tokens and the parser of the shell.
--
-- Umalloc (umalloc.c): `Umalloc.Heap` has the allocator of the user programs on the fields of the
-- headers, with `sbrk` as a parameter. The proofs follow the loop of `free`, its stores, and both.
--
-- Tools (grep.c, wc.c, ls.c): `Tools.Regex` has the matcher of grep.c, `Tools.Grep` the loop that
-- applies it to the lines of a buffer, `Tools.Count` the counter of wc.c and `fmtname` of ls.c.
-- What `read` gives is a list of its results.
--
-- Mkfs (mkfs.c): the builder of the image, with the layouts of Fs: `Mkfs.Image` has the sectors, the
-- inodes and the bitmap, `Mkfs.Append` `iappend`, `Mkfs.Build` `main`. `none` is an assertion that
-- fails, or the `exit` of `rsect` behind the end of the image; the host is little-endian.
--
-- Numbers are naturals, and a C `int` that can be negative is an integer `ℤ`; the counts are below
-- the bounds of `int`, and where a theorem needs this it says so. `rem` is the remainder of C.
--
-- Bounds and fuel. The searches of uthread.c run on fuel 64, one round of the array, which ends
-- at the slot where they began. `isInQueue` runs on fuel 66: its index starts anywhere in the
-- ring of 256, and after one step stays below 64. The loops over the process table take its 64
-- entries one by one. The loops of `readi` and `writei` run on one unit of fuel for each byte,
-- since each round moves one at least, that of `namex` on one more than the length of the path,
-- and that of `filewrite` on one for each byte. `printint` runs on fuel 32, above the 10 digits
-- of a 32-bit word in base 10 and the 8 in base 16. The loops of the parser run on one unit for
-- each character that is left, and a line inside a line on one unit less. The loop of `iappend` has one unit more than there are bytes, and
-- that of `grep` one more than the buffer has, since each round moves on by one at least; `loaduvm`
-- goes round once for each page that it loads. The loop of `free` needs one unit for each block of
-- its list; that of `malloc` runs on the fuel that it is given. Control-U takes back
-- at most the 128 characters of the ring.
--
-- Not modelled: the switch of stacks, interrupts, the locks in the tables (each section under a
-- table lock is one step), what the kernel prints on the way, and the files that neither this list
-- nor `Env` names: the drivers, which are input and output through ports and mapped memory, the
-- start of the machine, and the user programs but those named here.
pub mod Prelude
pub mod Kernel
pub mod Env
pub mod Uthread
pub mod Sync
pub mod Kalloc
pub mod CString
pub mod File
pub mod Proc
pub mod Pipe
pub mod Vm
pub mod Log
pub mod Bio
pub mod Fs
pub mod Syscall
pub mod Sysfile
pub mod Console
pub mod Text
pub mod Shell
pub mod Umalloc
pub mod Tools
pub mod Exec
pub mod Trap
pub mod Mkfs
pub mod Memory
pub mod Spinlock
pub mod Samples
