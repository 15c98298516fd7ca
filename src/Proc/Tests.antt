-- ===== src/Proc/Tests.antt =====
-- The theorems on processes and threads at small process tables.
use assignment.Prelude.{
  ◌∙◌, ap, map, zero, suc, ◌+◌, ◌/◌, ◌%◌, ◌^◌, ltb, Bool-cases, inl, inr, modify, ℕ, ◌<◌, ◌≡◌, refl,
  false, [], ◌∷◌, Option, none, some, arith, ℤ, pos, minus_one, get_elem?, replicate,
}
use assignment.Kernel.{Kernel, Proc, File, unused, running, sleeping, zombie, proc_chan, same_ptr}
use assignment.Samples.{thread, free_entry, kernel, easy}
use assignment.Kalloc.{is_page}
use assignment.File.{filedup}
use assignment.CString.{safestrcpy, copy_from}
use assignment.Proc.Table.{wakeup1}
use assignment.Proc.TableLaws.{KeepsOthers}
use assignment.Proc.Fork.{fork_into, thread_into, share_files, dup_files, idup}
use assignment.Proc.ForkLaws.{Child, fork_into-Child}
use assignment.Proc.ForkReturns.{fork_into_returns}
use assignment.Proc.Exit.{leave, pass_children, pass_on}
use assignment.Proc.ExitLaws.{leave_orphans}
use assignment.Proc.Join.{returns, wait, p2v, freevm_in}
use assignment.Env.{Env}
use assignment.Fs.Block.{update}
use assignment.Vm.Memory.{Vm, ◌>>◌, kfree, pgroundup}
use assignment.Vm.Walk.{walkpgdir}
use assignment.Vm.User.{kernbase, dealloc_from, deallocuvm, free_tables, freevm}
use assignment.Proc.JoinLaws.{IsDeadChild, wait_reaps}

-- The caller in the entry 0 and a free entry.
abbrev caller : Proc
caller = thread 3 minus_one running

abbrev small : Kernel
small = kernel (caller ∷ free_entry ∷ []) [] []

-- A child of the caller that has ended, in the entry 1.
abbrev dead_child : Proc
dead_child = record (thread 4 minus_one zombie) { parent = some 0 }

abbrev with_child : Kernel
with_child = kernel (caller ∷ dead_child ∷ []) [] []

abbrev after_fork : Option (ℤ × Kernel)
unfolding fork_into dup_files filedup idup safestrcpy copy_from
after_fork = fork_into 0 1 free_entry caller 0x8E000000 small

abbrev forked_kernel : Kernel
unfolding fork_into dup_files filedup idup safestrcpy copy_from
forked_kernel = elim after_fork [ none ↦ small | some (r, k) ↦ k ]

fork_into-Child_example :
    (pos 0 ≡ pos (free_entry.pid)) × Child 0 1 0x8E000000 free_entry caller small forked_kernel
unfolding fork_into dup_files filedup idup safestrcpy copy_from
fork_into-Child_example =
    fork_into-Child 0 1 0x8E000000 free_entry caller small forked_kernel (pos 0) refl refl

abbrev threaded_kernel : Kernel
unfolding thread_into share_files safestrcpy copy_from
threaded_kernel = elim (thread_into 1 32 9000 free_entry caller small) [
  | none ↦ small
  | some (r, k) ↦ k
]

-- A whole table: the caller, its child, and free entries.
abbrev table : Kernel
table = kernel (caller ∷ dead_child ∷ replicate 62 free_entry) [] []

leave_orphans_example : (same_ptr (some 9) (some 0) ≡ false) × (◌≡◌ {A = ℕ} 0 1 → zombie ≡ zombie)
unfolding leave pass_children pass_on wakeup1
leave_orphans_example =
    leave_orphans 0 none table refl refl 1 (record dead_child { parent = some 9 }) refl

abbrev siblings : Kernel
siblings = kernel (thread 3 (pos 1) running ∷ thread 3 (pos 2) running ∷ []) [] []

-- A page directory without a table, in the page 0x400000.
abbrev no_tables : Vm
no_tables = record { mem = λ p a. 0; freelist = []; kernel_end = 0 }

abbrev with_memory : Env
with_memory = record easy { freevm = freevm_in no_tables }

-- The memory with the pages that are free when `freevm` is called.
abbrev called_with : Vm
called_with = record no_tables { freelist = 0x400000 ∷ 0x401000 ∷ 0x402000 ∷ [] }

abbrev freed : Vm
freed = record {
  mem = update (no_tables.mem) 0xD000000 (λ a. 1);
  freelist = 0xD000000 ∷ 0x400000 ∷ 0x401000 ∷ 0x402000 ∷ [];
  kernel_end = 0;
}

dealloc_no_tables :
    (fuel pgdir a oldsz : ℕ) → dealloc_from fuel pgdir a oldsz called_with ≡ some (tt, called_with)
unfolding dealloc_from walkpgdir
dealloc_no_tables zero pgdir a oldsz = refl
dealloc_no_tables (suc fuel) pgdir a oldsz = elim (Bool-cases (ltb a oldsz)) [
  | inl e ↦ rw e (dealloc_no_tables fuel pgdir ((a + 4194304) % 2 ^ 32) oldsz)
  | inr e ↦ rw e refl
]

free_no_tables : (n pgdir i : ℕ) → free_tables n pgdir i called_with ≡ some (tt, called_with)
unfolding free_tables
free_no_tables zero pgdir i = refl
free_no_tables (suc n) pgdir i = free_no_tables n pgdir (i + 1)

deallocuvm_no_tables : (pgdir : ℕ) → deallocuvm pgdir kernbase 0 called_with ≡ some (0, called_with)
unfolding deallocuvm
deallocuvm_no_tables pgdir =
    ap (λ (r : Option (Unit {0} × Vm)). elim r [ none ↦ none | some (u, t) ↦ some (0, t) ])
      (dealloc_no_tables (kernbase / 4096 + 1) pgdir (pgroundup 0) kernbase)

freevm_no_tables : freevm 0xD000000 called_with ≡ some (tt, freed)
unfolding freevm
freevm_no_tables =
    ap
      (λ (r : Option (ℕ × Vm)). elim r [
        | none ↦ none
        | some (size, t) ↦ (free_tables 1024 0xD000000 0 >> kfree 0xD000000) t
      ])
      (deallocuvm_no_tables 0xD000000)
    ∙ ap (λ (r : Option (Unit {0} × Vm)). elim r [ none ↦ none | some (u, t) ↦ kfree 0xD000000 t ])
        (free_no_tables 1024 0xD000000 0)

no_child_before :
    (j : ℕ) (q : Proc) → j < 1 → get_elem? with_child.procs j ≡ some q → ¬ IsDeadChild 0 q
no_child_before zero q lt at (parent, dead) = absurd (ground (arith, at, parent))
no_child_before (suc j) q lt at dead = absurd (omega (arith, lt))

wait_reaps_example :
    (k : Kernel) × (wait with_memory 0 with_child ≡ some (returns (pos 4), k))
    × (k.freelist ≡ map p2v freed.freelist)
    × (get_elem? k.procs 1
        ≡ some (record dead_child {
          state = unused;
          kstack = 0;
          pid = 0;
          parent = none;
          name = modify dead_child.name 0 (λ _. 0);
          killed = false;
        }))
    × KeepsOthers 1 with_child.procs k.procs
unfolding is_page
wait_reaps_example =
    wait_reaps with_memory 0 caller with_child refl 1 dead_child no_tables freed refl refl
      (refl, refl) no_child_before refl freevm_no_tables

-- The thread in the entry 0 sleeps in a join.
abbrev joiner : Proc
joiner = record caller { state = sleeping; chan = proc_chan 0 }

first_file : (x : File) × (get_elem? small.files 0 ≡ some x) × (0 < x.ref)
first_file = (_, refl, omega arith)

fork_into_returns_example :
    (k' : Kernel) × (fork_into 0 1 free_entry caller 0x8E000000 small ≡ some (pos 0, k'))
fork_into_returns_example =
    fork_into_returns 0 1 0x8E000000 0 free_entry caller small (first_file, (first_file, tt))
      (omega arith) refl (omega arith) (omega arith) (omega arith)
