-- ===== src/Trap/HandlerLaws.antt =====
-- What `trap` (trap.c) does to a process that is killed, or at fault.
use assignment.Prelude.{
  ℕ, ◌%◌, ◌<◌, ◌≡◌, ◌⊎◌, inl, inr, refl, ap, subst, ◌∙◌, Bool, true, false, Option, none, some,
  arith, ◌==◌, if◌then◌else◌, get_elem?, modify, get_elem?-modify_self, Bool-cases, Option-cases,
}
use assignment.Kernel.{Proc}
use assignment.Trap.Handler.{
  Devices, Machine, Outcome, returns, exits, panics, t_syscall, t_irq0, of_proc, is_killed,
  from_user, on_kernel, fault, exit_if_killed, serve, yield_on_tick, trap_syscall, trap,
}

-- A process that is not killed, if it returns.
abbrev IsAlive : Outcome → Type 0
IsAlive (returns m) = is_killed m ≡ false
IsAlive (exits m) = Unit
IsAlive panics = Unit

exit_if_killed-IsAlive :
    (cs : ℕ) (m : Machine) (next : Machine → Outcome)
    → from_user cs ≡ true
    → (is_killed m ≡ false → IsAlive (next m))
    → IsAlive (exit_if_killed cs m next)
unfolding exit_if_killed
exit_if_killed-IsAlive cs m next user h = elim (Bool-cases (is_killed m)) [
  | inl q ↦ rw (q, user) tt
  | inr q ↦ rw q (h q)
]

trap_syscall-IsAlive :
    (devices : Devices) (i : ℕ) (m : Machine) → IsAlive (trap_syscall devices i m)
unfolding trap_syscall
trap_syscall-IsAlive devices i m =
    let m' : Machine = on_kernel (devices.syscall i) m in
    elim (Bool-cases (is_killed m)) [
      | inl q ↦ rw q tt
      | inr q ↦ elim (Bool-cases (is_killed m')) [ inl r ↦ rw (q, r) tt | inr r ↦ rw (q, r) r ]
    ]

trap-IsAlive :
    (devices : Devices) (trapno cs : ℕ) (m : Machine)
    → from_user cs ≡ true
    → IsAlive (trap devices trapno cs m)
unfolding trap
trap-IsAlive devices trapno cs m user = elim (Bool-cases (trapno == t_syscall)) [
  | inl q ↦ elim (Option-cases m.cur) [
    | inl c ↦ rw (q, c) tt
    | inr (i, c) ↦ rw (q, c) (trap_syscall-IsAlive devices i m)
  ]
  | inr q ↦ elim (Option-cases (serve devices trapno cs m)) [
    | inl s ↦ rw (q, s) tt
    | inr (m1, s) ↦
        rw (q, s)
          (exit_if_killed-IsAlive cs m1 _ user λ _.
            exit_if_killed-IsAlive cs (yield_on_tick devices trapno m1) returns user λ alive. alive)
  ]
]

-- `trap` never returns into user mode while the process is marked as killed, whatever the drivers, the
-- system call and the other processes do to it meanwhile.
pub trap_returns_alive :
    (devices : Devices) (trapno cs : ℕ) (m m' : Machine)
    → from_user cs ≡ true
    → trap devices trapno cs m ≡ returns m'
    → is_killed m' ≡ false
trap_returns_alive devices trapno cs m m' user e =
    subst IsAlive e (trap-IsAlive devices trapno cs m user)

-- `proc->killed = 1` for the process `i`.
abbrev pub mark_killed : ℕ → Machine → Machine
mark_killed i =
    on_kernel (λ k. record k { procs = modify k.procs i (λ p. record p { killed = true }) })

of_proc-some :
    (test : Proc → Bool) (i : ℕ) (m : Machine)
    → m.cur ≡ some i
    → of_proc test m ≡ elim (get_elem? m.kernel.procs i) [ none ↦ false | some p ↦ test p ]
unfolding of_proc
of_proc-some test i m c =
    ap
      (λ (o : Option ℕ). elim o [
        | none ↦ false
        | some j ↦ elim (get_elem? m.kernel.procs j) [ none ↦ false | some p ↦ test p ]
      ])
      c

fault-some :
    (cs i : ℕ) (m : Machine)
    → m.cur ≡ some i
    → fault cs m ≡ (if cs % 4 == 0 then none else some (mark_killed i m))
unfolding fault
fault-some cs i m c =
    ap
      (λ (o : Option ℕ). elim o [
        | none ↦ none
        | some j ↦ if cs % 4 == 0 then none else some (mark_killed j m)
      ])
      c

is_killed-mark_killed :
    (i : ℕ) (p : Proc) (m : Machine)
    → m.cur ≡ some i
    → get_elem? m.kernel.procs i ≡ some p
    → is_killed (mark_killed i m) ≡ true
is_killed-mark_killed i p m c at =
    let now = get_elem?-modify_self m.kernel.procs i (λ p. record p { killed = true }) at in
    of_proc-some (λ p. p.killed) i (mark_killed i m) c ∙ rw now refl

serve-fault :
    (devices : Devices) (trapno cs : ℕ) (m : Machine)
    → trapno < t_irq0
    → serve devices trapno cs m ≡ fault cs m
unfolding serve
serve-fault devices trapno cs m lt = ground arith

-- An exception of the processor, while a process runs, ends this process, marked as killed, if it comes
-- from user mode; if it comes from the kernel it is a panic.
pub exception_ends :
    (devices : Devices) (trapno cs i : ℕ) (p : Proc) (m : Machine)
    → trapno < t_irq0
    → m.cur ≡ some i
    → get_elem? m.kernel.procs i ≡ some p
    → (cs % 4 ≡ 0) ⊎ (cs % 4 ≡ 3)
    → trap devices trapno cs m ≡ (if from_user cs then exits (mark_killed i m) else panics)
unfolding trap exit_if_killed
exception_ends devices trapno cs i p m lt c at (inl kernel) =
    let q : (trapno == t_syscall) ≡ false = ground arith in
    let s : serve devices trapno cs m ≡ none =
      serve-fault devices trapno cs m lt ∙ fault-some cs i m c ∙ rw kernel refl in
    rw (q, trap) (rw (s, kernel) refl)
exception_ends devices trapno cs i p m lt c at (inr user) =
    let q : (trapno == t_syscall) ≡ false = ground arith in
    let s : serve devices trapno cs m ≡ some (mark_killed i m) =
      serve-fault devices trapno cs m lt ∙ fault-some cs i m c ∙ rw user refl in
    let k : is_killed (mark_killed i m) ≡ true = is_killed-mark_killed i p m c at in
    rw (q, trap) (rw s (rw (user, k) refl))
