-- ===== src/Syscall/DispatchLaws.antt =====
-- `syscall` (syscall.c) against the numbers of syscall.h.
use assignment.Prelude.{
  ℕ, zero, suc, ◌+◌, ◌-◌, ◌^◌, ◌≡◌, ◌≢◌, ◌⊎◌, inl, inr, refl, sym, ap, ◌∙◌, List, [], ◌∷◌, Option,
  none, some, ℤ, pos, negsuc, arith, get_elem?, Option-cases,
}
use assignment.Syscall.Dispatch.{Call, number, syscalls, to_int, entry, chosen, syscall}

-- Every entry from the index `i` on stands at the number of its call.
abbrev AreNumbered : ℕ → List (Option Call) → Type 0
AreNumbered i [] = Unit
AreNumbered i (none ∷ cs) = AreNumbered (i + 1) cs
AreNumbered i (some c ∷ cs) = (i ≡ number c) × AreNumbered (i + 1) cs

AreNumbered-get :
    (i n : ℕ) (c : Call) (cs : List (Option Call))
    → AreNumbered i cs
    → get_elem? cs n ≡ some (some c)
    → i + n ≡ number c
AreNumbered-get i n c [] all e = absurd (ground arith)
AreNumbered-get i zero c (none ∷ cs) all e = absurd (ground arith)
AreNumbered-get i zero c (some d ∷ cs) all e =
    let same : d ≡ c = ground arith in omega (arith, all.0 ∙ ap number same)
AreNumbered-get i (suc n) c (none ∷ cs) all e = omega (arith, AreNumbered-get (i + 1) n c cs all e)
AreNumbered-get i (suc n) c (some d ∷ cs) all e =
    omega (arith, AreNumbered-get (i + 1) n c cs all.1 e)

entry-number : (c : Call) → chosen (pos (number c)) ≡ some c
unfolding chosen entry
entry-number Call.sys_fork = refl
entry-number Call.sys_exit = refl
entry-number Call.sys_wait = refl
entry-number Call.sys_pipe = refl
entry-number Call.sys_read = refl
entry-number Call.sys_kill = refl
entry-number Call.sys_exec = refl
entry-number Call.sys_fstat = refl
entry-number Call.sys_chdir = refl
entry-number Call.sys_dup = refl
entry-number Call.sys_getpid = refl
entry-number Call.sys_sbrk = refl
entry-number Call.sys_sleep = refl
entry-number Call.sys_uptime = refl
entry-number Call.sys_open = refl
entry-number Call.sys_write = refl
entry-number Call.sys_mknod = refl
entry-number Call.sys_unlink = refl
entry-number Call.sys_link = refl
entry-number Call.sys_mkdir = refl
entry-number Call.sys_close = refl
entry-number Call.sys_kthread_create = refl
entry-number Call.sys_kthread_id = refl
entry-number Call.sys_kthread_exit = refl
entry-number Call.sys_kthread_join = refl
entry-number Call.sys_kthread_mutex_alloc = refl
entry-number Call.sys_kthread_mutex_dealloc = refl
entry-number Call.sys_kthread_mutex_lock = refl
entry-number Call.sys_kthread_mutex_unlock = refl
entry-number Call.sys_kthread_cond_alloc = refl
entry-number Call.sys_kthread_cond_dealloc = refl
entry-number Call.sys_kthread_cond_wait = refl
entry-number Call.sys_kthread_cond_signal = refl

syscalls-AreNumbered : AreNumbered 0 syscalls
syscalls-AreNumbered = ground arith

number-entry : (n : ℕ) (c : Call) → entry n ≡ some c → n ≡ number c
unfolding entry
number-entry n c e = elim (Option-cases (get_elem? syscalls n)) [
  | inl q ↦ absurd (ground (arith, q, e))
  | inr (d, q) ↦ omega (
    arith,
    AreNumbered-get 0 n c syscalls syscalls-AreNumbered (q ∙ ap some (ground (arith, q, e))),
  )
]

chosen-number : (num : ℤ) (c : Call) → chosen num ≡ some c → num ≡ pos (number c)
unfolding chosen
chosen-number (negsuc n) c e = absurd (ground arith)
chosen-number (pos n) c e = ap pos (number-entry n c (ground (arith, e)))

-- The table of syscall.c agrees with the numbers of syscall.h: if the number in `eax` is that of a call,
-- `syscall` makes this call and leaves its result in `eax`, and if it is that of none, `eax`
-- becomes -1 and nothing else changes.
pub syscall_exact :
    {S : Type 0} (run : Call → S → ℕ × S) (eax : ℕ) (s : S)
    → ((c : Call) × (to_int eax ≡ pos (number c)) × (syscall run eax s ≡ run c s))
      ⊎ (((c : Call) → to_int eax ≢ pos (number c)) × (syscall run eax s ≡ (2 ^ 32 - 1, s)))
unfolding syscall
syscall_exact run eax s = elim (Option-cases (chosen (to_int eax))) [
  | inl q ↦
      inr
        (λ c e. absurd (ground (arith, sym q ∙ ap chosen e ∙ entry-number c)), rw (q, syscall) refl)
  | inr (c, q) ↦ inl (c, chosen-number (to_int eax) c q, rw (q, syscall) refl)
]
