-- ===== src/Syscall/Tests.antt =====
-- The theorems on system call arguments at a small process.
use assignment.Prelude.{
  ℕ, pos, ◌≢◌, ◌+◌, ◌≤◌, ◌<◌, ◌≡◌, ◌⊎◌, refl, none, some, arith, ◌==◌, if◌then◌else◌,
}
use assignment.Syscall.Args.{User, fetchint, argint, argptr, scan, fetchstr}
use assignment.Syscall.Dispatch.{Call, number, to_int, syscall}
use assignment.Syscall.DispatchLaws.{syscall_exact}
use assignment.Syscall.ArgsLaws.{HasNoEnd, EndsAt, fetchstr_measures, argptr_inside}

-- 64 bytes, with the first argument 20 and the string "ab" at 20.
abbrev user : User
user = record {
  sz = 64;
  esp = 0;
  mem = λ a. if a == 4 then 20 else (if a == 20 then 97 else (if a == 21 then 98 else 0));
}

fetchstr_measures_example :
    ((fetchstr user 20 ≡ none) × ((64 ≤ 20) ⊎ HasNoEnd user.mem 20 44))
    ⊎ ((k : ℕ) × (fetchstr user 20 ≡ some k) × (20 + k < 64) × EndsAt user.mem 20 44 k)
fetchstr_measures_example = fetchstr_measures user 20

two_long : fetchstr user 20 ≡ some 2
unfolding fetchstr scan
two_long = refl

fits : argptr 0 8 user ≡ some 20
unfolding argptr argint fetchint
fits = refl

argptr_inside_example : (argint 0 user ≡ some 20) × (20 < 64) × (20 + 8 ≤ 64)
argptr_inside_example = argptr_inside 0 8 user 20 (omega arith) fits

-- Call 13, and a call that does nothing.
syscall_exact_example :
    ((c : Call) × (to_int 13 ≡ pos (number c)) × (syscall {S = ℕ} (λ c s. (0, s)) 13 5 ≡ (0, 5)))
    ⊎ (((c : Call) → to_int 13 ≢ pos (number c))
        × (syscall {S = ℕ} (λ c s. (0, s)) 13 5 ≡ (4294967295, 5)))
syscall_exact_example = syscall_exact {S = ℕ} (λ c s. (0, s)) 13 5
