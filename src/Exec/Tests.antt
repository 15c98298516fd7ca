-- ===== src/Exec/Tests.antt =====
-- A stack of one page, and one argument.
use assignment.Prelude.{ℕ, ◌≡◌, refl, List, [], ◌∷◌, some, arith}
use assignment.Fs.Block.{Blocks, update, put32}
use assignment.Vm.Walk.{walkpgdir, uva2ka}
use assignment.Vm.User.{copyout, copyout_from}
use assignment.Fs.File.{overwrite}
use assignment.Exec.Monad.{Sys, Result, gives, waits, fails, in_vm}
use assignment.Exec.Stack.{place, push_args, ustack, stack_top, push_stack}
use assignment.Exec.StackLaws.{Laid, push_stack-Laid}

-- The page directory is the page 4096, and its table, 8192, has the page 12288 at the address 4096.
abbrev tables : Blocks
tables = update (update (λ p a. 0) 4096 (put32 0 8199 (λ a. 0))) 8192 (put32 4 12295 (λ a. 0))

abbrev system : Sys
system = record {
  fs = record { blocks = λ b a. 0; icache = [] };
  vm = record { mem = tables; freelist = []; kernel_end = 0 };
}

-- "hi"
abbrev argv : List (List ℕ)
argv = (104 ∷ 105 ∷ []) ∷ []

abbrev state_of : {A : Type 0} → Result A → Sys
state_of (gives a t) = t
state_of (waits ip t) = t
state_of fails = system

pushed :
    push_stack 4096 8192 argv system
    ≡ gives (some 8168) (state_of (push_stack 4096 8192 argv system))
unfolding push_stack push_args in_vm copyout copyout_from uva2ka walkpgdir place ustack stack_top
    put32 overwrite
pushed = refl

push_stack-Laid_example :
    Laid 4096 8192 8168 argv system.vm (state_of (push_stack 4096 8192 argv system)).vm
push_stack-Laid_example =
    push_stack-Laid 4096 8192 8168 argv system (state_of (push_stack 4096 8192 argv system))
      (omega arith) (omega arith) pushed
