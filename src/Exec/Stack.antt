-- ===== src/Exec/Stack.antt =====
-- exec.c, the second part of `exec`: the stack of the new program.
use assignment.Prelude.{
  ℕ, ◌+◌, ◌-◌, ◌*◌, ◌/◌, ◌%◌, ◌^◌, List, [], ◌∷◌, ◌++◌, Option, none, some, ◌==◌, leb,
  if◌then◌else◌, length,
}
use assignment.Vm.Memory.{page_size, pgroundup}
use assignment.Vm.User.{allocuvm, clearpteu, copyout}
use assignment.Exec.Monad.{M, ◌>>=◌, ◌>>◌, return, in_vm, ◌or_bad◌}

-- MAXARG
abbrev pub maxarg : ℕ
maxarg = 32

-- `(sp - (strlen(argv[argc]) + 1)) & ~3`, on `uint`s
unfoldable pub place : ℕ → List ℕ → ℕ
place sp arg = (sp + 2 ^ 32 - (length arg + 1)) % 2 ^ 32 / 4 * 4

-- The loop over `argv`, at the index `argc`: `sp` at its end, and the words from `ustack[3+argc]` on
-- before their zero. An argument is a string without its zero.
unfoldable pub push_args : ℕ → ℕ → ℕ → List (List ℕ) → M (Option (ℕ × List ℕ))
push_args pgdir argc sp [] = return (some (sp, []))
push_args pgdir argc sp (arg ∷ argv) = if leb maxarg argc then return none else (do
  done ← in_vm (copyout pgdir (place sp arg) (arg ++ (0 ∷ [])))
  if done
      then (push_args pgdir (argc + 1) (place sp arg) argv or_bad λ r.
          return (some (r.0, place sp arg ∷ r.1)))
      else return none)

-- The bytes of the words of `ustack`.
abbrev pub word_bytes : List ℕ → List ℕ
word_bytes [] = []
word_bytes (w ∷ ws) =
    (w % 256) ∷ (w / 256 % 256) ∷ (w / 65536 % 256) ∷ (w / 16777216 % 256) ∷ word_bytes ws

-- `ustack`: the return address, `argc`, `argv`, the arguments and a zero.
unfoldable pub ustack : ℕ → List ℕ → List ℕ
ustack sp args =
    0xFFFFFFFF ∷ length args ∷ ((sp + 2 ^ 32 - (length args + 1) * 4) % 2 ^ 32) ∷ (args ++ (0 ∷ []))

-- `sp -= (3+argc+1) * 4`
unfoldable pub stack_top : ℕ → List ℕ → ℕ
stack_top sp args = (sp + 2 ^ 32 - (3 + length args + 1) * 4) % 2 ^ 32

-- The arguments, and `ustack` below them: the new `sp`.
unfoldable pub push_stack : ℕ → ℕ → List (List ℕ) → M (Option ℕ)
push_stack pgdir top argv = push_args pgdir 0 top argv or_bad λ r.
    in_vm (copyout pgdir (stack_top r.0 r.1) (word_bytes (ustack r.0 r.1))) >>= λ done.
    return (if done then some (stack_top r.0 r.1) else none)

-- The two pages behind the program, and what is pushed on the second: the size and `sp`.
unfoldable pub build_stack : ℕ → ℕ → List (List ℕ) → M (Option (ℕ × ℕ))
build_stack pgdir sz argv = do
  let start : ℕ = pgroundup sz
  top ← in_vm (allocuvm pgdir start ((start + 2 * page_size) % 2 ^ 32))
  if top == 0 then return none else (do
    in_vm (clearpteu pgdir ((top + 2 ^ 32 - 2 * page_size) % 2 ^ 32))
    push_stack pgdir top argv or_bad λ sp. return (some (top, sp)))
