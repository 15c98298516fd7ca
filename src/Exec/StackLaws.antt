-- ===== src/Exec/StackLaws.antt =====
-- Where `exec` (exec.c) puts the arguments of a program.
use assignment.Prelude.{
  ℕ, ◌+◌, ◌-◌, ◌*◌, ◌%◌, ◌^◌, ◌≤◌, ◌<◌, ◌≡◌, inl, inr, refl, ap, subst, ◌∙◌, true, List, [], ◌∷◌,
  ◌++◌, Option, none, some, arith, leb, length, Bool-cases,
}
use assignment.Vm.Memory.{Vm}
use assignment.Vm.Memory
use assignment.Vm.User.{copyout}
use assignment.Exec.Monad.{Sys, Result, gives, waits, fails, M, ◌>>=◌, return, in_vm, ◌or_bad◌}
use assignment.Exec.Stack.{maxarg, place, push_args, word_bytes, ustack, stack_top, push_stack}

-- What holds of a result that is given.
abbrev pub Ensures {κ} : {A : Type 0} → (A → Sys → Type κ) → Result A → Type κ
Ensures P (gives a t) = P a t
Ensures P (waits ip t) = Unit
Ensures P fails = Unit

Ensures-in_vm {κ} :
    {A B : Type 0} (P : B → Sys → Type κ) (m : Memory.M A) (f : A → M B) (s : Sys)
    → ((a : A) (v : Vm) → m s.vm ≡ some (a, v) → Ensures P (f a (record s { vm = v })))
    → Ensures P ((in_vm m >>= f) s)
unfolding in_vm
Ensures-in_vm {A} {B} P m f s h = go (m s.vm) refl
  where
    next : Option (A × Vm) → Result B
    next o =
        elim (elim o as (λ x. Result A) [
          | none ↦ fails
          | some (a, v) ↦ gives a (record s { vm = v })
        ]) [ gives a t ↦ f a t | waits ip t ↦ waits ip t | fails ↦ fails ]

    go : (o : Option (A × Vm)) → m s.vm ≡ o → Ensures P (next o)
    go none e = tt
    go (some (a, v)) e = h a v e

Ensures-or_bad {κ λ'} :
    {A B : Type 0} (Q : Option A → Sys → Type κ) (P : Option B → Sys → Type λ') (m : M (Option A))
    (f : A → M (Option B)) (s : Sys)
    → Ensures Q (m s)
    → ((t : Sys) → P none t)
    → ((a : A) (t : Sys) → Q (some a) t → Ensures P (f a t))
    → Ensures P ((m or_bad f) s)
Ensures-or_bad {A} {B} Q P m f s q bad h = go (m s) q
  where
    next : Result (Option A) → Result (Option B)
    next r = elim r [
      | gives o t ↦ (elim o as (λ x. M (Option B)) [ none ↦ return none | some a ↦ f a ]) t
      | waits ip t ↦ waits ip t
      | fails ↦ fails
    ]

    go : (r : Result (Option A)) → Ensures Q r → Ensures P (next r)
    go (gives none t) q = bad t
    go (gives (some a) t) q = h a t q
    go (waits ip t) q = tt
    go fails q = tt

-- The arguments have been copied, each with its zero, to addresses that are multiples of 4, one below the
-- other from `sp` down to `sp'`, which turned the memory `v` into `v'`.
abbrev pub Pushed : ℕ → Vm → ℕ → List (List ℕ) → Vm → ℕ → List ℕ → Type 0
Pushed pgdir v sp [] v' sp' [] = (v ≡ v') × (sp ≡ sp')
Pushed pgdir v sp [] v' sp' (p ∷ ps) = ⊥
Pushed pgdir v sp (arg ∷ argv) v' sp' [] = ⊥
Pushed pgdir v sp (arg ∷ argv) v' sp' (p ∷ ps) =
    (p + length arg + 1 ≤ sp)
    × (p % 4 ≡ 0)
    × ((w : Vm) × (copyout pgdir p (arg ++ (0 ∷ [])) v ≡ some (true, w))
        × Pushed pgdir w p argv v' sp' ps)

-- The bytes that the arguments need at most.
abbrev pub room : List (List ℕ) → ℕ
room [] = 0
room (arg ∷ argv) = length arg + 4 + room argv

place_below :
    (sp : ℕ) (arg : List ℕ)
    → length arg + 4 ≤ sp
    → sp < 4294967296
    → (place sp arg + length arg + 1 ≤ sp)
      × (place sp arg % 4 ≡ 0)
      × (sp ≤ place sp arg + length arg + 4)
unfolding place
place_below sp arg fits small = (omega arith, omega arith, omega arith)

abbrev PushedBy : ℕ → Vm → ℕ → List (List ℕ) → Option (ℕ × List ℕ) → Sys → Type 0
PushedBy pgdir v sp argv none t = Unit
PushedBy pgdir v sp argv (some (sp', ps)) t =
    Pushed pgdir v sp argv t.vm sp' ps
    × (sp ≤ sp' + room argv)
    × (sp' ≤ sp)
    × (length ps ≡ length argv)

push_args-PushedBy :
    (pgdir argc sp : ℕ) (argv : List (List ℕ)) (s : Sys)
    → room argv ≤ sp
    → sp < 4294967296
    → Ensures (PushedBy pgdir s.vm sp argv) (push_args pgdir argc sp argv s)
unfolding push_args
push_args-PushedBy pgdir argc sp [] s fits small = ((refl, refl), omega arith, omega arith, refl)
push_args-PushedBy pgdir argc sp (arg ∷ argv) s fits small = elim (Bool-cases (leb maxarg argc)) [
  | inl e ↦ rw e tt
  | inr e ↦ rw e (
      let p = place sp arg in
      let (below, aligned, near) = place_below sp arg (omega (arith, fits)) small in
      Ensures-in_vm (PushedBy pgdir s.vm sp (arg ∷ argv)) (copyout pgdir p (arg ++ (0 ∷ []))) _ s
        λ done v copied. elim (Bool-cases done) [
          | inr no_room ↦ rw no_room tt
          | inl yes_room ↦ rw yes_room (
              Ensures-or_bad (PushedBy pgdir v p argv) (PushedBy pgdir s.vm sp (arg ∷ argv))
                (push_args pgdir (argc + 1) p argv) _ (record s { vm = v })
                (push_args-PushedBy pgdir (argc + 1) p argv (record s { vm = v })
                  (omega (arith, fits, near)) (omega (arith, below, small)))
                (λ t. tt)
                (λ (sp', ps) t (pushed, far, under, count). (
                  (below, aligned, (v, copied ∙ ap (λ b. some (b, v)) yes_room, pushed)),
                  omega (arith, far, near),
                  omega (arith, under, below),
                  omega (arith, count),
                )))
        ])
]

-- The stack of a program with the arguments `argv`, from `top` down to `esp`: the strings, and below them
-- what the program finds at `esp`, its return address, `argc`, `argv`, and the array that `argv`
-- points to, with a zero at its end.
pub record Laid (pgdir top esp : ℕ) (argv : List (List ℕ)) (v v' : Vm) : Type 0 where
  pub args : List ℕ
  pub sp : ℕ
  pub between : Vm
  pub pushed : Pushed pgdir v top argv between sp args
  pub copied : copyout pgdir esp (word_bytes (ustack sp args)) between ≡ some (true, v')
  pub words : ustack sp args ≡ 0xFFFFFFFF ∷ length argv ∷ (esp + 12) ∷ (args ++ (0 ∷ []))
  pub below : esp + 4 * (length argv + 4) ≡ sp

abbrev LaidBy : ℕ → ℕ → List (List ℕ) → Vm → Option ℕ → Sys → Type 0
LaidBy pgdir top argv v none t = Unit
LaidBy pgdir top argv v (some esp) t = Laid pgdir top esp argv v t.vm

-- The addresses that `exec` computes for `sp` and for `argv`.
stack_words :
    (sp n : ℕ) (args : List ℕ)
    → length args ≡ n
    → 4 * (n + 4) ≤ sp
    → sp < 4294967296
    → (stack_top sp args + 4 * (n + 4) ≡ sp)
      × (ustack sp args ≡ 0xFFFFFFFF ∷ n ∷ (stack_top sp args + 12) ∷ (args ++ (0 ∷ [])))
unfolding stack_top ustack
stack_words sp n args e fits small =
    let array : (sp + 2 ^ 32 - (length args + 1) * 4) % 2 ^ 32
        ≡ (sp + 2 ^ 32 - (3 + length args + 1) * 4) % 2 ^ 32 + 12 =
      omega (arith, e, fits, small) in
    (omega (arith, e), λ i. 0xFFFFFFFF ∷ e i ∷ array i ∷ (args ++ (0 ∷ [])))

push_stack-LaidBy :
    (pgdir top : ℕ) (argv : List (List ℕ)) (s : Sys)
    → room argv + 4 * (length argv + 4) ≤ top
    → top < 4294967296
    → Ensures (LaidBy pgdir top argv s.vm) (push_stack pgdir top argv s)
unfolding push_stack
push_stack-LaidBy pgdir top argv s fits small =
    Ensures-or_bad (PushedBy pgdir s.vm top argv) (LaidBy pgdir top argv s.vm)
      (push_args pgdir 0 top argv) _ s
      (push_args-PushedBy pgdir 0 top argv s (omega (arith, fits)) small) (λ t. tt)
      (λ (sp, args) t (pushed, far, under, count).
        Ensures-in_vm (LaidBy pgdir top argv s.vm)
          (copyout pgdir (stack_top sp args) (word_bytes (ustack sp args))) _ t
          λ done v copied. elim (Bool-cases done) [
            | inr no_room ↦ rw no_room tt
            | inl yes_room ↦
                let (below, words) =
                  stack_words sp (length argv) args count (omega (arith, fits, far))
                    (omega (arith, under, small)) in
                rw yes_room (record {
                  args = args;
                  sp = sp;
                  between = t.vm;
                  pushed = pushed;
                  copied = copied ∙ ap (λ b. some (b, v)) yes_room;
                  words = words;
                  below = below;
                })
          ])

-- If the arguments have room below `top`, and `exec` puts them on the stack, then each is copied with
-- its zero to an address that is a multiple of 4, below the one before and clear of it, and at
-- the new `esp` stand the words by which the program finds them.
pub push_stack-Laid :
    (pgdir top esp : ℕ) (argv : List (List ℕ)) (s t : Sys)
    → room argv + 4 * (length argv + 4) ≤ top
    → top < 4294967296
    → push_stack pgdir top argv s ≡ gives (some esp) t
    → Laid pgdir top esp argv s.vm t.vm
push_stack-Laid pgdir top esp argv s t fits small e =
    subst (Ensures (LaidBy pgdir top argv s.vm)) e (push_stack-LaidBy pgdir top argv s fits small)
