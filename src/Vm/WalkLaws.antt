-- ===== src/Vm/WalkLaws.antt =====
-- A page that `mappages` has mapped is found by `uva2ka` (vm.c).
use assignment.Prelude.{
  ℕ, ◌+◌, ◌-◌, ◌*◌, ◌/◌, ◌%◌, ◌^◌, ◌<◌, ◌≡◌, ◌≢◌, refl, sym, ap, ap₂, ◌∙◌, Bool, true, false, ◌&&◌,
  List, ◌∷◌, Option, none, some, arith, ◌==◌, ==_refl, if◌then◌else◌,
}
use assignment.Fs.Block.{Block, Blocks, update, get32, put32, get32-put32}
use assignment.Vm.Memory.{
  Vm, M, ◌>>=◌, return, page_size, pdx, ptx, pte_addr, is_present, is_user, pgrounddown,
}
use assignment.Vm.Walk.{add_table, walkpgdir, map_page, map_from, mappages, uva2ka}

returns_then :
    {A B : Type 0} (m : M A) (f : A → M B) (s t : Vm) (a : A)
    → m s ≡ some (a, t)
    → (m >>= f) s ≡ f a t
returns_then {A} m f s t a e =
    ap (λ (o : Option (A × Vm)). elim o [ none ↦ none | some (a, t) ↦ f a t ]) e

off : (t d : ℕ) → t ≢ d → (b c : Block) → (if d == t then b else c) ≡ c
off t d ne b c = ground (arith, ne)

-- The entry of the directory for an address.
abbrev pub pde_of : ℕ → ℕ → Vm → ℕ
pde_of pgdir va s = get32 (s.mem pgdir) (4 * pdx va)

-- The page table for `va` is in the page `t`, apart from the directory.
pub record HasTable (pgdir va t : ℕ) (s : Vm) : Type 0 where
  pub present : is_present (pde_of pgdir va s) ≡ true
  pub is_at : pte_addr (pde_of pgdir va s) ≡ t
  pub apart : t ≢ pgdir

walk_present :
    (pgdir va t : ℕ) (alloc : Bool) (s : Vm)
    → HasTable pgdir va t s
    → walkpgdir pgdir va alloc s ≡ some (some (t, ptx va), s)
unfolding walkpgdir
walk_present pgdir va t alloc s h = rw (h.present) (ap (λ a. some (some (a, ptx va), s)) h.is_at)

-- The state in which the entry of `va` in the table `t` is set.
abbrev mapped : ℕ → ℕ → ℕ → Vm → Vm
mapped t i w s = record s { mem = update (s.mem) t (put32 (4 * i) w (s.mem t)) }

map_page_at :
    (pgdir va t pa : ℕ) (s s1 : Vm)
    → walkpgdir pgdir va true s ≡ some (some (t, ptx va), s1)
    → is_present (get32 (s1.mem t) (4 * ptx va)) ≡ false
    → map_page pgdir va pa 6 s ≡ some (true, mapped t (ptx va) (pa + 6 + 1) s1)
unfolding map_page
map_page_at pgdir va t pa s s1 walk free =
    returns_then (walkpgdir pgdir va true) _ s s1 (some (t, ptx va)) walk ∙ rw free refl

uva2ka-mapped :
    (pgdir va t pa : ℕ) (s : Vm)
    → HasTable pgdir va t s
    → pa % 4096 ≡ 0
    → pa + 7 < 4294967296
    → uva2ka pgdir va (mapped t (ptx va) (pa + 6 + 1) s)
      ≡ some (some pa, mapped t (ptx va) (pa + 6 + 1) s)
unfolding uva2ka
uva2ka-mapped pgdir va t pa s h aligned small =
    let s' : Vm = mapped t (ptx va) (pa + 6 + 1) s in
    let same : s'.mem pgdir ≡ s.mem pgdir =
      off t pgdir (h.apart) (put32 (4 * ptx va) (pa + 6 + 1) (s.mem t)) (s.mem pgdir) in
    let pde : pde_of pgdir va s' ≡ pde_of pgdir va s =
      ap (λ (b : Block). get32 b (4 * pdx va)) same in
    let h' : HasTable pgdir va t s' = record {
      present = ap is_present pde ∙ h.present;
      is_at = ap pte_addr pde ∙ h.is_at;
      apart = h.apart;
    } in
    let word : get32 (s'.mem t) (4 * ptx va) ≡ pa + 6 + 1 =
      ap
        (λ (b : Bool).
          get32 (if b then put32 (4 * ptx va) (pa + 6 + 1) (s.mem t) else s.mem t) (4 * ptx va))
        (==_refl t)
      ∙ get32-put32 (4 * ptx va) (pa + 6 + 1) (s.mem t) (omega (arith, small)) in
    returns_then (walkpgdir pgdir va false) _ s' s' (some (t, ptx va))
      (walk_present pgdir va t false s' h')
    ∙ ap (λ w. (if is_present w && is_user w then return (some (pte_addr w)) else return none) s')
        word
    ∙ rw (user_entry pa aligned) (ap (λ a. some (some a, s')) (address pa aligned))
  where
    user_entry : (pa : ℕ) → pa % 4096 ≡ 0 → (is_present (pa + 6 + 1) && is_user (pa + 6 + 1)) ≡ true
    user_entry pa aligned = ground (arith, aligned)

    address : (pa : ℕ) → pa % 4096 ≡ 0 → pte_addr (pa + 6 + 1) ≡ pa
    address pa aligned = omega (arith, aligned)

mappages_one :
    (pgdir va pa : ℕ) (s : Vm)
    → va % 4096 ≡ 0
    → va < 4294967296
    → mappages pgdir va page_size pa 6 s ≡ map_page pgdir va pa 6 s
unfolding mappages map_from
mappages_one pgdir va pa s aligned small =
    let count : (pgrounddown ((va + page_size + 4294967295) % 2 ^ 32) + 2 ^ 32 - pgrounddown va)
          % 2 ^ 32
          / page_size
        ≡ 0 =
      omega (arith, aligned, small) in
    let start : pgrounddown va ≡ va = omega (arith, aligned) in
    ap₂ (λ n a. map_from n pgdir a pa 6 s) count start

-- The state in which the page `t` is a new table for `va`.
abbrev with_table : ℕ → ℕ → ℕ → List ℕ → Vm → Vm
with_table pgdir va t ps s =
    let zeros : Blocks = update (s.mem) t (λ _. 0) in
    record s { freelist = ps; mem = update zeros pgdir (put32 (4 * pdx va) (t + 7) (zeros pgdir)) }

walk_absent :
    (pgdir va t : ℕ) (ps : List ℕ) (s : Vm)
    → is_present (pde_of pgdir va s) ≡ false
    → s.freelist ≡ t ∷ ps
    → walkpgdir pgdir va true s ≡ some (some (t, ptx va), with_table pgdir va t ps s)
unfolding walkpgdir add_table
walk_absent pgdir va t ps s absent free = rw absent (rw free refl)

with_table-HasTable :
    (pgdir va t : ℕ) (ps : List ℕ) (s : Vm)
    → t ≢ pgdir
    → t % 4096 ≡ 0
    → t + 7 < 4294967296
    → HasTable pgdir va t (with_table pgdir va t ps s)
      × (is_present (get32 ((with_table pgdir va t ps s).mem t) (4 * ptx va)) ≡ false)
with_table-HasTable pgdir va t ps s apart aligned small =
    let zeros : Blocks = update (s.mem) t (λ _. 0) in
    let word : pde_of pgdir va (with_table pgdir va t ps s) ≡ t + 7 =
      ap
        (λ (b : Bool).
          get32 (if b then put32 (4 * pdx va) (t + 7) (zeros pgdir) else zeros pgdir) (4 * pdx va))
        (==_refl pgdir)
      ∙ get32-put32 (4 * pdx va) (t + 7) (zeros pgdir) small in
    let page : zeros t ≡ (λ a. 0) =
      ap (λ (c : Bool). if c then (λ (a : ℕ). 0) else s.mem t) (==_refl t) in
    (
      record {
        present = ap is_present word ∙ ground (arith, aligned);
        is_at = ap pte_addr word ∙ omega (arith, aligned);
        apart = apart;
      },
      ap (λ (b : Block). is_present (get32 b (4 * ptx va)))
          (off pgdir t (λ e. apart (sym e)) (put32 (4 * pdx va) (t + 7) (zeros pgdir)) (zeros t)
            ∙ page),
    )

-- What a page at `va` needs: a page table in `t` whose entry is free, or a page `t` to make one of.
pub data CanMap (pgdir va t : ℕ) (s : Vm) : Type 0 where
  in_table :
      HasTable pgdir va t s
      → is_present (get32 (s.mem t) (4 * ptx va)) ≡ false
      → CanMap pgdir va t s
  in_new :
      (ps : List ℕ)
      → is_present (pde_of pgdir va s) ≡ false
      → s.freelist ≡ t ∷ ps
      → t ≢ pgdir
      → t % 4096 ≡ 0
      → t + 7 < 4294967296
      → CanMap pgdir va t s

mapped_in :
    (pgdir va t pa : ℕ) (s s1 : Vm)
    → va % 4096 ≡ 0
    → va < 4294967296
    → pa % 4096 ≡ 0
    → pa + 7 < 4294967296
    → walkpgdir pgdir va true s ≡ some (some (t, ptx va), s1)
    → HasTable pgdir va t s1
    → is_present (get32 (s1.mem t) (4 * ptx va)) ≡ false
    → (s' : Vm) × (mappages pgdir va page_size pa 6 s ≡ some (true, s'))
      × (uva2ka pgdir va s' ≡ some (some pa, s'))
mapped_in pgdir va t pa s s1 va_aligned va_small aligned small walk h free = (
  mapped t (ptx va) (pa + 6 + 1) s1,
  mappages_one pgdir va pa s va_aligned va_small ∙ map_page_at pgdir va t pa s s1 walk free,
  uva2ka-mapped pgdir va t pa s1 h aligned small,
)

-- `mappages` of a user page at a page's address succeeds if the address is not mapped and a page table
-- is there or a page is free for it, and `uva2ka` of the address then gives the page.
pub uva2ka-mappages :
    (pgdir va t pa : ℕ) (s : Vm)
    → va % 4096 ≡ 0
    → va < 4294967296
    → pa % 4096 ≡ 0
    → pa + 7 < 4294967296
    → CanMap pgdir va t s
    → (s' : Vm) × (mappages pgdir va page_size pa 6 s ≡ some (true, s'))
      × (uva2ka pgdir va s' ≡ some (some pa, s'))
uva2ka-mappages pgdir va t pa s va_aligned va_small aligned small (in_table h free) =
    mapped_in pgdir va t pa s s va_aligned va_small aligned small (walk_present pgdir va t true s h)
      h free
uva2ka-mappages pgdir va t pa s va_aligned va_small aligned small
      (in_new ps absent free apart t_aligned t_small) =
    let (h, clear) = with_table-HasTable pgdir va t ps s apart t_aligned t_small in
    mapped_in pgdir va t pa s (with_table pgdir va t ps s) va_aligned va_small aligned small
      (walk_absent pgdir va t ps s absent free) h clear
