-- ===== src/Proc/JoinLaws.antt =====
-- `wait` on each branch, and `kthread_join` with the exit that ends it.
use assignment.Prelude.{
  ap, dec_lt, ==_refl, map, ◌<◌, ℕ, zero, suc, ◌≡◌, ◌≢◌, refl, ◌∙◌, true, false, List, [], ◌∷◌,
  Option, none, some, arith, pos, minus_one, ==ℤ_refl, get_elem?, modify, get_elem?-modify_self,
  get_elem?-modify_ne, find_index, find_index-some, find_index-le, count_if, Option-cases,
  Bool-cases, inl, inr, ◌⊎◌,
}
use assignment.Kernel.{Kernel, Proc, zombie, unused, runnable, Chan, proc_chan, same_ptr}
use assignment.Kalloc.{is_page, kfree, v2p}
use assignment.Env.{Env}
use assignment.Vm.Memory.{Vm}
use assignment.Vm.User.{freevm}
use assignment.Proc.Join.{p2v, freevm_in}
use assignment.Proc.Table.{wakeup1, sleeps_on, sleep}
use assignment.Proc.TableLaws.{get_elem?-wakeup1, KeepsOthers}
use assignment.Proc.Exit.{reaped, wake_joiners}
use assignment.Proc.Join.{
  returns, sleeps, wait, reap, is_child, is_dead_child, joins, kthread_join, is_joinable, is_free,
}

same_ptr-some : (a : Option ℕ) (cur : ℕ) → same_ptr a (some cur) ≡ true → a ≡ some cur
same_ptr-some none cur e = absurd (ground (arith, e))
same_ptr-some (some i) cur e = ap some (ground (arith, e))

freevm_in_lem :
    (vm vm' : Vm) (pgdir : ℕ) (freelist : List ℕ)
    → freevm (v2p pgdir) (record vm { freelist = map v2p freelist }) ≡ some (tt, vm')
    → freevm_in vm pgdir freelist ≡ some (map p2v vm'.freelist)
unfolding freevm_in
freevm_in_lem vm vm' pgdir freelist e = rw (e, freevm_in) refl

-- A zombie whose parent is the process of the entry `cur`.
abbrev pub IsDeadChild : ℕ → Proc → Type 0
IsDeadChild cur p = (p.parent ≡ some cur) × (p.state ≡ zombie)

IsDeadChild-is_dead_child : (cur : ℕ) (p : Proc) → IsDeadChild cur p → is_dead_child cur p ≡ true
IsDeadChild-is_dead_child cur p (parent, dead) = rw (parent, dead) (rw (==_refl cur) refl)

is_dead_child-IsDeadChild : (cur : ℕ) (p : Proc) → is_dead_child cur p ≡ true → IsDeadChild cur p
is_dead_child-IsDeadChild cur p e =
    (same_ptr-some p.parent cur (ground (arith, e)), ground (arith, e))

-- The search for a zombie child ends at the first one.
first_dead :
    (cur i : ℕ) (p : Proc) (ps : List Proc)
    → get_elem? ps i ≡ some p
    → IsDeadChild cur p
    → ((j : ℕ) (q : Proc) → j < i → get_elem? ps j ≡ some q → ¬ IsDeadChild cur q)
    → find_index (is_dead_child cur) ps ≡ some i
first_dead cur i p ps at dead first =
    let (j, found, le) =
      find_index-le (is_dead_child cur) ps i p at (IsDeadChild-is_dead_child cur p dead) in
    let (q, at_j, is_dead) = find_index-some (is_dead_child cur) ps j found in
    elim (dec_lt j i) [
      | yes lt ↦ absurd (first j q lt at_j (is_dead_child-IsDeadChild cur q is_dead))
      | no ge ↦ let same : j ≡ i = omega (arith, le, ge) in found ∙ ap some same
    ]

module _ (env : Env) (cur : ℕ) (proc : Proc) (k : Kernel)
    (caller : get_elem? k.procs cur ≡ some proc) where
  -- If the entry `i` is the first zombie child of the caller, its kernel stack is a page, and the
  -- `freevm` of vm.c returns for its page directory over the memory `vm`, then `wait` returns the
  -- pid of the child. The free list is what `freevm` makes of it after the stack's page was put in
  -- front; the entry is UNUSED, has no stack, pid, parent or name and is not marked as killed; the
  -- other entries are as they were.
  pub wait_reaps :
      (i : ℕ) (p : Proc) (vm vm' : Vm)
      → env.freevm ≡ freevm_in vm
      → get_elem? k.procs i ≡ some p
      → IsDeadChild cur p
      → ((j : ℕ) (q : Proc) → j < i → get_elem? k.procs j ≡ some q → ¬ IsDeadChild cur q)
      → is_page k.kernel_end p.kstack ≡ true
      → freevm (v2p p.pgdir) (record vm { freelist = map v2p (p.kstack ∷ k.freelist) })
        ≡ some (tt, vm')
      → (k' : Kernel) × (wait env cur k ≡ some (returns (pos p.pid), k'))
        × (k'.freelist ≡ map p2v vm'.freelist)
        × (get_elem? k'.procs i
            ≡ some (record p {
              state = unused;
              kstack = 0;
              pid = 0;
              parent = none;
              name = modify p.name 0 (λ _. 0);
              killed = false;
            }))
        × KeepsOthers i k.procs k'.procs
  unfolding wait reap kfree
  wait_reaps i p vm vm' calls at dead first page freed = (
    record k { freelist = map p2v vm'.freelist; procs = modify k.procs i reaped },
    rw (caller, wait)
        (rw (first_dead cur i p k.procs at dead first, at)
          (rw (page, reap, kfree)
            (rw
              (ap (λ f. f p.pgdir (p.kstack ∷ k.freelist)) calls
                ∙ freevm_in_lem vm vm' p.pgdir (p.kstack ∷ k.freelist) freed)
              refl))),
    refl,
    get_elem?-modify_self k.procs i reaped at,
    λ j ne. get_elem?-modify_ne k.procs i j reaped ne,
  )

  -- With no zombie child `wait` returns -1 and changes nothing if the caller has no child at all or
  -- has been killed; otherwise the caller sleeps on its own entry until a child ends.
  pub wait_waits :
      find_index (is_dead_child cur) k.procs ≡ none
      → ((wait env cur k ≡ some (returns minus_one, k))
          × ((count_if (is_child cur) k.procs ≡ 0) ⊎ (proc.killed ≡ true)))
        ⊎ ((wait env cur k ≡ some (sleeps, sleep cur (proc_chan cur) k))
            × (count_if (is_child cur) k.procs ≢ 0)
            × (proc.killed ≡ false))
  unfolding wait
  wait_waits none_dead = ground (arith, caller, none_dead)

abbrev RunnableAt : ℕ → List Proc → Type 0
RunnableAt cur ps = (q : Proc) × (get_elem? ps cur ≡ some q) × (q.state ≡ runnable)

woken_now :
    (cur : ℕ) (chan : Chan) (ps : List Proc) (q : Proc)
    → get_elem? ps cur ≡ some q
    → sleeps_on chan q ≡ true
    → RunnableAt cur (wakeup1 chan ps)
woken_now cur chan ps q at asleep =
    (record q { state = runnable }, get_elem?-wakeup1 chan ps cur ∙ rw (at, asleep) refl, refl)

stays_runnable :
    (ts : List (Option ℕ)) (cur : ℕ) (ps : List Proc)
    → RunnableAt cur ps
    → RunnableAt cur (wake_joiners ts ps)
unfolding wake_joiners
stays_runnable [] cur ps h = h
stays_runnable (none ∷ ts) cur ps h = stays_runnable ts cur ps h
stays_runnable (some i ∷ ts) cur ps (q, at, run) =
    let awake : sleeps_on (proc_chan i) q ≡ false = ground (arith, run) in
    stays_runnable ts cur (wakeup1 (proc_chan i) ps)
      (q, get_elem?-wakeup1 (proc_chan i) ps cur ∙ rw (at, awake) refl, run)

-- The thread that sleeps in a join wakes when the thread that it waits for ends.
pub wake_joiners_wakes :
    (ts : List (Option ℕ)) (s cur : ℕ) (ps : List Proc) (q : Proc)
    → get_elem? ts s ≡ some (some cur)
    → get_elem? ps cur ≡ some q
    → sleeps_on (proc_chan cur) q ≡ true
    → (q' : Proc) × (get_elem? (wake_joiners ts ps) cur ≡ some q') × (q'.state ≡ runnable)
unfolding wake_joiners
wake_joiners_wakes [] s cur ps q listed at asleep = absurd (ground (arith, listed))
wake_joiners_wakes (none ∷ ts) zero cur ps q listed at asleep = absurd (ground (arith, listed))
wake_joiners_wakes (none ∷ ts) (suc s) cur ps q listed at asleep =
    wake_joiners_wakes ts s cur ps q listed at asleep
wake_joiners_wakes (some i ∷ ts) zero cur ps q listed at asleep =
    let same : i ≡ cur = ground (arith, listed) in
    stays_runnable ts cur _ (rw same (woken_now cur (proc_chan cur) ps q at asleep))
wake_joiners_wakes (some i ∷ ts) (suc s) cur ps q listed at asleep =
    elim (Bool-cases (sleeps_on (proc_chan i) q)) [
      | inl h ↦ stays_runnable ts cur _ (woken_now cur (proc_chan i) ps q at h)
      | inr h ↦
          wake_joiners_wakes ts s cur (wakeup1 (proc_chan i) ps) q listed
            (get_elem?-wakeup1 (proc_chan i) ps cur ∙ rw (at, h) refl) asleep
    ]

-- `kthread_join` on the id of a thread that has been reaped does not fail: the entry keeps the id,
-- and the caller goes to sleep in the list of a thread that will not end.
pub join_reaped :
    (k : Kernel) (i cur : ℕ) (p : Proc)
    → get_elem? k.procs i ≡ some p
    → (j : ℕ) × (s : ℕ) × (k' : Kernel) × (kthread_join p.thread_id cur
          (record k { procs = modify k.procs i reaped })
        ≡ some (joins j s, k'))
unfolding kthread_join
join_reaped k i cur p at =
    let ps = modify k.procs i reaped in
    let gone : Kernel = record k { procs = ps } in
    let found =
      find_index-le (is_joinable p.thread_id) ps i (reaped p)
        (get_elem?-modify_self k.procs i reaped at) (rw (==ℤ_refl p.thread_id) refl) in
    let slot = find_index-some (is_joinable p.thread_id) ps found.0 found.1 in
    elim (Option-cases (find_index is_free (slot.0).sleeping_threads)) [
      | inl full ↦ (
        found.0,
        64,
        sleep cur (proc_chan cur) gone,
        rw (found.1, kthread_join) (rw slot.1 (rw full refl)),
      )
      | inr (s, free) ↦ (
        found.0,
        s,
        sleep cur (proc_chan cur) (record gone {
          procs =
              modify ps found.0
                (λ t. record t { sleeping_threads = modify t.sleeping_threads s (λ _. some cur) });
        }),
        rw (found.1, kthread_join) (rw slot.1 (rw free refl)),
      )
    ]
