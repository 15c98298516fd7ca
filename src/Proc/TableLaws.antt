-- ===== src/Proc/TableLaws.antt =====
-- What the operations on the process table do, on every branch.
use assignment.Prelude.{
  ℕ, zero, suc, ◌+◌, ◌≡◌, ◌≢◌, refl, ◌∙◌, true, List, [], ◌∷◌, none, some, arith, pos, ◌==◌,
  ==_refl, if◌then◌else◌, get_elem?, modify, get_elem?-modify_self, get_elem?-modify_ne, find_index,
  find_index-some, count_if, ==_iff,
}
use mathlib.Core.Option
use assignment.Kernel.{
  Kernel, Proc, unused, embryo, sleeping, runnable, Chan, ◌==chan◌, null, proc_chan, address,
  to_forkret, in_sched,
}
use assignment.Kalloc.{kalloc}
use assignment.Proc.Table.{is_unused, allocproc, sleeps_on, wakeup1, sleep, kill, kill_proc}

-- Entries other than `i` stay as they are.
abbrev pub KeepsOthers : ℕ → List Proc → List Proc → Type 0
KeepsOthers i ps qs = (j : ℕ) → i ≢ j → get_elem? qs j ≡ get_elem? ps j

-- `allocproc` with a free entry and a free page.
pub record Allocated (k : Kernel) (i : ℕ) (k' : Kernel) : Type 0 where
  pub old : Proc
  pub new : Proc
  pub page : ℕ
  pub was : get_elem? k.procs i ≡ some old
  pub free : old.state ≡ unused
  pub now : get_elem? k'.procs i ≡ some new
  pub state : new.state ≡ embryo
  pub pid : new.pid ≡ k.nextpid
  pub stack : new.kstack ≡ page
  pub context : new.context ≡ to_forkret
  pub taken : k.freelist ≡ page ∷ k'.freelist
  pub end : k'.kernel_end ≡ k.kernel_end
  pub next : k'.nextpid ≡ k.nextpid + 1
  pub others : KeepsOthers i k.procs k'.procs

unused_state : (p : Proc) → is_unused p ≡ true → p.state ≡ unused
unused_state p h = ground arith

taken_entry : ℕ → ℕ → Proc → Proc
taken_entry pid page p = record p { pid = pid; kstack = page; state = embryo; context = to_forkret }

allocproc-eq :
    (k : Kernel) (i page : ℕ) (rest : List ℕ)
    → find_index is_unused k.procs ≡ some i
    → k.freelist ≡ page ∷ rest
    → page ≢ 0
    → allocproc k ≡ (
      some i,
      record k {
        nextpid = k.nextpid + 1;
        freelist = rest;
        procs = modify k.procs i (taken_entry k.nextpid page);
      },
    )
unfolding allocproc kalloc taken_entry
allocproc-eq k i page rest e pages real = ground (arith, e, pages, real)

-- If some entry is UNUSED and a page is free, `allocproc` takes the first such entry with the next
-- pid and the first page, and leaves the others alone.
pub allocproc_takes :
    (k : Kernel) (i page : ℕ) (rest : List ℕ)
    → find_index is_unused k.procs ≡ some i
    → k.freelist ≡ page ∷ rest
    → page ≢ 0
    → (k' : Kernel) × (allocproc k ≡ (some i, k')) × Allocated k i k'
unfolding taken_entry
allocproc_takes k i page rest e pages real =
    let r = find_index-some is_unused k.procs i e in
    (
      record k {
        nextpid = k.nextpid + 1;
        freelist = rest;
        procs = modify k.procs i (taken_entry k.nextpid page);
      },
      allocproc-eq k i page rest e pages real,
      record {
        old = r.0;
        new = taken_entry k.nextpid page r.0;
        page = page;
        was = r.1;
        free = unused_state r.0 r.2;
        now = get_elem?-modify_self k.procs i _ r.1;
        state = refl;
        pid = refl;
        stack = refl;
        context = refl;
        taken = pages;
        end = refl;
        next = refl;
        others = λ j ne. get_elem?-modify_ne k.procs i j _ ne;
      },
    )

-- Without a free entry `allocproc` returns null and changes nothing.
pub allocproc_full : (k : Kernel) → find_index is_unused k.procs ≡ none → allocproc k ≡ (none, k)
unfolding allocproc
allocproc_full k e = rw (e, allocproc) refl

-- After `wakeup1` no process sleeps on the channel.
pub wakeup1_all : (chan : Chan) (ps : List Proc) → count_if (sleeps_on chan) (wakeup1 chan ps) ≡ 0
unfolding wakeup1
wakeup1_all chan [] = refl
wakeup1_all chan (p ∷ ps) = ground (arith, wakeup1_all chan ps)

-- What one entry becomes.
pub get_elem?-wakeup1 :
    (chan : Chan) (ps : List Proc) (j : ℕ)
    → get_elem? (wakeup1 chan ps) j
      ≡ Option.map
          (λ p. if sleeps_on chan p then record p { state = runnable } else p)
          (get_elem? ps j)
unfolding wakeup1
get_elem?-wakeup1 chan [] j = refl
get_elem?-wakeup1 chan (p ∷ ps) zero = refl
get_elem?-wakeup1 chan (p ∷ ps) (suc j) = get_elem?-wakeup1 chan ps j

==chan_refl : (c : Chan) → (c ==chan c) ≡ true
==chan_refl null = refl
==chan_refl (proc_chan i) = ==_refl i
==chan_refl (address a) = ==_refl a

abbrev asleep : Chan → Proc → Proc
asleep chan p = record p { chan = chan; state = sleeping; context = in_sched }

-- A process that has gone to sleep on a channel is runnable after the next wakeup on it.
pub sleep-wakeup1 :
    (cur : ℕ) (chan : Chan) (k : Kernel) (p : Proc)
    → get_elem? k.procs cur ≡ some p
    → (q : Proc) × (get_elem? (wakeup1 chan (sleep cur chan k).procs) cur ≡ some q)
      × (q.state ≡ runnable)
      × (q.pid ≡ p.pid)
unfolding sleep
sleep-wakeup1 cur chan k p e =
    let slept : Proc = record p { chan = chan; state = sleeping; context = in_sched } in
    (
      record slept { state = runnable },
      get_elem?-wakeup1 chan _ cur
          ∙ rw (get_elem?-modify_self k.procs cur (asleep chan) e, ==chan_refl chan) refl,
      refl,
      refl,
    )

-- If some entry has the pid, `kill` returns 0, marks the first that has as killed, and makes it
-- runnable if it is SLEEPING; its state is kept in any other state, and the other entries are.
pub kill_first :
    (pid : ℕ) (k : Kernel) (i : ℕ)
    → find_index (λ (p : Proc). p.pid == pid) k.procs ≡ some i
    → (k' : Kernel) × (kill pid k ≡ (pos 0, k'))
      × (p : Proc) × (get_elem? k.procs i ≡ some p)
      × (p.pid ≡ pid)
      × (get_elem? k'.procs i ≡ some (kill_proc p))
      × KeepsOthers i k.procs k'.procs
unfolding kill
kill_first pid k i e =
    let r = find_index-some (λ (p : Proc). p.pid == pid) k.procs i e in
    (
      record k { procs = modify k.procs i kill_proc },
      rw (e, kill) refl,
      r.0,
      r.1,
      (==_iff r.0.pid pid).0 r.2,
      get_elem?-modify_self k.procs i kill_proc r.1,
      λ j ne. get_elem?-modify_ne k.procs i j kill_proc ne,
    )
