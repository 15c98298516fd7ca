-- ===== src/Proc/Table.antt =====
-- The process table: allocation, sleep and wakeup, kill, and the choice of the scheduler. Each
-- runs under `ptable.lock`.
use assignment.Prelude.{
  ℕ, ◌+◌, Bool, true, ◌&&◌, List, map, Option, none, some, ℤ, pos, minus_one, ◌==◌, if◌then◌else◌,
  get_elem?, modify, find_index,
}
use assignment.Kernel.{
  Kernel, Proc, unused, embryo, sleeping, runnable, running, ◌==state◌, Chan, null, ◌==chan◌,
  to_forkret, in_sched,
}
use assignment.Kalloc.{kalloc}

abbrev pub is_unused : Proc → Bool
is_unused p = p.state ==state unused

-- `allocproc`: the index of the entry, with its kernel stack, or null. What the trap frame holds is
-- not set.
unfoldable pub allocproc : Kernel → Option ℕ × Kernel
allocproc k = elim (find_index is_unused k.procs) [
  | none ↦ (none, k)
  | some i ↦
      let (kstack, freelist) = kalloc k.freelist in
      let k' : Kernel = record k { nextpid = k.nextpid + 1; freelist = freelist } in
      if kstack == 0
      then (
        none,
        record k' {
          procs = modify k.procs i (λ p. record p { pid = k.nextpid; kstack = 0; state = unused });
        },
      )
      else (
        some i,
        record k' {
          procs = modify k.procs i (λ p. record p {
            pid = k.nextpid;
            kstack = kstack;
            state = embryo;
            context = to_forkret;
          });
        },
      )
]

-- `p->state == SLEEPING && p->chan == chan`
abbrev pub sleeps_on : Chan → Proc → Bool
sleeps_on chan p = p.state ==state sleeping && p.chan ==chan chan

-- `wakeup1`, and `wakeup` under the lock
unfoldable pub wakeup1 : Chan → List Proc → List Proc
wakeup1 chan = map (λ p. if sleeps_on chan p then record p { state = runnable } else p)

-- `sleep` up to the switch to the scheduler, and what is left when it comes back.
unfoldable pub sleep : ℕ → Chan → Kernel → Kernel
sleep cur chan k = record k {
  procs = modify k.procs cur (λ p. record p { chan = chan; state = sleeping; context = in_sched });
}

unfoldable pub after_sleep : ℕ → Kernel → Kernel
after_sleep cur k = record k { procs = modify k.procs cur (λ p. record p { chan = null }) }

-- `yield` up to the switch.
unfoldable pub yield : ℕ → Kernel → Kernel
yield cur k = record k {
  procs = modify k.procs cur (λ p. record p { state = runnable; context = in_sched });
}

-- One turn of the loop of `scheduler` at the entry `i`: it runs if it is RUNNABLE.
unfoldable pub schedule : ℕ → Kernel → Option Kernel
schedule i k = elim (get_elem? k.procs i) [
  | none ↦ none
  | some p ↦
      if p.state ==state runnable
      then some (record k { procs = modify k.procs i (λ p. record p { state = running }) })
      else none
]

-- What `kill` does to the entry that it finds.
abbrev pub kill_proc : Proc → Proc
kill_proc p = record p {
  killed = true;
  state = if p.state ==state sleeping then runnable else p.state;
}

-- `kill`
unfoldable pub kill : ℕ → Kernel → ℤ × Kernel
kill pid k = elim (find_index (λ (p : Proc). p.pid == pid) k.procs) [
  | none ↦ (minus_one, k)
  | some i ↦ (pos 0, record k { procs = modify k.procs i kill_proc })
]
