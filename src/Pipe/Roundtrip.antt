-- ===== src/Pipe/Roundtrip.antt =====
-- `pipewrite`, `piperead` and `pipeclose` (pipe.c) as whole calls.
use mathlib.Core.Option
use assignment.Prelude.{
  ℕ, ◌+◌, ◌≤◌, ◌<◌, ◌≡◌, ◌⊎◌, inl, inr, refl, sym, ◌∙◌, ap, true, false, ◌&&◌, List, [], some, pos,
  minus_one, arith, append_nil, Bool-cases, length, length-append, get_elem?, if◌then◌else◌, subst,
}
use assignment.Kernel.{Kernel, Proc, runnable}
use assignment.Proc.Table.{sleep, sleeps_on}
use assignment.Proc.TableLaws.{get_elem?-wakeup1, sleep-wakeup1}
use assignment.Pipe.Buffer.{Pipe, pipe_size, is_empty, IsPipe, contents, is_empty_iff}
use assignment.Pipe.Ops.{
  read_chan, write_chan, wakeup, returns, sleeps, wait_for_room, pipewrite, read_bytes,
  wait_for_byte, piperead,
}
use assignment.Pipe.Transfer.{write_from-Wrote, Took, read_bytes-Took}

piperead_reads :
    (cur a m : ℕ) (p : Pipe) (k : Kernel)
    → (is_empty p && p.writeopen) ≡ false
    → piperead cur a m p k
      ≡ some (
        returns (pos (length (read_bytes m p).0)),
        (read_bytes m p).0,
        (read_bytes m p).1,
        wakeup (write_chan a) k,
      )
unfolding piperead
piperead_reads cur a m p k e = rw (e, piperead) refl

piperead_stops :
    (cur a m : ℕ) (p : Pipe) (k : Kernel)
    → (is_empty p && p.writeopen) ≡ true
    → piperead cur a m p k ≡ wait_for_byte cur a p k
unfolding piperead
piperead_stops cur a m p k e = rw (e, piperead) refl

-- On a ring that is intact, a read from a pipe with nothing in it and its write end open gives up if the caller has been
-- killed, and otherwise sleeps. A read in any other case returns the number of bytes that it took:
-- those written first, in order, as many as were asked for and there.
pub piperead_cases :
    (cur a m : ℕ) (p : Pipe) (n : ℕ) (k : Kernel) (proc : Proc)
    → IsPipe p n
    → get_elem? k.procs cur ≡ some proc
    → ((n ≡ 0)
        × (p.writeopen ≡ true)
        × (piperead cur a m p k ≡ (
            if proc.killed
            then some (returns minus_one, [], p, k)
            else some (sleeps 0, [], p, sleep cur (read_chan a) k))))
      ⊎ (Took m p n
          × (piperead cur a m p k
              ≡ some (
                returns (pos (length (read_bytes m p).0)),
                (read_bytes m p).0,
                (read_bytes m p).1,
                wakeup (write_chan a) k,
              )))
unfolding wait_for_byte
piperead_cases cur a m p n k proc v caller = elim (Bool-cases (is_empty p && p.writeopen)) [
  | inl e ↦ inl (
    ground (arith, e, is_empty_iff n p v),
    ground (arith, e),
    piperead_stops cur a m p k e ∙ rw (caller, wait_for_byte) refl,
  )
  | inr e ↦ inr (read_bytes-Took m p n v, piperead_reads cur a m p k e)
]

write_all :
    (cur a : ℕ) (cs : List ℕ) (p : Pipe) (k : Kernel)
    → IsPipe p 0
    → length cs ≤ pipe_size
    → (p1 : Pipe) × (pipewrite cur a cs p k
        ≡ some (returns (pos (length cs)), p1, wakeup (read_chan a) k))
      × IsPipe p1 (length cs)
      × (contents p1 (length cs) ≡ cs)
unfolding pipewrite
write_all cur a cs p k v fits =
    let w = write_from-Wrote cur a 0 cs p 0 k v in
    elim w.ended [
      | inl (none_left, q) ↦
          let all : cs ≡ w.sent = w.split ∙ rw none_left (append_nil w.sent) in
          let n : 0 + length w.sent ≡ length cs = omega (arith, ap (λ l. length l) all) in
          (
            w.after,
            q
                ∙ ap (λ i. some (returns (pos i), w.after, wakeup (read_chan a) k))
                    (let e : 0 + length cs ≡ length cs = omega arith in e),
            subst (λ i. IsPipe w.after i) n w.ring,
            subst (λ i. contents w.after i ≡ cs) n (w.stored ∙ sym all),
          )
      | inr (some_left, full, q) ↦
          absurd (
            omega (arith, ap (λ l. length l) w.split, length-append w.sent w.rest, some_left, full))
    ]

drains :
    (m : ℕ) (p : Pipe) (n : ℕ)
    → IsPipe p n
    → n ≤ m
    → ((read_bytes m p).0 ≡ contents p n) × IsPipe (read_bytes m p).1 0
drains m p n v asked =
    let t = read_bytes-Took m p n v in
    let none_left : t.left ≡ 0 = elim t.enough [
      | inl all ↦ omega (arith, all, t.total)
      | inr (e, few) ↦ e
    ] in
    (
      sym (t.front ∙ rw none_left (append_nil (read_bytes m p).0)),
      subst (λ i. IsPipe (read_bytes m p).1 i) none_left t.remains,
    )

-- What is written into an empty pipe, 512 bytes at most, is what the next read for at least as many
-- bytes gives, and the pipe is empty again.
pub write-read :
    (cur reader a m : ℕ) (cs : List ℕ) (p : Pipe) (k : Kernel)
    → IsPipe p 0
    → 0 < length cs
    → length cs ≤ pipe_size
    → length cs ≤ m
    → (p1 : Pipe) × (p2 : Pipe) × (k1 : Kernel) × (k2 : Kernel) × (pipewrite cur a cs p k
        ≡ some (returns (pos (length cs)), p1, k1))
      × (piperead reader a m p1 k1 ≡ some (returns (pos (length cs)), cs, p2, k2))
      × IsPipe p2 0
write-read cur reader a m cs p k v some_bytes fits asked =
    let (p1, writes, ring, same) = write_all cur a cs p k v fits in
    let d = drains m p1 (length cs) ring asked in
    let k1 = wakeup (read_chan a) k in
    let bytes : (read_bytes m p1).0 ≡ cs = d.0 ∙ same in
    let there : is_empty p1 ≡ false = ground (arith, is_empty_iff (length cs) p1 ring) in
    (
      p1,
      (read_bytes m p1).1,
      k1,
      wakeup (write_chan a) k1,
      writes,
      piperead_reads reader a m p1 k1 (ground (arith, there))
          ∙ ap
              (λ l.
                some (returns (pos (length l)), l, (read_bytes m p1).1, wakeup (write_chan a) k1))
              bytes,
      d.1,
    )

-- A writer that is not killed sleeps at a full pipe with an open read end, and is runnable after the next read.
pub read_wakes_writer :
    (cur reader a i m : ℕ) (p : Pipe) (k : Kernel) (proc : Proc)
    → IsPipe p pipe_size
    → get_elem? k.procs cur ≡ some proc
    → p.readopen ≡ true
    → proc.killed ≡ false
    → (k1 : Kernel) × (k2 : Kernel) × (q : Proc) × (wait_for_room cur a i p k
        ≡ some (sleeps i, p, k1))
      × (piperead reader a m p k1
          ≡ some (
            returns (pos (length (read_bytes m p).0)),
            (read_bytes m p).0,
            (read_bytes m p).1,
            k2,
          ))
      × (get_elem? k2.procs cur ≡ some q)
      × (q.state ≡ runnable)
unfolding wait_for_room
read_wakes_writer cur reader a i m p k proc v caller is_open alive =
    let k1 = sleep cur (write_chan a) (wakeup (read_chan a) k) in
    let there : is_empty p ≡ false = ground (arith, is_empty_iff pipe_size p v) in
    let at =
      get_elem?-wakeup1 (read_chan a) k.procs cur
      ∙ ap
          (Option.map (λ p. if sleeps_on (read_chan a) p then record p { state = runnable } else p))
          caller in
    let woken = sleep-wakeup1 cur (write_chan a) (wakeup (read_chan a) k) _ at in
    (
      k1,
      wakeup (write_chan a) k1,
      woken.0,
      ground (arith, caller, is_open, alive),
      piperead_reads reader a m p k1 (ground (arith, there)),
      woken.1,
      woken.2,
    )
