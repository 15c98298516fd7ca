-- ===== src/Umalloc/Heap.antt =====
-- umalloc.c: `free`, `morecore` and `malloc` on the circular list of the free blocks. A header is the
-- address of its 8 bytes, and headers do not overlap; the null pointer is 0.
use assignment.Prelude.{
  ℕ, zero, suc, ◌+◌, ◌-◌, ◌*◌, ◌/◌, ◌%◌, ◌^◌, Bool, ◌&&◌, ◌||◌, Option, none, some, ◌==◌, ltb, leb,
  if◌then◌else◌,
}
use assignment.Fs.Block.{update}

-- The fields of the headers, `freep`, and the end of the memory of the process.
pub record Heap : Type 0 where
  pub ptr : ℕ → ℕ
  pub size : ℕ → ℕ
  pub freep : ℕ
  pub brk : ℕ

-- sizeof(Header)
abbrev pub header_size : ℕ
header_size = 8

-- `p + n` for a pointer to headers
abbrev pub units : ℕ → ℕ → ℕ
units p n = p + header_size * n

abbrev pub set_ptr : ℕ → ℕ → Heap → Heap
set_ptr p q h = record h { ptr = update (h.ptr) p q }

abbrev pub set_size : ℕ → ℕ → Heap → Heap
set_size p n h = record h { size = update (h.size) p n }

-- The two conditions that end the loop of `free` at `p`, whose `ptr` is `next`.
unfoldable pub stops : ℕ → ℕ → ℕ → Bool
stops bp p next = ltb p bp && ltb bp next || leb next p && (ltb p bp || ltb bp next)

-- The loop, from `p` on.
unfoldable pub search : ℕ → ℕ → (ℕ → ℕ) → ℕ → Option ℕ
search zero bp ptr p = none
search (suc n) bp ptr p =
    let onward = search n bp ptr (ptr p) in if stops bp p (ptr p) then some p else onward

-- The first half of what follows it, which joins the block to the one above.
unfoldable pub join_above : ℕ → ℕ → Heap → Heap
join_above bp p h =
    if units bp (h.size bp) == h.ptr p
    then set_ptr bp (h.ptr (h.ptr p)) (set_size bp ((h.size bp + h.size (h.ptr p)) % 2 ^ 32) h)
    else set_ptr bp (h.ptr p) h

-- And the second, to the one below.
unfoldable pub join_below : ℕ → ℕ → Heap → Heap
join_below bp p h =
    if units p (h.size p) == bp
    then set_ptr p (h.ptr bp) (set_size p ((h.size p + h.size bp) % 2 ^ 32) h)
    else set_ptr p bp h

unfoldable pub insert : ℕ → ℕ → Heap → Heap
insert bp p h = record (join_below bp p (join_above bp p h)) { freep = p }

-- `free`, with fuel for its loop.
unfoldable pub free : ℕ → ℕ → Heap → Option Heap
free fuel ap h = elim (search fuel (ap - header_size) h.ptr h.freep) [
  | none ↦ none
  | some p ↦ some (insert (ap - header_size) p h)
]

-- The part of `malloc` that takes `nunits` of the block `p`: what it returns.
unfoldable pub take_block : ℕ → ℕ → ℕ → Heap → ℕ × Heap
take_block nunits prevp p h =
    if h.size p == nunits
    then (units p 1, record (set_ptr prevp (h.ptr p) h) { freep = prevp })
    else (let rest = h.size p - nunits in
        let q = units p rest in
        (units q 1, record (set_size q nunits (set_size p rest h)) { freep = prevp }))

-- `sbrk(n)` at the end of the memory: the address of the new memory and its end, or -1.
module _ (sbrk : ℕ → ℕ → Option (ℕ × ℕ)) where
  -- `morecore`: a null pointer, or `freep`; `none` is the end of the fuel of `free`.
  unfoldable pub morecore : ℕ → ℕ → Heap → Option (ℕ × Heap)
  morecore fuel nu h =
      let n = if ltb nu 4096 then 4096 else nu in
      elim (sbrk (n * header_size % 2 ^ 32) h.brk) [
        | none ↦ some (0, h)
        | some (p, brk) ↦ elim (free fuel (units p 1) (set_size p n (record h { brk = brk }))) [
          | none ↦ none
          | some h' ↦ some (h'.freep, h')
        ]
      ]

  -- The loop of `malloc`; what it returns.
  unfoldable pub malloc_from : ℕ → ℕ → ℕ → ℕ → Heap → Option (ℕ × Heap)
  malloc_from zero nunits prevp p h = none
  malloc_from (suc fuel) nunits prevp p h =
      if leb nunits (h.size p)
      then some (take_block nunits prevp p h)
      else (if p == h.freep
          then elim (morecore fuel nunits h) [
            | none ↦ none
            | some (q, h') ↦
                if q == 0 then some (0, h') else malloc_from fuel nunits q (h'.ptr q) h'
          ]
          else malloc_from fuel nunits p (h.ptr p) h)

  -- `malloc`, with `&base`.
  unfoldable pub malloc : ℕ → ℕ → ℕ → Heap → Option (ℕ × Heap)
  malloc fuel base nbytes h =
      let nunits = (nbytes + header_size - 1) % 2 ^ 32 / header_size + 1 in
      let h' =
        if h.freep == 0
        then record (set_size base 0 (set_ptr base base h)) { freep = base }
        else h in
      malloc_from fuel nunits h'.freep (h'.ptr h'.freep) h'
