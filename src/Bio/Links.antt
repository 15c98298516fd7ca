-- ===== src/Bio/Links.antt =====
-- The links `prev` and `next` of the buffers of bio.c. A pointer is the place of its buffer in
-- `bcache.buf`, or the number behind the last for `&bcache.head`.
use assignment.Prelude.{ℕ, zero, suc, Bool, Option, none, some, ◌==◌, if◌then◌else◌}
use assignment.Fs.Block.{update}

-- NBUF, and `&bcache.head`
abbrev pub nbuf : ℕ
nbuf = 10

abbrev pub head : ℕ
head = nbuf

pub record Links : Type 0 where
  pub next : ℕ → ℕ
  pub prev : ℕ → ℕ

-- `a->next = b` and `a->prev = b`
abbrev pub set_next : ℕ → ℕ → Links → Links
set_next a b l = record l { next = update (l.next) a b }

abbrev pub set_prev : ℕ → ℕ → Links → Links
set_prev a b l = record l { prev = update (l.prev) a b }

-- The four stores of `binit`, which put a buffer in front; `brelse` has them too.
unfoldable pub push_front : ℕ → Links → Links
push_front b l =
    let l1 = set_next b (l.next head) l in
    let l2 = set_prev b head l1 in let l3 = set_prev (l2.next head) b l2 in set_next head b l3

-- The two stores of `brelse` that take a buffer out.
unfoldable pub unlink : ℕ → Links → Links
unlink b l = let l1 = set_prev (l.next b) (l.prev b) l in set_next (l1.prev b) (l1.next b) l1

-- The stores of `brelse`.
unfoldable pub move_front : ℕ → Links → Links
move_front b l = push_front b (unlink b l)

-- `binit`: the loop from the buffer `b` on, with `n` left, and what is stored before it.
unfoldable pub link_from : ℕ → ℕ → Links → Links
link_from zero b l = l
link_from (suc n) b l = link_from n (suc b) (push_front b l)

unfoldable pub link_all : Links → Links
link_all l = link_from nbuf 0 (set_next head head (set_prev head head l))

-- The loops of `bget`, by `next` and by `prev`, at the buffer `b`.
unfoldable pub search_next : ℕ → (ℕ → Bool) → Links → ℕ → Option ℕ
search_next zero p l b = none
search_next (suc n) p l b =
    let onward = search_next n p l (l.next b) in
    if b == head then none else (if p b then some b else onward)

unfoldable pub search_prev : ℕ → (ℕ → Bool) → Links → ℕ → Option ℕ
search_prev zero p l b = none
search_prev (suc n) p l b =
    let onward = search_prev n p l (l.prev b) in
    if b == head then none else (if p b then some b else onward)
