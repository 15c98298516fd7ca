-- ===== src/Umalloc/Tests.antt =====
-- A list of the empty base block and one free block, and a block that is freed above them.
use assignment.Prelude.{
  ℕ, ◌+◌, ◌≡◌, refl, List, [], ◌∷◌, some, arith, ◌==◌, if◌then◌else◌, IsDistinct,
}
use assignment.Umalloc.Heap.{Heap, free}
use assignment.Umalloc.SearchLaws.{Chain}
use assignment.Umalloc.InsertLaws.{total}
use assignment.Umalloc.FreeLaws.{free_inserts}

abbrev heap : Heap
heap = record {
  ptr = λ a. if a == 1000 then 4096 else 1000;
  size = λ a. if a == 1000 then 0 else if a == 4096 then 10 else 5;
  freep = 1000;
  brk = 16384;
}

free_inserts_example :
    (h' : Heap) × (free 2 8008 heap ≡ some h')
    × (ys : List ℕ) × Chain h'.ptr h'.freep ys h'.freep
    × IsDistinct (h'.freep ∷ ys)
    × (total h'.size (h'.freep ∷ ys) ≡ total heap.size (1000 ∷ 4096 ∷ []) + heap.size 8000)
free_inserts_example =
    free_inserts 8008 (4096 ∷ []) heap (refl, refl)
      (
        (λ e. ground (arith, e), (λ e. ground (arith, e), tt)),
        ((λ e. ground (arith, e), tt), (tt, tt)),
      )
      (λ e. ground (arith, e)) (omega arith)
