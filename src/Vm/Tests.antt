-- ===== src/Vm/Tests.antt =====
-- A page directory with no page, and one page for a table.
use assignment.Prelude.{◌≡◌, refl, true, [], ◌∷◌, some, arith}
use assignment.Vm.Memory.{Vm, page_size}
use assignment.Vm.Walk.{mappages, uva2ka}
use assignment.Vm.WalkLaws.{CanMap, in_new, uva2ka-mappages}

abbrev empty : Vm
empty = record { mem = λ p a. 0; freelist = 8192 ∷ []; kernel_end = 0 }

empty-CanMap : CanMap 4096 20480 8192 empty
empty-CanMap = in_new [] refl refl (omega arith) (omega arith) (omega arith)

uva2ka-mappages_example :
    (s' : Vm) × (mappages 4096 20480 page_size 12288 6 empty ≡ some (true, s'))
    × (uva2ka 4096 20480 s' ≡ some (some 12288, s'))
uva2ka-mappages_example =
    uva2ka-mappages 4096 20480 8192 12288 empty (omega arith) (omega arith) (omega arith)
      (omega arith) empty-CanMap
