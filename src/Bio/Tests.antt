-- ===== src/Bio/Tests.antt =====
-- The buffer cache with three buffers.
use assignment.Prelude.{ℕ, ◌≡◌, ◌⊎◌, refl, true, false, ◌∷◌, modify, some, get_elem?}
use assignment.Bio.Cache.{Buf, Cache, ok, sleeps, panics, binit, bget, remove, brelse}
use assignment.Bio.Links.{Links, nbuf, link_all, move_front}
use assignment.Bio.Refine.{Refines, link_all-Refines, brelse-Refines}
use assignment.Bio.CacheLaws.{IsAbsent, Got, bget-Got, binit-IsUnique}

abbrev three : Cache
three = record { bufs = binit 3; disk = λ b a. 0; disksize = 100 }

bget-Got_example :
    ((slot : ℕ) × (s' : Cache) × (bget 1 7 three ≡ ok slot s') × Got 7 three slot s')
    ⊎ ((i : ℕ) × (b : Buf) × (get_elem? three.bufs i ≡ some b)
        × (b.dev ≡ 1)
        × (b.sector ≡ 7)
        × (b.busy ≡ true)
        × (bget 1 7 three ≡ sleeps b.slot))
    ⊎ ((bget 1 7 three ≡ panics)
        × IsAbsent 7 three.bufs
        × ((j : ℕ) (x : Buf)
            → get_elem? three.bufs j ≡ some x
            → (x.busy ≡ true) ⊎ (x.dirty ≡ true)))
bget-Got_example = bget-Got 7 three (binit-IsUnique 3)

-- All buffers, with that of the place 3 in use.
abbrev cache_in_use : Cache
cache_in_use = record {
  bufs = modify (binit nbuf) 6 (λ b. record b { busy = true });
  disk = λ b a. 0;
  disksize = 100;
}

abbrev released : Cache
released = record cache_in_use {
  bufs =
      record {
        slot = 3;
        dev = 4294967295;
        sector = 0;
        busy = false;
        valid = false;
        dirty = false;
        contents = λ a. 0;
      }
      ∷ remove 6 cache_in_use.bufs;
}

abbrev ring : Links
ring = link_all (record { next = λ a. 0; prev = λ a. 0 })

ring-Refines : Refines ring cache_in_use.bufs
unfolding binit
ring-Refines = link_all-Refines (record { next = λ a. 0; prev = λ a. 0 })

brelse-released : brelse 3 cache_in_use ≡ ok 3 released
unfolding brelse binit remove
brelse-released = refl

brelse-Refines_example : Refines (move_front 3 ring) released.bufs
brelse-Refines_example = brelse-Refines 3 3 ring cache_in_use released ring-Refines brelse-released
