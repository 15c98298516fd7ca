-- ===== src/Log/Tests.antt =====
-- The theorems on the log at a small disk.
use assignment.Prelude.{◌≡◌, refl, true, [], ◌∷◌, arith, replicate}
use assignment.Log.Disk.{Disk, Log, write, read_head, commit_trans}
use assignment.Log.Recovery.{IsAtomic, commit_trans-IsAtomic}

-- A transaction on the sectors 3 and 5, with the log from the sector 100 on.
abbrev pending : Log
pending = record { start = 100; size = 11; busy = true; sectors = 3 ∷ 5 ∷ [] }

-- Each sector holds its number, and that of the header nothing.
abbrev numbered : Disk
numbered = write (λ t. replicate 128 t) (100, replicate 128 0)

numbered_head : read_head 100 numbered ≡ []
unfolding read_head
numbered_head = refl

commit_trans-IsAtomic_example : IsAtomic 100 2 (commit_trans pending numbered).1 numbered
commit_trans-IsAtomic_example =
    commit_trans-IsAtomic pending 2 numbered numbered_head (omega arith, (omega arith, tt))
      (omega arith)

-- The same disk after the header was written.
abbrev logged : Disk
logged = write numbered (100, 2 ∷ 3 ∷ 5 ∷ replicate 125 0)

logged_head : read_head 100 logged ≡ 3 ∷ 5 ∷ []
unfolding read_head
logged_head = refl
