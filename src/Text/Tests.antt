-- ===== src/Text/Tests.antt =====
-- The theorems on printed text at small formats.
use assignment.Prelude.{◌≡◌, true, arith}
use assignment.Text.Number.{printint, atoi}
use assignment.Text.NumberLaws.{atoi-printint}

atoi-printint_example : atoi (printint 2013 10 true) ≡ 2013
atoi-printint_example = atoi-printint 2013 (omega arith)
