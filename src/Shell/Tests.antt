-- ===== src/Shell/Tests.antt =====
-- The parser of the shell on a command line.
use assignment.Prelude.{ℕ, ◌≡◌, ◌⊎◌, refl, List, [], ◌∷◌}
use assignment.Shell.Token.{has, skip_space, word, after_greater, token_at, gettoken, starts, peek}
use assignment.Shell.Parser.{
  Cmd, execcmd, redircmd, pipecmd, backcmd, parsed, panics, redirected, redirs_from, parseredirs,
  args_from, parseexec, pipe_from, parsepipe, backs_from, backs, line_from, parseline, parsecmd,
}
use assignment.Shell.ParserLaws.{parsecmd_ends}

-- "a b>c|d &"
abbrev line : List ℕ
line = 97 ∷ 32 ∷ 98 ∷ 62 ∷ 99 ∷ 124 ∷ 100 ∷ 32 ∷ 38 ∷ []

parsecmd_ends_example : ((cmd : Cmd) × (parsecmd line ≡ parsed cmd [])) ⊎ (parsecmd line ≡ panics)
parsecmd_ends_example = parsecmd_ends line

line_parsed :
    parsecmd line
    ≡ parsed
        (backcmd (
          pipecmd
            (redircmd (execcmd ((97 ∷ []) ∷ (98 ∷ []) ∷ [])) (99 ∷ []) 513 1)
            (execcmd ((100 ∷ []) ∷ []))))
        []
unfolding parsecmd parseline line_from backs backs_from parsepipe pipe_from parseexec args_from
    parseredirs redirs_from redirected gettoken peek starts token_at after_greater word skip_space
    has
line_parsed = refl
