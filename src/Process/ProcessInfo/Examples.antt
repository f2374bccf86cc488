-- ===== src/Process/ProcessInfo/Examples.antt =====
-- Tests of the name of a process, src/process/ProcessInfo.cpp.
use hohnor.Prelude.{ℕ, ◌≡◌, refl, List, [], ◌∷◌, none, some, arith}
use hohnor.File.ReadSmallFile.{at_most, opens}
use hohnor.Process.ProcessInfo.{find, rfind, between, procname_in, procname}
use hohnor.Process.ProcessInfo.Naming.{stat_text, procname-name}

-- The bytes `7 ` before, and ` S` after.
abbrev before : List ℕ
before = 55 ∷ 32 ∷ []

abbrev after : List ℕ
after = 32 ∷ 83 ∷ []

-- `a) (b`.
abbrev odd_name : List ℕ
odd_name = 97 ∷ 41 ∷ 32 ∷ 40 ∷ 98 ∷ []

found : procname_in (stat_text before odd_name after) ≡ odd_name
unfolding procname_in find rfind between
found = refl

no_name : procname_in (55 ∷ 41 ∷ 40 ∷ []) ≡ []
unfolding procname_in find rfind between
no_name = refl

no_left : find 40 before ≡ none
unfolding find
no_left = refl

no_right : find 41 after ≡ none
unfolding find
no_right = refl

procname-name_example :
    procname (opens (stat_text before odd_name after)) (λ call. at_most 2) ≡ some odd_name
procname-name_example =
    procname-name before odd_name after (λ call. 2) no_left no_right (omega arith)
