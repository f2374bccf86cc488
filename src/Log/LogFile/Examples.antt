-- ===== src/Log/LogFile/Examples.antt =====
-- A log file that is rolled.
use hohnor.Prelude.{ℕ, ◌+◌, ◌≤◌, ◌≡◌, refl, false, List, [], ◌∷◌, ◌++◌, some, length, inr, arith}
use hohnor.Log.LogFile.{LogFile, create}
use hohnor.Log.LogFile.Rolling.{all_bytes, AllShort, Rises}
use hohnor.Log.LogFile.Runs.{Line, append_all, append_all-keeps}

abbrev line : List ℕ → Line
line bytes = record {
  bytes = bytes;
  answers = record { taken = length bytes; error = false } ∷ [];
  now = 100;
  later = 101;
}

abbrev lines : List Line
lines = line (1 ∷ 2 ∷ []) ∷ line (3 ∷ 4 ∷ []) ∷ line (5 ∷ []) ∷ []

append_all-keeps_example :
    (l : LogFile) × (append_all lines (create 2 3 3 60 99 0) ≡ some l)
    × (all_bytes l ≡ 1 ∷ 2 ∷ 3 ∷ 4 ∷ 5 ∷ [])
    × (length l.file.content ≤ 3)
    × AllShort (3 + 2) l.closed
    × Rises 0 (l.closed ++ (l.name, l.file) ∷ []) l.log_file_counter
append_all-keeps_example = append_all-keeps 2 2 3 3 60 99 0 lines (
  inr (omega arith, refl, refl),
  omega arith,
  (inr (omega arith, refl, refl), omega arith, (inr (omega arith, refl, refl), omega arith, tt)),
)
