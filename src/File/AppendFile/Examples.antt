-- ===== src/File/AppendFile/Examples.antt =====
-- Files.
use hohnor.Prelude.{◌≡◌, refl, true, false, List, [], ◌∷◌, some, inr, arith}
use hohnor.File.AppendFile.{AppendFile, FwriteAnswer, append, append_loop}
use hohnor.File.AppendFile.Written.{append-Writes}

abbrev two_parts : List FwriteAnswer
two_parts = record { taken = 1; error = false } ∷ record { taken = 2; error = false } ∷ []

abbrev disk_full : List FwriteAnswer
disk_full = record { taken = 2; error = true } ∷ []

append-Writes_example :
    append two_parts (7 ∷ 8 ∷ 9 ∷ []) (record { content = 5 ∷ []; flushed = 0; written_bytes = 1 })
    ≡ some (record { content = 5 ∷ 7 ∷ 8 ∷ 9 ∷ []; flushed = 0; written_bytes = 4 })
append-Writes_example =
    append-Writes two_parts (7 ∷ 8 ∷ 9 ∷ [])
      (record { content = 5 ∷ []; flushed = 0; written_bytes = 1 })
      (inr (omega arith, refl, inr (omega arith, refl, refl)))

-- Two bytes came into the file before the error, and none is counted.
abbrev cut_off : AppendFile
cut_off = record { content = 7 ∷ 8 ∷ []; flushed = 0; written_bytes = 0 }

append-cut_off :
    append disk_full (7 ∷ 8 ∷ 9 ∷ []) (record { content = []; flushed = 0; written_bytes = 0 })
    ≡ some cut_off
unfolding append append_loop
append-cut_off = refl
