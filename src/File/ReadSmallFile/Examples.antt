-- ===== src/File/ReadSmallFile/Examples.antt =====
-- Tests of `ReadSmallFile` of src/file/FileUtils.cpp, and an instance of its theorem.
use hohnor.Prelude.{ℕ, ◌≡◌, refl, true, List, [], ◌∷◌, none, some}
use hohnor.File.ReadSmallFile.{
  ReadAnswer, at_most, fails, Stat, says, regular, directory, opens, open_file, read_file,
  read_to_string, read_opened, read_loop, stat_file, read_to_buffer,
}
use hohnor.File.ReadSmallFile.Reading.{GivesFile, read_file-GivesFile}

abbrev short : ℕ → ReadAnswer
short call = at_most call

abbrev numbers : List ℕ
numbers = 10 ∷ 11 ∷ 12 ∷ 13 ∷ 14 ∷ []

abbrev a_file : Stat
a_file = record { kind = regular; size = 5; modified = 100; created = 90 }

four_bytes :
    read_file (opens numbers) 4 [] short (some (says a_file))
    ≡ some (
      record {
        err = 0;
        content = 10 ∷ 11 ∷ 12 ∷ 13 ∷ [];
        file_size = some 5;
        times = some (100, 90);
      },
      record { is_open = true; err = 0; before = 10 ∷ 11 ∷ 12 ∷ 13 ∷ []; rest = 14 ∷ [] },
    )
unfolding read_file read_to_string read_opened read_loop open_file stat_file
four_bytes = refl

-- A directory: `read` fails too, and its errno is the one returned.
a_directory :
    read_file (opens []) 4 [] (λ call. fails 21) (some (says (record a_file { kind = directory })))
    ≡ some (
      record { err = 21; content = []; file_size = none; times = some (100, 90) },
      record { is_open = true; err = 0; before = []; rest = [] },
    )
unfolding read_file read_to_string read_opened read_loop open_file stat_file
a_directory = refl

from_the_start :
    read_to_buffer (at_most 1) (record (open_file (opens numbers)) { before = 9 ∷ [] })
    ≡ (0, 9 ∷ 10 ∷ [])
unfolding read_to_buffer open_file
from_the_start = refl

read_file-GivesFile_example :
    GivesFile
      (opens numbers)
      4
      []
      short
      (some (says a_file))
      (read_file (opens numbers) 4 [] short (some (says a_file)))
read_file-GivesFile_example = read_file-GivesFile (opens numbers) 4 [] short (some (says a_file))
