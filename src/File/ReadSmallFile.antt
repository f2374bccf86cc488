-- ===== src/File/ReadSmallFile.antt =====
-- src/file/FileUtils.cpp, `ReadSmallFile`. The answers of the kernel are arguments; an errno is a number, 0 for
-- none.
pub mod Loop
pub mod Reading
mod Examples
use hohnor.Prelude.{
  ℕ, zero, suc, ◌+◌, ◌-◌, ◌*◌, Bool, true, false, List, [], ◌∷◌, ◌++◌, Option, none, some,
  if◌then◌else◌, ltb, min, length, take, drop, ◌>>=◌,
}

-- A call of `read`: it takes what is wanted, or less, but at least one byte where there is one; or it fails.
pub data ReadAnswer : Type 0 where
  at_most : ℕ → ReadAnswer
  fails : ℕ → ReadAnswer

-- The kinds of file that the code tells apart, and what `fstat` says.
pub data FileKind : Type 0 where
  regular directory other : FileKind

pub record Stat : Type 0 where
  pub kind : FileKind
  pub size : ℕ
  pub modified : ℕ
  pub created : ℕ

pub data StatAnswer : Type 0 where
  says : Stat → StatAnswer
  stat_fails : ℕ → StatAnswer

-- An opened file, or not: `before` are the bytes that were read, and `rest` those that follow.
pub record ReadSmallFile : Type 0 where
  pub is_open : Bool
  pub err : ℕ
  pub before : List ℕ
  pub rest : List ℕ

-- The bytes of the file, or the errno of `open`.
pub data OpenAnswer : Type 0 where
  opens : List ℕ → OpenAnswer
  open_fails : ℕ → OpenAnswer

unfoldable pub open_file : OpenAnswer → ReadSmallFile
open_file (opens bytes) = record { is_open = true; err = 0; before = []; rest = bytes }
open_file (open_fails e) = record { is_open = false; err = e; before = []; rest = [] }

-- The errno returned, and what is written through the pointers; none where nothing is written.
pub record Outcome : Type 0 where
  pub err : ℕ
  pub content : List ℕ
  pub file_size : Option ℕ
  pub times : Option (ℕ × ℕ)

abbrev pub buffer_size : ℕ
buffer_size = 64 * 1024

-- The bytes that `read` gives of `rest`, of which `want` are wanted.
abbrev pub taken : ℕ → ℕ → List ℕ → List ℕ
taken most want rest = take (min (most + 1) want) rest

-- The loop of `readToString`; `answers` are those of the calls of `read`, by their numbers. None when the fuel
-- is out.
unfoldable pub read_loop : ℕ → (ℕ → ReadAnswer) → ℕ → ℕ → List ℕ → ℕ → List ℕ → Option (ℕ × List ℕ)
read_loop zero answers call max_size rest err content = none
read_loop (suc fuel) answers call max_size rest err content =
    if ltb (length content) max_size
    then (elim (answers call) [
      | fails e ↦ some (e, content)
      | at_most n ↦ elim (taken n (min (max_size - length content) buffer_size) rest) [
        | [] ↦ some (err, content)
        | b ∷ bs ↦
            read_loop fuel answers (call + 1) max_size (drop (length (b ∷ bs)) rest) err
              (content ++ b ∷ bs)
      ]
    ])
    else some (err, content)

-- `EISDIR`.
abbrev pub is_a_directory : ℕ
is_a_directory = 21

abbrev pub err_of_kind : FileKind → ℕ → ℕ
err_of_kind regular err = err
err_of_kind directory err = is_a_directory
err_of_kind other err = err

abbrev pub size_of_kind : FileKind → ℕ → Option ℕ
size_of_kind regular size = some size
size_of_kind directory size = none
size_of_kind other size = none

-- The call of `fstat`, none where the caller wants no size: the errno, the size and the times.
unfoldable pub stat_file : Option StatAnswer → ℕ → ℕ × Option ℕ × Option (ℕ × ℕ)
stat_file none err = (err, none, none)
stat_file (some (says s)) err =
    (err_of_kind s.kind err, size_of_kind s.kind s.size, some (s.modified, s.created))
stat_file (some (stat_fails e)) err = (e, none, none)

unfoldable pub read_opened :
    ℕ
    → (ℕ → ReadAnswer)
    → ℕ × Option ℕ × Option (ℕ × ℕ)
    → ReadSmallFile
    → Option (Outcome × ReadSmallFile)
read_opened max_size answers (err, size, times) f = do
  r ← read_loop (length f.rest + 1) answers 0 max_size f.rest err []
  some (
    record { err = r.0; content = r.1; file_size = size; times = times },
    record f { before = f.before ++ r.1; rest = drop (length r.1) f.rest },
  )

-- `content` is what the caller's string holds; `max_size` is not negative.
unfoldable pub read_to_string :
    ℕ
    → List ℕ
    → (ℕ → ReadAnswer)
    → Option StatAnswer
    → ReadSmallFile
    → Option (Outcome × ReadSmallFile)
read_to_string max_size content answers stat f =
    if f.is_open
    then read_opened max_size answers (stat_file stat f.err) f
    else some (record { err = f.err; content = content; file_size = none; times = none }, f)

-- The errno and the bytes in the buffer; `pread` reads from the start.
unfoldable pub read_to_buffer : ReadAnswer → ReadSmallFile → ℕ × List ℕ
read_to_buffer (fails e) f = if f.is_open then (e, []) else (f.err, [])
read_to_buffer (at_most n) f =
    if f.is_open then (f.err, taken n (buffer_size - 1) (f.before ++ f.rest)) else (f.err, [])

unfoldable pub read_file :
    OpenAnswer
    → ℕ
    → List ℕ
    → (ℕ → ReadAnswer)
    → Option StatAnswer
    → Option (Outcome × ReadSmallFile)
read_file file max_size content answers stat =
    read_to_string max_size content answers stat (open_file file)
