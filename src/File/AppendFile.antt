-- ===== src/File/AppendFile.antt =====
-- `AppendFile` of src/file/FileUtils.cpp. A call of `fwrite_unlocked` gives the number of bytes that it took and
-- the `ferror` after it; the calls of one `append` get their answers from a list.
pub mod Written
mod Examples
use hohnor.Prelude.{
  ℕ, ◌+◌, ◌-◌, Bool, not, ◌&&◌, List, [], ◌∷◌, ◌++◌, Option, none, some, length, take, drop, ltb,
  ◌==◌, if◌then◌else◌, ◌>>=◌,
}

-- `content` is what fwrite took, and `flushed` the part of it that `fflush` has given to the kernel for sure.
pub record AppendFile : Type 0 where
  pub content : List ℕ
  pub flushed : ℕ
  pub written_bytes : ℕ

pub record FwriteAnswer : Type 0 where
  pub taken : ℕ
  pub error : Bool

unfoldable pub open_new : AppendFile
open_new = record { content = []; flushed = 0; written_bytes = 0 }

-- `write`.
abbrev pub write : ℕ → List ℕ → AppendFile → AppendFile
write n bytes f = record f { content = f.content ++ take n bytes }

-- The loop of `append`, with the bytes from `logline + written` on: what `written` is at its end. It is none
-- when the answers are used up.
unfoldable pub append_loop : List FwriteAnswer → List ℕ → ℕ → AppendFile → Option (ℕ × AppendFile)
append_loop [] rest written f = if length rest == 0 then some (written, f) else none
append_loop (a ∷ more) rest written f =
    let next = append_loop more (drop a.taken rest) (written + a.taken) (write a.taken rest f) in
    if length rest == 0
    then some (written, f)
    else if not (a.taken == length rest) && a.error
    then some (written, write a.taken rest f)
    else next

unfoldable pub append : List FwriteAnswer → List ℕ → AppendFile → Option AppendFile
append answers logline f = do
  (written, f') ← append_loop answers logline 0 f
  some (record f' { written_bytes = f'.written_bytes + written })

unfoldable pub flush : AppendFile → AppendFile
flush f = record f { flushed = length f.content }
