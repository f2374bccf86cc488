-- ===== src/Common/Buffer/Examples.antt =====
-- Tests of include/hohnor/common/Buffer.h, and instances of its theorems.
use hohnor.Prelude.{◌≡◌, refl, [], ◌∷◌, ◌++◌, some, arith}
use hohnor.Common.Buffer.{
  Buffer, append, retrieve, retrieve_as_string, prepend, unwrite, read_fd, received, search,
  cast_int,
}
use hohnor.Common.Buffer.Room.{IsValid, content}
use hohnor.Common.Buffer.Content.{content-append, content-edges}
use hohnor.Common.Buffer.Refill.{content-read_fd}

-- "hi" behind ten bytes of which the reader is past, with room for two more.
abbrev greeting : Buffer
greeting = record {
  bytes = 0 ∷ 0 ∷ 0 ∷ 0 ∷ 0 ∷ 0 ∷ 0 ∷ 0 ∷ 0 ∷ 0 ∷ 104 ∷ 105 ∷ 0 ∷ 0 ∷ [];
  capacity = 14;
  reader_index = 10;
  writer_index = 12;
  last_write_bytes = 0;
}

greeting-IsValid : IsValid greeting
greeting-IsValid = omega arith

append_moves_down :
    append greeting (33 ∷ 10 ∷ 13 ∷ [])
    ≡ some (record {
      bytes = 0 ∷ 0 ∷ 0 ∷ 0 ∷ 0 ∷ 0 ∷ 0 ∷ 0 ∷ 104 ∷ 105 ∷ 33 ∷ 10 ∷ 13 ∷ 0 ∷ [];
      capacity = 14;
      reader_index = 8;
      writer_index = 13;
      last_write_bytes = 3;
    })
unfolding append
append_moves_down = refl

find_crlf_finds : search (97 ∷ 13 ∷ 98 ∷ 13 ∷ 10 ∷ []) (13 ∷ 10 ∷ []) ≡ some 3
unfolding search
find_crlf_finds = refl

content-append_example :
    (c : Buffer) × (append greeting (33 ∷ []) ≡ some c)
    × (content c ≡ content greeting ++ 33 ∷ [])
    × IsValid c
    × (c.last_write_bytes ≡ cast_int 1)
content-append_example = content-append greeting (33 ∷ []) greeting-IsValid (omega arith)

content-edges_example :
    ((c : Buffer) × (retrieve_as_string greeting 1 ≡ some (104 ∷ [], c))
      × (retrieve greeting 1 ≡ some c)
      × (content c ≡ 105 ∷ [])
      × IsValid c)
    × ((c : Buffer) × (unwrite greeting 1 ≡ some c) × (content c ≡ 104 ∷ []) × IsValid c)
    × ((c : Buffer) × (prepend greeting (1 ∷ 2 ∷ []) ≡ some c)
        × (content c ≡ 1 ∷ 2 ∷ 104 ∷ 105 ∷ [])
        × IsValid c)
content-edges_example =
    content-edges greeting 1 (1 ∷ 2 ∷ []) greeting-IsValid (omega arith) (omega arith)

content-read_fd_example :
    (c : Buffer) × (read_fd greeting (received (1 ∷ 2 ∷ 3 ∷ [])) ≡ some c)
    × (content c ≡ 104 ∷ 105 ∷ 1 ∷ 2 ∷ 3 ∷ [])
    × IsValid c
content-read_fd_example =
    content-read_fd greeting (1 ∷ 2 ∷ 3 ∷ []) greeting-IsValid (omega arith) (omega arith)
