-- ===== src/Common/Buffer.antt =====
-- include/hohnor/common/Buffer.h and src/net/Buffer.cpp. The storage is `bytes`; a failed `assert`
-- and the `length_error` of `vector::resize` are `none`.
pub mod Bytes
pub mod Room
pub mod Content
pub mod Refill
mod Examples
use hohnor.Prelude.{
  ℕ, zero, suc, ◌+◌, ◌-◌, ◌*◌, ◌%◌, ◌^◌, ◌≡◌, Bool, true, false, ◌&&◌, List, [], ◌∷◌, ◌++◌, Option,
  none, some, if◌then◌else◌, ◌==◌, leb, ltb, add64, sub64, u64_mod, length, take, drop, replicate,
  max, ◌>>=◌,
}

pub record Buffer : Type 0 where
  pub bytes : List ℕ
  pub capacity : ℕ
  pub reader_index : ℕ
  pub writer_index : ℕ
  pub last_write_bytes : ℕ

abbrev pub cheap_prepend : ℕ
cheap_prepend = 8

abbrev pub initial_size : ℕ
initial_size = 1024

-- The longest `vector<char>`.
abbrev pub vector_max_size : ℕ
vector_max_size = 2 ^ 63 - 1

-- `(size_t)(int)n`.
abbrev pub cast_int : ℕ → ℕ
cast_int n = let low = n % 2 ^ 32 in if ltb low (2 ^ 31) then low else low + (u64_mod - 2 ^ 32)

-- `std::copy(data, data + n, begin + i)` into the storage.
unfoldable pub copy_to : List ℕ → ℕ → List ℕ → List ℕ
copy_to bytes i new = take i bytes ++ (new ++ drop (i + length new) bytes)

-- Bytes `i` to `i + n` of the storage.
abbrev pub slice : List ℕ → ℕ → ℕ → List ℕ
slice bytes i n = take n (drop i bytes)

unfoldable pub create : ℕ → Buffer
create size = record {
  bytes = replicate (cheap_prepend + size) 0;
  capacity = cheap_prepend + size;
  reader_index = cheap_prepend;
  writer_index = cheap_prepend;
  last_write_bytes = 0;
}

abbrev pub readable_bytes : Buffer → ℕ
readable_bytes b = sub64 b.writer_index b.reader_index

abbrev pub writable_bytes : Buffer → ℕ
writable_bytes b = sub64 (length b.bytes) b.writer_index

abbrev pub prependable_bytes : Buffer → ℕ
prependable_bytes b = b.reader_index

-- What stands between `peek()` and the writer.
abbrev pub peeked : Buffer → List ℕ
peeked b = slice b.bytes b.reader_index (readable_bytes b)

-- `readableSlice`: the length becomes an `int`. A negative one, which `append` and `write` would take for a size
-- near 2^64, is none.
unfoldable pub readable_slice : Buffer → Option (List ℕ)
readable_slice b =
    let n = readable_bytes b % 2 ^ 32 in
    if ltb n (2 ^ 31) then some (slice b.bytes b.reader_index n) else none

unfoldable pub retrieve_all : Buffer → Buffer
retrieve_all b = record b { reader_index = cheap_prepend; writer_index = cheap_prepend }

unfoldable pub retrieve : Buffer → ℕ → Option Buffer
unfolding retrieve_all
retrieve b n =
    if leb n (readable_bytes b)
    then (if ltb n (readable_bytes b)
        then some (record b { reader_index = add64 b.reader_index n })
        else some (retrieve_all b))
    else none

-- `retrieveAsString` and `retrieveAsSlice`.
unfoldable pub retrieve_as_string : Buffer → ℕ → Option (List ℕ × Buffer)
retrieve_as_string b n =
    if leb n (readable_bytes b)
    then (elim (retrieve b n) [ none ↦ none | some c ↦ some (slice b.bytes b.reader_index n, c) ])
    else none

unfoldable pub retrieve_all_as_string : Buffer → Option (List ℕ × Buffer)
unfolding retrieve_as_string
retrieve_all_as_string b = retrieve_as_string b (readable_bytes b)

-- `vector::resize`, with the growth of libstdc++.
unfoldable pub resize : Buffer → ℕ → Option Buffer
resize b n =
    if ltb vector_max_size n
    then none
    else some (record b {
      bytes = take n b.bytes ++ replicate (n - length b.bytes) 0;
      capacity = if leb n b.capacity then b.capacity else max (2 * length b.bytes) n;
    })

unfoldable pub make_space : Buffer → ℕ → Option Buffer
unfolding resize copy_to
make_space b n =
    if ltb (add64 (writable_bytes b) (prependable_bytes b)) (add64 n cheap_prepend)
    then resize b (add64 b.writer_index n)
    else some (record b {
      bytes = copy_to b.bytes cheap_prepend (peeked b);
      reader_index = cheap_prepend;
      writer_index = add64 cheap_prepend (readable_bytes b);
    })

-- The assertion at its end.
abbrev pub checked_room : ℕ → Option Buffer → Option Buffer
checked_room n none = none
checked_room n (some b) = if leb n (writable_bytes b) then some b else none

unfoldable pub ensure_writable : Buffer → ℕ → Option Buffer
unfolding make_space
ensure_writable b n =
    if ltb (writable_bytes b) n then checked_room n (make_space b n) else checked_room n (some b)

unfoldable pub has_written : Buffer → ℕ → Option Buffer
has_written b n =
    if leb n (writable_bytes b)
    then some (record b { writer_index = add64 b.writer_index n; last_write_bytes = cast_int n })
    else none

write_here : List ℕ → Option Buffer → Option Buffer
unfolding has_written copy_to
write_here new none = none
write_here new (some b) =
    has_written (record b { bytes = copy_to b.bytes b.writer_index new }) (length new)

-- All four `append`.
unfoldable pub append : Buffer → List ℕ → Option Buffer
unfolding ensure_writable write_here
append b new = write_here new (ensure_writable b (length new))

unfoldable pub prepend : Buffer → List ℕ → Option Buffer
unfolding copy_to
prepend b new =
    if leb (length new) (prependable_bytes b)
    then some (record b {
      reader_index = sub64 b.reader_index (length new);
      bytes = copy_to b.bytes (sub64 b.reader_index (length new)) new;
    })
    else none

unfoldable pub unwrite : Buffer → ℕ → Option Buffer
unwrite b n =
    if leb n (readable_bytes b)
    then some (record b {
      writer_index = sub64 b.writer_index n;
      last_write_bytes = sub64 (sub64 b.writer_index n) b.reader_index;
    })
    else none

-- `swap` exchanges the storage and the indices, and leaves `lastWriteBytes_` where it is.
unfoldable pub swap : Buffer → Buffer → Buffer × Buffer
swap a b = (
  record b { last_write_bytes = a.last_write_bytes },
  record a { last_write_bytes = b.last_write_bytes },
)

unfoldable pub shrink : Buffer → ℕ → Option Buffer
unfolding readable_slice
shrink b reserve = do
  other ← ensure_writable (create initial_size) (add64 (readable_bytes b) reserve)
  slice ← readable_slice b
  full ← append other slice
  some (swap b full).0

-- What `readv` came to: the error number, or the bytes that the kernel delivered.
pub data ReadResult : Type 0 where
  failed : ℕ → ReadResult
  received : List ℕ → ReadResult

abbrev pub extra_size : ℕ
extra_size = 65536

-- How much `readv` may deliver: the second block is offered only to a small buffer.
abbrev pub offered : Buffer → ℕ
offered b =
    if ltb (writable_bytes b) extra_size then writable_bytes b + extra_size else writable_bytes b

-- The result and the error number are in `ReadResult` itself.
unfoldable pub read_fd : Buffer → ReadResult → Option Buffer
read_fd b (failed errno) = some b
read_fd b (received new) =
    if leb (length new) (writable_bytes b)
    then some (record b {
      bytes = copy_to b.bytes b.writer_index new;
      writer_index = add64 b.writer_index (length new);
    })
    else append
        (record b {
          bytes = copy_to b.bytes b.writer_index (take (writable_bytes b) new);
          writer_index = length b.bytes;
        })
        (drop (writable_bytes b) new)

-- `std::search`: the first place where `pattern` stands, none if there is none.
unfoldable pub starts_with : List ℕ → List ℕ → Bool
starts_with text [] = true
starts_with [] (p ∷ ps) = false
starts_with (x ∷ xs) (p ∷ ps) = x == p && starts_with xs ps

unfoldable pub search : List ℕ → List ℕ → Option ℕ
unfolding starts_with
search [] pattern = if starts_with [] pattern then some 0 else none
search (x ∷ xs) pattern =
    if starts_with (x ∷ xs) pattern
    then some 0
    else (elim (search xs pattern) [ none ↦ none | some i ↦ some (suc i) ])

abbrev pub crlf : List ℕ
crlf = 13 ∷ 10 ∷ []

-- `findCRLF()` and `findEOL()`, as the distance from `peek()`.
unfoldable pub find_crlf : Buffer → Option ℕ
unfolding search
find_crlf b = search (peeked b) crlf

unfoldable pub find_eol : Buffer → Option ℕ
unfolding search
find_eol b = search (peeked b) (10 ∷ [])
