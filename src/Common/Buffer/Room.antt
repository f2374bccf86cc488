-- ===== src/Common/Buffer/Room.antt =====
-- include/hohnor/common/Buffer.h: the invariant, the readable bytes, and how room is made.
use hohnor.Prelude.{
  ℕ, ◌+◌, ◌-◌, ◌≤◌, ◌<◌, ◌≡◌, refl, ap, ap₂, ◌∙◌, Bool-cases, inl, inr, true, false, List, ◌++◌,
  length, take, replicate, length-append, length-replicate, arith, some, ltb, leb, add64,
}
use hohnor.Common.Buffer.Bytes.{
  take_all, slice-append_le, slice-copy_to_at, slice-copy_to_before, length-copy_to, length-slice,
  slice_split,
}
use hohnor.Common.Buffer.{
  Buffer, cheap_prepend, vector_max_size, slice, copy_to, peeked, readable_bytes, writable_bytes,
  prependable_bytes, make_space, ensure_writable, resize,
}

-- `0 <= readerIndex <= writerIndex <= size`, and the storage is a vector that held the cheap prepend.
pub record IsValid (b : Buffer) : Type 0 where
  pub ordered : b.reader_index ≤ b.writer_index
  pub inside : b.writer_index ≤ length b.bytes
  pub prepend_in : cheap_prepend ≤ length b.bytes
  pub small : length b.bytes ≤ vector_max_size

-- The readable bytes.
abbrev pub content : Buffer → List ℕ
content b = slice b.bytes b.reader_index (b.writer_index - b.reader_index)

pub readable-eq-content : (b : Buffer) → IsValid b → peeked b ≡ content b
readable-eq-content b v = ap (slice b.bytes b.reader_index) (omega arith)

pub length-content : (b : Buffer) → IsValid b → length (content b) ≡ readable_bytes b
length-content b v =
    length-slice b.bytes b.reader_index (b.writer_index - b.reader_index) (omega arith)
    ∙ omega arith

-- What `makeSpace` and `ensureWritable` promise: the same bytes, and room for `n` more.
pub record HasRoom (b : Buffer) (n : ℕ) (c : Buffer) : Type 0 where
  pub valid : IsValid c
  pub same : content c ≡ content b
  pub room : c.writer_index + n ≤ length c.bytes
  pub last : c.last_write_bytes ≡ b.last_write_bytes

module _ (b : Buffer) (n : ℕ) (v : IsValid b) where
  abbrev left_over : ℕ
  left_over = b.writer_index - b.reader_index

  moved-HasRoom :
      writable_bytes b < n
      → b.writer_index + n ≤ vector_max_size
      → n + cheap_prepend ≤ length b.bytes - b.writer_index + b.reader_index
      → HasRoom b n (record b {
        bytes = copy_to b.bytes cheap_prepend (peeked b);
        reader_index = cheap_prepend;
        writer_index = add64 cheap_prepend (readable_bytes b);
      })
  moved-HasRoom short fits f = record {
    valid = omega (arith, size);
    same =
        ap (slice (copy_to b.bytes cheap_prepend (peeked b)) cheap_prepend) (omega (arith, count))
        ∙ slice-copy_to_at b.bytes cheap_prepend (peeked b) v.prepend_in
        ∙ readable-eq-content b v;
    room = omega (arith, size);
    last = refl;
  }
    where
      count : length (peeked b) ≡ left_over
      count = omega (arith, ap length (readable-eq-content b v), length-content b v)

      size : length (copy_to b.bytes cheap_prepend (peeked b)) ≡ length b.bytes
      size = length-copy_to b.bytes cheap_prepend (peeked b) (omega (arith, count))

  grown-HasRoom :
      (k : ℕ)
      → b.writer_index + n ≤ vector_max_size
      → writable_bytes b < n
      → HasRoom b n (record b {
        bytes =
            take (b.writer_index + n) b.bytes ++ replicate (b.writer_index + n - length b.bytes) 0;
        capacity = k;
      })
  grown-HasRoom k fits short = record {
    valid = omega (arith, size);
    same =
        slice-append_le (take (b.writer_index + n) b.bytes) _ b.reader_index left_over
          (omega (arith, ap length whole))
        ∙ ap (λ l. slice l b.reader_index left_over) whole;
    room = omega (arith, size);
    last = refl;
  }
    where
      whole : take (b.writer_index + n) b.bytes ≡ b.bytes
      whole = take_all (b.writer_index + n) b.bytes (omega arith)

      size :
          length
            (take (b.writer_index + n) b.bytes ++ replicate (b.writer_index + n - length b.bytes) 0)
          ≡ b.writer_index + n
      size = omega (
        arith,
        ap length whole,
        length-append (take (b.writer_index + n) b.bytes)
            (replicate (b.writer_index + n - length b.bytes) 0),
        length-replicate {A = ℕ} (b.writer_index + n - length b.bytes) 0,
      )

  resized-HasRoom :
      (m : ℕ)
      → m ≡ b.writer_index + n
      → b.writer_index + n ≤ vector_max_size
      → writable_bytes b < n
      → (c : Buffer) × (resize b m ≡ some c) × HasRoom b n c
  unfolding resize
  resized-HasRoom m e fits short = rw (e, fits_lem) (_, refl, grown-HasRoom _ fits short)
    where
      fits_lem : ltb vector_max_size (b.writer_index + n) ≡ false
      fits_lem = ground arith

  -- `makeSpace`, called where the room is short, grows the storage or moves the bytes down.
  pub make_space-HasRoom :
      b.writer_index + n ≤ vector_max_size
      → writable_bytes b < n
      → (c : Buffer) × (make_space b n ≡ some c) × HasRoom b n c
  unfolding make_space
  make_space-HasRoom fits short =
      elim (Bool-cases
        (ltb (add64 (writable_bytes b) (prependable_bytes b)) (add64 n cheap_prepend))) [
          | inl t ↦ rw t (resized-HasRoom (add64 b.writer_index n) (omega arith) fits short)
          | inr f ↦ rw f (_, refl, moved-HasRoom short fits (ground arith))
        ]

  -- So does `ensureWritable`, whose assertion never fails.
  pub ensure_writable-HasRoom :
      b.writer_index + n ≤ vector_max_size
      → (c : Buffer) × (ensure_writable b n ≡ some c) × HasRoom b n c
  unfolding ensure_writable
  ensure_writable-HasRoom fits = elim (Bool-cases (ltb (writable_bytes b) n)) [
    | inl t ↦
        let (c, e, r) = make_space-HasRoom fits (ground arith) in
        rw (t, e, fits_room c r) (c, refl, r)
    | inr f ↦ rw (f, fits_room b (here f)) (b, refl, here f)
  ]
    where
      here : ltb (writable_bytes b) n ≡ false → HasRoom b n b
      here f = record { valid = v; same = refl; room = ground arith; last = refl }

      fits_room : (c : Buffer) → HasRoom b n c → leb n (writable_bytes c) ≡ true
      fits_room c r = ground arith

-- Bytes copied behind the content, and the writer moved past them.
module _ (b : Buffer) (new : List ℕ) (k : ℕ) where
  abbrev pub copied : Buffer
  copied = record b {
    bytes = copy_to b.bytes b.writer_index new;
    writer_index = add64 b.writer_index (length new);
    last_write_bytes = k;
  }

  pub content-copied :
      IsValid b
      → b.writer_index + length new ≤ length b.bytes
      → (content copied ≡ content b ++ new) × IsValid copied
  content-copied v room = (
    ap (slice whole b.reader_index) (omega arith)
        ∙ slice_split whole b.reader_index (b.writer_index - b.reader_index) (length new)
        ∙ ap₂ ◌++◌
            (slice-copy_to_before b.bytes b.writer_index new b.reader_index
              (b.writer_index - b.reader_index) (omega arith) v.inside)
            (ap (λ i. slice whole i (length new)) (omega arith)
              ∙ slice-copy_to_at b.bytes b.writer_index new v.inside),
    omega (arith, length-copy_to b.bytes b.writer_index new room),
  )
    where
      whole : List ℕ
      whole = copy_to b.bytes b.writer_index new
