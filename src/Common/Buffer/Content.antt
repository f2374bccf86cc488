-- ===== src/Common/Buffer/Content.antt =====
-- include/hohnor/common/Buffer.h against its contract: a byte queue, read and written at both ends.
use hohnor.Prelude.{
  ℕ, ◌+◌, ◌-◌, ◌≤◌, ◌<◌, ◌≡◌, refl, sym, ap, ap₂, ◌∙◌, Bool-cases, inl, inr, true, List, ◌++◌,
  length, take, drop, arith, some, ltb, leb, add64, sub64,
}
use hohnor.Common.Buffer.Bytes.{
  slice-copy_to_at, slice-copy_to_after, length-copy_to, slice_split, drop-slice_sub, drop_all,
  take-take-le,
}
use hohnor.Common.Buffer.{
  Buffer, vector_max_size, cast_int, slice, copy_to, readable_bytes, prependable_bytes, has_written,
  write_here, append, retrieve, retrieve_all, retrieve_as_string, prepend, unwrite,
}
use hohnor.Common.Buffer.Room.{
  IsValid, content, length-content, HasRoom, ensure_writable-HasRoom, copied, content-copied,
}

-- On a valid buffer `append` adds its bytes at the back: while the storage fits a vector it succeeds, with its
-- assertions passed and the invariant kept, and records how much it wrote.
pub content-append :
    (b : Buffer) (new : List ℕ)
    → IsValid b
    → b.writer_index + length new ≤ vector_max_size
    → (c : Buffer) × (append b new ≡ some c)
      × (content c ≡ content b ++ new)
      × IsValid c
      × (c.last_write_bytes ≡ cast_int (length new))
unfolding append write_here has_written
content-append b new v fits =
    let (c, e, r) = ensure_writable-HasRoom b (length new) v fits in
    let (same, valid) = content-copied c new (cast_int (length new)) r.valid r.room in
    rw (e, append, write_here, room c r)
      (copied c new (cast_int (length new)), refl, same ∙ ap (λ l. l ++ new) r.same, valid, refl)
  where
    room :
        (c : Buffer)
        → HasRoom b (length new) c
        → leb (length new) (sub64 (length (copy_to c.bytes c.writer_index new)) c.writer_index)
          ≡ true
    room c r = ground (arith, length-copy_to c.bytes c.writer_index new r.room)

module _ (b : Buffer) (n : ℕ) (v : IsValid b) where
  retrieve_lem :
      n ≤ length (content b)
      → (c : Buffer) × (retrieve b n ≡ some c) × (content c ≡ drop n (content b)) × IsValid c
  unfolding retrieve retrieve_all
  retrieve_lem h = elim (Bool-cases (ltb n (readable_bytes b))) [
    | inl t ↦
        rw (enough, t)
          (
            record b { reader_index = add64 b.reader_index n },
            refl,
            ap₂ (slice b.bytes) (omega (arith, short t, length-content b v))
                  (omega (arith, short t, length-content b v))
                ∙ sym (
                    drop-slice_sub b.bytes b.reader_index n (b.writer_index - b.reader_index)
                      (omega (arith, short t))),
            omega (arith, short t),
          )
    | inr f ↦
        rw (enough, f)
          (
            retrieve_all b,
            refl,
            sym (drop_all n (content b) (ground (arith, length-content b v))),
            omega arith,
          )
  ]
    where
      enough : leb n (readable_bytes b) ≡ true
      enough = ground (arith, length-content b v)

      short : ltb n (readable_bytes b) ≡ true → n < readable_bytes b
      short t = ground arith

-- `retrieve` takes bytes off the front, `retrieveAsString` hands them over, and neither asserts
-- while there are that many.
pub content-retrieve :
    (b : Buffer) (n : ℕ)
    → IsValid b
    → n ≤ length (content b)
    → (c : Buffer) × (retrieve_as_string b n ≡ some (take n (content b), c))
      × (retrieve b n ≡ some c)
      × (content c ≡ drop n (content b))
      × IsValid c
unfolding retrieve_as_string
content-retrieve b n v h =
    let (c, e, s, k) = retrieve_lem b n v h in
    rw (enough, e)
      (
        c,
        ap (λ l. some (l, c))
            (sym (
              take-take-le n (b.writer_index - b.reader_index) (drop b.reader_index b.bytes)
                (omega (arith, length-content b v)))),
        refl,
        s,
        k,
      )
  where
    enough : leb n (readable_bytes b) ≡ true
    enough = ground (arith, length-content b v)

-- `prepend` puts bytes in front, if the free space there holds them.
pub content-prepend :
    (b : Buffer) (new : List ℕ)
    → IsValid b
    → length new ≤ b.reader_index
    → (c : Buffer) × (prepend b new ≡ some c) × (content c ≡ new ++ content b) × IsValid c
unfolding prepend
content-prepend b new v h = rw enough (
  record b { reader_index = place; bytes = copy_to b.bytes place new },
  refl,
  ap (slice whole place) (omega arith)
      ∙ slice_split whole place (length new) (b.writer_index - b.reader_index)
      ∙ ap₂ ◌++◌ (slice-copy_to_at b.bytes place new (omega arith)) (
          slice-copy_to_after b.bytes place new (b.writer_index - b.reader_index) (omega arith)
          ∙ ap (λ i. slice b.bytes i (b.writer_index - b.reader_index)) (omega arith)),
  omega (arith, length-copy_to b.bytes place new (omega arith)),
)
  where
    place : ℕ
    place = sub64 b.reader_index (length new)

    whole : List ℕ
    whole = copy_to b.bytes place new

    enough : leb (length new) (prependable_bytes b) ≡ true
    enough = ground arith

-- `unwrite` takes bytes off the back.
pub content-unwrite :
    (b : Buffer) (n : ℕ)
    → IsValid b
    → n ≤ length (content b)
    → (c : Buffer) × (unwrite b n ≡ some c)
      × (content c ≡ take (length (content b) - n) (content b))
      × IsValid c
unfolding unwrite
content-unwrite b n v h = rw enough (
  record b {
    writer_index = sub64 b.writer_index n;
    last_write_bytes = sub64 (sub64 b.writer_index n) b.reader_index;
  },
  refl,
  ap (slice b.bytes b.reader_index) (omega (arith, length-content b v))
      ∙ sym (
          take-take-le (length (content b) - n) (b.writer_index - b.reader_index)
            (drop b.reader_index b.bytes) (omega (arith, length-content b v))),
  omega (arith, length-content b v),
)
  where
    enough : leb n (readable_bytes b) ≡ true
    enough = ground (arith, length-content b v)

-- The ends of a valid buffer: while there are `n` bytes, `retrieve` takes them off the front, and
-- `retrieveAsString` hands them over; `unwrite` takes them off the back; and `prepend` puts bytes in front if
-- the free space there holds them. No assertion fails, and the rest of the content stays as it is.
pub content-edges :
    (b : Buffer) (n : ℕ) (new : List ℕ)
    → IsValid b
    → n ≤ length (content b)
    → length new ≤ b.reader_index
    → ((c : Buffer) × (retrieve_as_string b n ≡ some (take n (content b), c))
        × (retrieve b n ≡ some c)
        × (content c ≡ drop n (content b))
        × IsValid c)
      × ((c : Buffer) × (unwrite b n ≡ some c)
          × (content c ≡ take (length (content b) - n) (content b))
          × IsValid c)
      × ((c : Buffer) × (prepend b new ≡ some c) × (content c ≡ new ++ content b) × IsValid c)
content-edges b n new v h k =
    (content-retrieve b n v h, content-unwrite b n v h, content-prepend b new v k)
