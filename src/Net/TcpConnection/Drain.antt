-- ===== src/Net/TcpConnection/Drain.antt =====
-- src/net/TCPConnection.cpp, `handleWrite`: what the loop sends when the socket takes data again.
use hohnor.Prelude.{
  ℕ, ◌+◌, ◌≤◌, ◌≡◌, refl, sym, ap, ap₂, ◌∙◌, true, false, not, Bool-cases, inl, inr, [], ◌++◌,
  append_assoc, Option, none, some, length, take, drop, take-append-drop, arith, ◌==◌, ltb,
  if◌then◌else◌,
}
use hohnor.Common.Buffer
use hohnor.Common.Buffer.{
  Buffer, readable_bytes, peeked, vector_max_size, cheap_prepend, retrieve_all,
}
use hohnor.Common.Buffer.Room
use hohnor.Common.Buffer.Room.{content, readable-eq-content, length-content}
use hohnor.Common.Buffer.Content.{content-retrieve}
use hohnor.Common.Buffer.Refill.{content-shrink}
use hohnor.Net.TcpConnection.{
  TcpConnection, notify, error, Errno, WriteResult, wrote, write_failed, handle_write, wrote_some,
  emptied, queue_write_complete, set_write_event, handle_error, shrink_limit,
}
use hohnor.Net.TcpConnection.Kept.{stream, IsValid, set_write_event_lem}
use hohnor.Net.TcpConnection.Stream.{queued_lem, empty_content}

-- What `write` took.
abbrev pub taken : WriteResult → ℕ
taken (wrote n) = n
taken (write_failed e) = 0

-- A step that keeps the stream.
record Drained (c d : TcpConnection) : Type 0 where
  valid : IsValid d
  same : stream d ≡ stream c

retrieve-bytes :
    (b : Buffer) (n : ℕ) {d : Buffer} → Buffer.retrieve b n ≡ some d → d.bytes ≡ b.bytes
unfolding Buffer.retrieve retrieve_all
retrieve-bytes b n e = ground arith

told_error : (c : TcpConnection) → IsValid c → Drained c (handle_error c)
unfolding handle_error
told_error c v = by_callback c.error_callback
  where
    by_callback : (k : Option ℕ) → Drained c (notify error k c)
    by_callback none = record { valid = v; same = refl }
    by_callback (some k) = record {
      valid = record { buffer = v.buffer; busy = v.busy };
      same = refl;
    }

-- The storage that `emptied` leaves.
trimmed : Buffer → Option Buffer
trimmed b = if ltb shrink_limit b.capacity then Buffer.shrink b 0 else some b

trimmed_lem :
    (b : Buffer)
    → Room.IsValid b
    → content b ≡ []
    → length b.bytes + cheap_prepend ≤ vector_max_size
    → (d : Buffer) × (trimmed b ≡ some d) × (content d ≡ content b) × Room.IsValid d
unfolding trimmed
trimmed_lem b v left fits = elim (Bool-cases (ltb shrink_limit b.capacity)) [
  | inl t ↦ rw t (content-shrink b 0 v (omega arith) (omega (arith, none_readable)))
  | inr f ↦ rw f (b, refl, refl, v)
]
  where
    none_readable : readable_bytes b ≡ 0
    none_readable = sym (length-content b v) ∙ ap length left

emptied_steps :
    (c d : TcpConnection) {b : Buffer}
    → set_write_event false c ≡ some d
    → trimmed (queue_write_complete (record d { writing = false })).write_buffer ≡ some b
    → emptied c
      ≡ some (record (queue_write_complete (record d { writing = false })) { write_buffer = b })
unfolding emptied trimmed
emptied_steps c d e f = rw (e, f)

emptied_lem :
    (c : TcpConnection)
    → Room.IsValid c.write_buffer
    → content c.write_buffer ≡ []
    → length c.write_buffer.bytes + cheap_prepend ≤ vector_max_size
    → (d : TcpConnection) × (emptied c ≡ some d) × Drained c d
emptied_lem c v left fits =
    let (h, e) = set_write_event_lem false c in
    let off = record c { handler = h } in
    let after = record c { handler = h; writing = false } in
    let (w, u, z) = queued_lem after in
    let (b, f, same, k) = trimmed_lem c.write_buffer v left fits in
    (
      record (queue_write_complete after) { write_buffer = b },
      emptied_steps c off e (ap trimmed u ∙ f),
      record {
        valid = record { buffer = k; busy = z ∙ ap (λ l. not (length l == 0)) (sym (same ∙ left)) };
        same = ap₂ ◌++◌ w same;
      },
    )

-- `n` bytes taken, and what `wrote_some` then has.
abbrev rest : TcpConnection → ℕ → Buffer → TcpConnection
rest c n b = record c { write_buffer = b; wire = c.wire ++ take n (peeked c.write_buffer) }

rest-same :
    (c : TcpConnection) (n : ℕ) (b : Buffer)
    → IsValid c
    → content b ≡ drop n (content c.write_buffer)
    → stream (rest c n b) ≡ stream c
rest-same c n b v e =
    rw (e, readable-eq-content c.write_buffer v.buffer)
      (append_assoc c.wire (take n (content c.write_buffer)) (drop n (content c.write_buffer))
        ∙ ap (◌++◌ c.wire) (take-append-drop n (content c.write_buffer)))

wrote_some-stays :
    (c : TcpConnection) (n : ℕ) (b : Buffer)
    → Buffer.retrieve c.write_buffer n ≡ some b
    → (readable_bytes b == 0) ≡ false
    → wrote_some n c ≡ some (rest c n b)
unfolding wrote_some
wrote_some-stays c n b e f = rw (e, f)

wrote_some-empties :
    (c : TcpConnection) (n : ℕ) (b : Buffer)
    → Buffer.retrieve c.write_buffer n ≡ some b
    → (readable_bytes b == 0) ≡ true
    → wrote_some n c ≡ emptied (rest c n b)
unfolding wrote_some
wrote_some-empties c n b e t = rw (e, t)

wrote_some_lem :
    (n : ℕ) (c : TcpConnection)
    → IsValid c
    → c.writing ≡ true
    → n ≤ length (content c.write_buffer)
    → length c.write_buffer.bytes + cheap_prepend ≤ vector_max_size
    → (d : TcpConnection) × (wrote_some n c ≡ some d) × Drained c d
wrote_some_lem n c v on le fits =
    let (b, _, e, same, k) = content-retrieve c.write_buffer n v.buffer le in
    elim (Bool-cases (readable_bytes b == 0)) [
      | inl t ↦
          let (d, f, g) = emptied_lem (rest c n b) (valid b k) (left b k t) (fit b e) in
          (
            d,
            wrote_some-empties c n b e t ∙ f,
            record { valid = g.valid; same = g.same ∙ rest-same c n b v same },
          )
      | inr f ↦ (
        rest c n b,
        wrote_some-stays c n b e f,
        record { valid = still b k f; same = rest-same c n b v same },
      )
    ]
  where
    valid : (b : Buffer) → Room.IsValid b → Room.IsValid (rest c n b).write_buffer
    valid b k = k

    left :
        (b : Buffer)
        → Room.IsValid b
        → (readable_bytes b == 0) ≡ true
        → content (rest c n b).write_buffer ≡ []
    left b k t = empty_content (content b) (ground (arith, length-content b k))

    fit :
        (b : Buffer)
        → Buffer.retrieve c.write_buffer n ≡ some b
        → length (rest c n b).write_buffer.bytes + cheap_prepend ≤ vector_max_size
    fit b e = omega (arith, ap length (retrieve-bytes c.write_buffer n e))

    still : (b : Buffer) → Room.IsValid b → (readable_bytes b == 0) ≡ false → IsValid (rest c n b)
    still b k f = record {
      buffer = k;
      busy = on ∙ ap not (sym (ap (λ m. m == 0) (length-content b k) ∙ f));
    }

handle_write-some :
    (n : ℕ) (c : TcpConnection)
    → c.writing ≡ true
    → ltb 0 n ≡ true
    → handle_write (wrote n) c ≡ wrote_some n c
unfolding handle_write
handle_write-some n c on t = ground arith

handle_write-none :
    (n : ℕ) (c : TcpConnection)
    → c.writing ≡ true
    → ltb 0 n ≡ false
    → handle_write (wrote n) c ≡ some (handle_error c)
unfolding handle_write
handle_write-none n c on f = ground arith

handle_write-failed :
    (e : Errno) (c : TcpConnection)
    → c.writing ≡ true
    → handle_write (write_failed e) c ≡ some (handle_error c)
unfolding handle_write
handle_write-failed e c on = ground arith

handle_write-off :
    (r : WriteResult) (c : TcpConnection) → c.writing ≡ false → handle_write r c ≡ some c
unfolding handle_write
handle_write-off (wrote n) c off = ground arith
handle_write-off (write_failed e) c off = ground arith

-- `handleWrite` hands the socket bytes that were written and not yet taken, in their order, and
-- drops none: the stream of all bytes written stays as it was, on every branch, with the buffer emptied
-- or not, replaced by a small one or not, and `writing_` goes on telling whether bytes are buffered. This
-- is for a valid connection with a storage not at its limit, and a `write` that took no more than there is.
pub stream-handle_write :
    (r : WriteResult) (c : TcpConnection)
    → IsValid c
    → taken r ≤ length (content c.write_buffer)
    → length c.write_buffer.bytes + cheap_prepend ≤ vector_max_size
    → (d : TcpConnection) × (handle_write r c ≡ some d) × (stream d ≡ stream c) × IsValid d
stream-handle_write (wrote n) c v le fits = elim (Bool-cases c.writing) [
  | inl on ↦ elim (Bool-cases (ltb 0 n)) [
    | inl t ↦
        let (d, e, g) = wrote_some_lem n c v on le fits in
        (d, handle_write-some n c on t ∙ e, g.same, g.valid)
    | inr f ↦
        let g = told_error c v in (handle_error c, handle_write-none n c on f, g.same, g.valid)
  ]
  | inr off ↦ (c, handle_write-off (wrote n) c off, refl, v)
]
stream-handle_write (write_failed e) c v le fits = elim (Bool-cases c.writing) [
  | inl on ↦ let g = told_error c v in (handle_error c, handle_write-failed e c on, g.same, g.valid)
  | inr off ↦ (c, handle_write-off (write_failed e) c off, refl, v)
]
