-- ===== src/Net/TcpConnection/Stream.antt =====
-- src/net/TCPConnection.cpp, the write side: what the kernel took, then what is buffered, is what was
-- written.
use hohnor.Prelude.{
  ℕ, ◌+◌, ◌≤◌, ◌≡◌, refl, sym, ap, ap₂, ◌∙◌, Bool, true, false, not, ◌&&◌, Bool-cases, inl, inr,
  List, [], ◌∷◌, ◌++◌, append_assoc, append-nil, Option, none, some, length, take, drop,
  take-append-drop, arith, ◌==◌, subst, if◌then◌else◌,
}
use hohnor.Common.Buffer.{readable_bytes, vector_max_size}
use hohnor.Common.Buffer.Room
use hohnor.Common.Buffer.Room.{content, readable-eq-content, length-content}
use hohnor.Net.TcpConnection.{
  TcpConnection, WriteResult, wrote, write_failed, Errno, is_fault, write_in_loop, keep_rest,
  queue_write_complete,
}
use hohnor.Net.TcpConnection.Kept.{stream, IsValid, keep_rest-Kept}

-- Whether `write` reported what `writeInLoop` calls a fault.
abbrev pub is_faulty : WriteResult → Bool
is_faulty (wrote n) = false
is_faulty (write_failed e) = is_fault e

same-IsValid :
    (c d : TcpConnection)
    → d.write_buffer ≡ c.write_buffer
    → d.writing ≡ c.writing
    → IsValid c
    → IsValid d
same-IsValid c d u z v = record {
  buffer = subst Room.IsValid (sym u) v.buffer;
  busy = z ∙ v.busy ∙ ap (λ b. not (length (content b) == 0)) (sym u);
}

pub queued_lem :
    (c : TcpConnection)
    → ((queue_write_complete c).wire ≡ c.wire)
      × ((queue_write_complete c).write_buffer ≡ c.write_buffer)
      × ((queue_write_complete c).writing ≡ c.writing)
queued_lem c = by_callback c.write_complete_callback refl
  where
    by_callback :
        (k : Option ℕ)
        → c.write_complete_callback ≡ k
        → ((queue_write_complete c).wire ≡ c.wire)
          × ((queue_write_complete c).write_buffer ≡ c.write_buffer)
          × ((queue_write_complete c).writing ≡ c.writing)
    by_callback none e = ground arith
    by_callback (some k) e = ground arith

-- The connection of which `keep_rest` keeps the rest.
sent : List ℕ → ℕ → TcpConnection → TcpConnection
sent message n c =
    let after = record c { wire = c.wire ++ take n message } in
    if n == length message then queue_write_complete after else after

sent_lem :
    (message : List ℕ) (n : ℕ) (c : TcpConnection)
    → ((sent message n c).wire ≡ c.wire ++ take n message)
      × ((sent message n c).write_buffer ≡ c.write_buffer)
      × ((sent message n c).writing ≡ c.writing)
unfolding sent
sent_lem message n c = elim (Bool-cases (n == length message)) [
  | inl t ↦ rw t (queued_lem (record c { wire = c.wire ++ take n message }))
  | inr f ↦ rw f (refl, refl, refl)
]

write_in_loop-direct :
    (n : ℕ) (message : List ℕ) (c : TcpConnection)
    → (not c.writing && readable_bytes c.write_buffer == 0) ≡ true
    → write_in_loop (wrote n) message c ≡ keep_rest message n (sent message n c)
unfolding write_in_loop sent
write_in_loop-direct n message c t = rw t

write_in_loop-refused :
    (e : Errno) (message : List ℕ) (c : TcpConnection)
    → is_fault e ≡ false
    → write_in_loop (write_failed e) message c ≡ keep_rest message 0 c
unfolding write_in_loop
write_in_loop-refused e message c h =
    elim (Bool-cases (not c.writing && readable_bytes c.write_buffer == 0)) [
      | inl t ↦ rw (t, h)
      | inr f ↦ rw f
    ]

write_in_loop-indirect :
    (r : WriteResult) (message : List ℕ) (c : TcpConnection)
    → (not c.writing && readable_bytes c.write_buffer == 0) ≡ false
    → write_in_loop r message c ≡ keep_rest message 0 c
unfolding write_in_loop
write_in_loop-indirect r message c f = rw f

pub empty_content : (xs : List ℕ) → length xs ≡ 0 → xs ≡ []
empty_content [] e = refl
empty_content (x ∷ xs) e = ground arith

split_message :
    (xs : List ℕ)
    → xs ≡ []
    → (wire message : List ℕ) (n : ℕ)
    → (wire ++ take n message) ++ (xs ++ drop n message) ≡ (wire ++ xs) ++ message
split_message xs e wire message n = rw (
  e,
  append-nil wire,
  append_assoc wire (take n message) (drop n message),
  take-append-drop n message,
)

-- `writeInLoop` loses, repeats and reorders nothing: what the kernel took, followed by what is
-- buffered, grows by exactly the message, whether the direct write takes some of it, none of it, or is
-- not made; and `writing_` goes on telling whether bytes are buffered. No check fails. This is for a
-- valid connection, a `write` that reports no fault, and a message for which a vector has room.
pub stream-write_in_loop :
    (r : WriteResult) (message : List ℕ) (c : TcpConnection)
    → IsValid c
    → is_faulty r ≡ false
    → c.write_buffer.writer_index + length message ≤ vector_max_size
    → (d : TcpConnection) × (write_in_loop r message c ≡ some d)
      × (stream d ≡ stream c ++ message)
      × IsValid d
stream-write_in_loop r message c v p fits =
    elim (Bool-cases (not c.writing && readable_bytes c.write_buffer == 0)) [
      | inl t ↦ directly r p t
      | inr f ↦ kept r (write_in_loop-indirect r message c f)
    ]
  where
    kept :
        (r : WriteResult)
        → write_in_loop r message c ≡ keep_rest message 0 c
        → (d : TcpConnection) × (write_in_loop r message c ≡ some d)
          × (stream d ≡ stream c ++ message)
          × IsValid d
    kept r e =
        let (d, f, k) = keep_rest-Kept message 0 c v fits in
        (
          d,
          e ∙ f,
          ap₂ ◌++◌ k.wire k.buffered ∙ sym (append_assoc c.wire (content c.write_buffer) message),
          k.valid,
        )

    nothing :
        (not c.writing && readable_bytes c.write_buffer == 0) ≡ true → content c.write_buffer ≡ []
    nothing t =
        empty_content (content c.write_buffer)
          (ground (arith, length-content c.write_buffer v.buffer))

    directly :
        (r : WriteResult)
        → is_faulty r ≡ false
        → (not c.writing && readable_bytes c.write_buffer == 0) ≡ true
        → (d : TcpConnection) × (write_in_loop r message c ≡ some d)
          × (stream d ≡ stream c ++ message)
          × IsValid d
    directly (write_failed e) p t = kept (write_failed e) (write_in_loop-refused e message c p)
    directly (wrote n) p t =
        let (w, u, z) = sent_lem message n c in
        let (d, f, k) =
          keep_rest-Kept message n (sent message n c) (same-IsValid c (sent message n c) u z v)
            (subst (λ b. b.writer_index + length message ≤ vector_max_size) (sym u) fits) in
        (
          d,
          write_in_loop-direct n message c t ∙ f,
          ap₂ ◌++◌ (k.wire ∙ w) (k.buffered ∙ ap (λ b. content b ++ drop n message) u)
              ∙ split_message (content c.write_buffer) (nothing t) c.wire message n,
          k.valid,
        )
