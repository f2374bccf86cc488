-- ===== src/Net/TcpConnection/Reading.antt =====
-- src/net/TCPConnection.cpp, `handleRead`: when the read callback runs.
use hohnor.Prelude.{
  ℕ, ◌+◌, ◌≤◌, ◌≡◌, sym, ap, ◌∙◌, Bool, false, Bool-cases, inl, inr, List, ◌∷◌, ◌++◌, some, length,
  length-append, arith, ◌==◌, leb, if◌then◌else◌,
}
use hohnor.Common.Buffer
use hohnor.Common.Buffer.{
  Buffer, readable_bytes, writable_bytes, vector_max_size, received, offered, extra_size, search,
  starts_with, slice,
}
use hohnor.Common.Buffer.Room
use hohnor.Common.Buffer.Room.{content, length-content}
use hohnor.Common.Buffer.Refill.{content-read_fd, last_write_bytes-read_fd}
use hohnor.Net.TcpConnection.{
  TcpConnection, StopCondition, until_delimiter, at_least, stops, read_complete, handle_read, trim,
}

-- The connection with new bytes read, and the callback's run noted where it ran.
abbrev pub after_read : TcpConnection → Buffer → ℕ → Bool → TcpConnection
after_read c b k told =
    if told
    then record c { read_buffer = b; notices = read_complete k ∷ c.notices }
    else record c { read_buffer = b }

trim-nonempty : (b : Buffer) → (readable_bytes b == 0) ≡ false → trim b ≡ some b
unfolding trim
trim-nonempty b f = ground arith

handle_read-steps :
    (x : ℕ) (new : List ℕ) (c : TcpConnection) (s : StopCondition) (k : ℕ) (b : Buffer)
    → c.stop_condition ≡ some s
    → c.read_complete_callback ≡ some k
    → Buffer.read_fd c.read_buffer (received (x ∷ new)) ≡ some b
    → (readable_bytes b == 0) ≡ false
    → handle_read (λ d. d) (received (x ∷ new)) c ≡ some (after_read c b k (stops s b))
unfolding handle_read
handle_read-steps x new c s k b h g e f =
    let t = trim-nonempty b f in
    elim (Bool-cases (stops s b)) [ inl y ↦ ground (arith, t) | inr n ↦ ground (arith, t) ]

-- A read of `x ∷ new` in a connection whose condition is `s` and whose callback is `k`.
module _ (x : ℕ) (new : List ℕ) (c : TcpConnection) (s : StopCondition) (k : ℕ) where
  pub record Ready : Type 0 where
    pub condition : c.stop_condition ≡ some s
    pub callback : c.read_complete_callback ≡ some k
    pub buffer : Room.IsValid c.read_buffer
    pub delivered : length (x ∷ new) ≤ offered c.read_buffer
    pub grows : length c.read_buffer.bytes + extra_size ≤ vector_max_size

  handle_read-told :
      Ready
      → (b : Buffer) × (handle_read (λ d. d) (received (x ∷ new)) c
          ≡ some (after_read c b k (stops s b)))
        × (content b ≡ content c.read_buffer ++ x ∷ new)
        × Room.IsValid b
        × (Buffer.read_fd c.read_buffer (received (x ∷ new)) ≡ some b)
  handle_read-told r =
      let (b, e, same, v) = content-read_fd c.read_buffer (x ∷ new) r.buffer r.delivered r.grows in
      (b, handle_read-steps x new c s k b r.condition r.callback e (more b same v), same, v, e)
    where
      more :
          (b : Buffer)
          → content b ≡ content c.read_buffer ++ x ∷ new
          → Room.IsValid b
          → (readable_bytes b == 0) ≡ false
      more b same v = ground (
        arith,
        length-content b v,
        ap length same,
        length-append (content c.read_buffer) (x ∷ new),
      )

-- After `readBytes(n)`, with a read callback set that leaves the connection alone and room for what
-- `readv` delivered, `handleRead` puts what arrived behind what was there, and the callback runs
-- exactly when the buffer then holds `n` bytes.
pub handle_read-at_least :
    (x : ℕ) (new : List ℕ) (c : TcpConnection) (n k : ℕ)
    → Ready x new c (at_least n) k
    → (b : Buffer) × (content b ≡ content c.read_buffer ++ x ∷ new)
      × (handle_read (λ d. d) (received (x ∷ new)) c
          ≡ some (after_read c b k (leb n (length (content c.read_buffer ++ x ∷ new)))))
unfolding stops
handle_read-at_least x new c n k r =
    let (b, e, same, v, f) = handle_read-told x new c (at_least n) k r in
    (
      b,
      same,
      e ∙ ap (λ m. some (after_read c b k (leb n m))) (sym (length-content b v) ∙ ap length same),
    )

stops-nothing_new :
    (y : ℕ) (ys : List ℕ) (b : Buffer)
    → b.last_write_bytes ≡ 0
    → stops (until_delimiter (y ∷ ys)) b ≡ false
unfolding stops search starts_with
stops-nothing_new y ys b e = rw e

-- After `readUntil` with a delimiter that is not empty, and a read callback set, a read that fits the free storage
-- of a buffer that was never appended to does not run the callback, whatever arrived, the delimiter included.
pub handle_read-until_misses :
    (x : ℕ) (new : List ℕ) (c : TcpConnection) (y : ℕ) (ys : List ℕ) (k : ℕ)
    → Ready x new c (until_delimiter (y ∷ ys)) k
    → c.read_buffer.last_write_bytes ≡ 0
    → length (x ∷ new) ≤ writable_bytes c.read_buffer
    → (b : Buffer) × (content b ≡ content c.read_buffer ++ x ∷ new)
      × (handle_read (λ d. d) (received (x ∷ new)) c ≡ some (record c { read_buffer = b }))
handle_read-until_misses x new c y ys k r last fits =
    let (b, e, same, v, f) = handle_read-told x new c (until_delimiter (y ∷ ys)) k r in
    (
      b,
      same,
      e
          ∙ ap (λ t. some (after_read c b k t))
              (stops-nothing_new y ys b
                (last_write_bytes-read_fd c.read_buffer (x ∷ new) r.buffer fits f ∙ last)),
    )
