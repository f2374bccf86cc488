-- ===== src/Net/TcpConnection/Kept.antt =====
-- src/net/TCPConnection.cpp, the end of `writeInLoop`: what the kernel did not take is buffered.
use hohnor.Prelude.{
  ℕ, ◌+◌, ◌-◌, ◌≤◌, ◌<◌, ◌≡◌, ◌≢◌, refl, sym, ap, ◌∙◌, Bool, true, false, not, Bool-cases, inl, inr,
  List, [], ◌∷◌, ◌++◌, append-nil, Option, none, some, length, drop, length-append, length-drop,
  arith, ◌==◌, lt→ltb, dec_lt, subst,
}
use hohnor.Common.Buffer
use hohnor.Common.Buffer.{Buffer, readable_bytes, peeked, vector_max_size, cheap_prepend}
use hohnor.Common.Buffer.Room
use hohnor.Common.Buffer.Bytes.{drop_all}
use hohnor.Common.Buffer.Room.{content, readable-eq-content, length-content}
use hohnor.Common.Buffer.Content.{content-append}
use hohnor.Core.IoHandler.{IoHandler}
use hohnor.Core.IoHandler.Registration.{set_write_event_total}
use hohnor.Net.TcpConnection.{
  TcpConnection, keep_rest, start_writing, tell_high_water, set_write_event,
}

-- All bytes written so far, those still buffered last.
abbrev pub stream : TcpConnection → List ℕ
stream c = c.wire ++ content c.write_buffer

-- `writing_` is set exactly while bytes are buffered.
pub record IsValid (c : TcpConnection) : Type 0 where
  pub buffer : Room.IsValid c.write_buffer
  pub busy : c.writing ≡ not (length (content c.write_buffer) == 0)

pub set_write_event_lem :
    (on : Bool) (c : TcpConnection)
    → (h : Option IoHandler) × (set_write_event on c ≡ some (record c { handler = h }))
unfolding set_write_event
set_write_event_lem on c = by_handler c.handler refl
  where
    by_handler :
        (h : Option IoHandler)
        → c.handler ≡ h
        → (h : Option IoHandler) × (set_write_event on c ≡ some (record c { handler = h }))
    by_handler none e = (c.handler, ground arith)
    by_handler (some h) e = let (k, t) = set_write_event_total on h in (some k, ground (arith, t))

-- A message of which the kernel took `n` bytes: the rest is buffered.
pub record Kept (c : TcpConnection) (rest : List ℕ) (d : TcpConnection) : Type 0 where
  pub valid : IsValid d
  pub wire : d.wire ≡ c.wire
  pub buffered : content d.write_buffer ≡ content c.write_buffer ++ rest

pub nonempty : (xs : List ℕ) → xs ≢ [] → (length xs == 0) ≡ false
nonempty [] n = absurd (n refl)
nonempty (x ∷ xs) n = ground arith

start_writing-busy : (c : TcpConnection) → c.writing ≡ true → start_writing c ≡ some c
unfolding start_writing
start_writing-busy c w = ground arith

start_writing-idle :
    (c : TcpConnection)
    → c.writing ≡ false
    → (h : Option IoHandler) × (start_writing c ≡ some (record c { handler = h; writing = true }))
unfolding start_writing
start_writing-idle c w = let (h, e) = set_write_event_lem true c in (h, ground (arith, e))

started :
    (c : TcpConnection)
    → Room.IsValid c.write_buffer
    → content c.write_buffer ≢ []
    → (d : TcpConnection) × (start_writing c ≡ some d) × Kept c [] d
started c v n = elim (Bool-cases c.writing) [
  | inl w ↦ (
    c,
    start_writing-busy c w,
    record {
      valid = record { buffer = v; busy = ground (arith, nonempty (content c.write_buffer) n) };
      wire = refl;
      buffered = sym (append-nil (content c.write_buffer));
    },
  )
  | inr w ↦
      let (h, e) = start_writing-idle c w in
      (
        record c { handler = h; writing = true },
        e,
        record {
          valid = record { buffer = v; busy = ground (arith, nonempty (content c.write_buffer) n) };
          wire = refl;
          buffered = sym (append-nil (content c.write_buffer));
        },
      )
]

told : TcpConnection → ℕ → Buffer → TcpConnection
told c remaining b = record (tell_high_water remaining c) { write_buffer = b }

told_lem :
    (c : TcpConnection) (n : ℕ) (b : Buffer)
    → ((told c n b).wire ≡ c.wire)
      × ((told c n b).write_buffer ≡ b)
      × ((told c n b).writing ≡ c.writing)
unfolding told
told_lem c n b = ground arith

keep_rest-append :
    (message : List ℕ) (n : ℕ) (c : TcpConnection) (b : Buffer)
    → n < length message
    → Buffer.append c.write_buffer (drop n message) ≡ some b
    → keep_rest message n c ≡ start_writing (told c (length message - n) b)
unfolding keep_rest told
keep_rest-append message n c b h e = rw (lt→ltb n (length message) h, e)

keep_rest-done :
    (message : List ℕ) (n : ℕ) (c : TcpConnection)
    → length message ≤ n
    → keep_rest message n c ≡ some c
unfolding keep_rest
keep_rest-done message n c h = ground arith

pub keep_rest-Kept :
    (message : List ℕ) (n : ℕ) (c : TcpConnection)
    → IsValid c
    → c.write_buffer.writer_index + length message ≤ vector_max_size
    → (d : TcpConnection) × (keep_rest message n c ≡ some d) × Kept c (drop n message) d
keep_rest-Kept message n c v fits = elim (dec_lt n (length message)) [
  | yes h ↦
      let (b, e, same, k, l) =
        content-append c.write_buffer (drop n message) v.buffer
          (omega (arith, length-drop n message)) in
      let t = told c (length message - n) b in
      let (w, u, r) = told_lem c (length message - n) b in
      let (d, f, g) = started t (subst Room.IsValid (sym u) k) (filled b same h u) in
      (
        d,
        keep_rest-append message n c b h e ∙ f,
        record {
          valid = g.valid;
          wire = g.wire ∙ w;
          buffered = g.buffered ∙ append-nil (content t.write_buffer) ∙ ap content u ∙ same;
        },
      )
  | no h ↦ (
    c,
    keep_rest-done message n c (omega arith),
    record {
      valid = v;
      wire = refl;
      buffered =
          sym (append-nil (content c.write_buffer))
          ∙ ap (λ l. content c.write_buffer ++ l) (sym (drop_all n message (omega arith)));
    },
  )
]
  where
    filled :
        (b : Buffer)
        → content b ≡ content c.write_buffer ++ drop n message
        → n < length message
        → (told c (length message - n) b).write_buffer ≡ b
        → content (told c (length message - n) b).write_buffer ≢ []
    filled b same h u e = omega (
      arith,
      ap length (sym (ap content u ∙ same) ∙ e),
      length-append (content c.write_buffer) (drop n message),
      length-drop n message,
    )
