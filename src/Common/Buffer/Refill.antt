-- ===== src/Common/Buffer/Refill.antt =====
-- src/net/Buffer.cpp (`readFd`) and `shrink` of include/hohnor/common/Buffer.h: operations built on
-- `append`.
use hohnor.Prelude.{
  ℕ, ◌+◌, ◌^◌, ◌%◌, lt→ltb, ◌≤◌, ◌<◌, ◌≡◌, refl, sym, ap, ap₂, ◌∙◌, Bool-cases, inl, inr, true,
  false, List, [], ◌++◌, length, take, drop, length-take, length-drop, length-replicate,
  take-append-drop, append_assoc, arith, some, leb, add64, subst,
}
use hohnor.Common.Buffer.{
  Buffer, cheap_prepend, initial_size, vector_max_size, copy_to, peeked, readable_bytes,
  writable_bytes, readable_slice, append, create, swap, shrink, received, offered, extra_size,
  read_fd,
}
use hohnor.Common.Buffer.Room.{
  IsValid, content, readable-eq-content, length-content, ensure_writable-HasRoom, copied,
  content-copied,
}
use hohnor.Common.Buffer.Content.{content-append}

module _ (b : Buffer) (new : List ℕ) (v : IsValid b) where
  -- The bytes fit the storage: only the writer moves.
  read_fd_fits :
      length new ≤ writable_bytes b
      → (read_fd b (received new) ≡ some (copied b new b.last_write_bytes))
        × (content (copied b new b.last_write_bytes) ≡ content b ++ new)
        × IsValid (copied b new b.last_write_bytes)
  unfolding read_fd
  read_fd_fits h =
      let (same, valid) = content-copied b new b.last_write_bytes v (omega arith) in
      (rw fits, same, valid)
    where
      fits : leb (length new) (writable_bytes b) ≡ true
      fits = ground arith

  filled : Buffer
  filled = record b {
    bytes = copy_to b.bytes b.writer_index (take (writable_bytes b) new);
    writer_index = length b.bytes;
  }

  read_fd_overflows :
      writable_bytes b < length new
      → read_fd b (received new) ≡ append filled (drop (writable_bytes b) new)
  unfolding read_fd filled
  read_fd_overflows h = rw over
    where
      over : leb (length new) (writable_bytes b) ≡ false
      over = ground arith

  filled_lem :
      writable_bytes b < length new
      → (content filled ≡ content b ++ take (writable_bytes b) new) × IsValid filled
  unfolding filled
  filled_lem h =
      let p =
        content-copied b (take (writable_bytes b) new) b.last_write_bytes v
          (omega (arith, length-take (writable_bytes b) new)) in
      subst (λ w. (content (at w) ≡ content b ++ take (writable_bytes b) new) × IsValid (at w)) full
        p
    where
      at : ℕ → Buffer
      at w = record b {
        bytes = copy_to b.bytes b.writer_index (take (writable_bytes b) new);
        writer_index = w;
      }

      full : add64 b.writer_index (length (take (writable_bytes b) new)) ≡ length b.bytes
      full = omega (arith, length-take (writable_bytes b) new)

  overflowed :
      writable_bytes b < length new
      → length new ≤ writable_bytes b + extra_size
      → length b.bytes + extra_size ≤ vector_max_size
      → (c : Buffer) × (read_fd b (received new) ≡ some c)
        × (content c ≡ content b ++ new)
        × IsValid c
  unfolding filled
  overflowed h offer fits =
      let (same, valid) = filled_lem h in
      let (c, e, grown, k, l) =
        content-append filled (drop (writable_bytes b) new) valid
          (omega (arith, length-drop (writable_bytes b) new)) in
      (
        c,
        read_fd_overflows h ∙ e,
        grown
            ∙ ap (λ l. l ++ drop (writable_bytes b) new) same
            ∙ append_assoc (content b) (take (writable_bytes b) new) (drop (writable_bytes b) new)
            ∙ ap (◌++◌ (content b)) (take-append-drop (writable_bytes b) new),
        k,
      )

-- `readFd` puts all that `readv` delivered behind the content, through the storage's free end or the
-- extra block; its assertions hold while the storage may still grow by the extra block.
pub content-read_fd :
    (b : Buffer) (new : List ℕ)
    → IsValid b
    → length new ≤ offered b
    → length b.bytes + extra_size ≤ vector_max_size
    → (c : Buffer) × (read_fd b (received new) ≡ some c)
      × (content c ≡ content b ++ new)
      × IsValid c
content-read_fd b new v offer fits = elim (Bool-cases (leb (length new) (writable_bytes b))) [
  | inl t ↦
      let (e, same, k) = read_fd_fits b new v (ground arith) in
      (copied b new b.last_write_bytes, e, same, k)
  | inr f ↦ overflowed b new v (ground arith) (ground arith) fits
]

-- A read that fits the storage is not recorded in `lastWriteBytes_`.
pub last_write_bytes-read_fd :
    (b : Buffer) (new : List ℕ) {c : Buffer}
    → IsValid b
    → length new ≤ writable_bytes b
    → read_fd b (received new) ≡ some c
    → c.last_write_bytes ≡ b.last_write_bytes
last_write_bytes-read_fd b new {c} v h e = same_last (sym (read_fd_fits b new v h).0 ∙ e)
  where
    same_last :
        some (copied b new b.last_write_bytes) ≡ some c → c.last_write_bytes ≡ b.last_write_bytes
    same_last e = ground arith

create-IsValid : (n : ℕ) → n + cheap_prepend ≤ vector_max_size → IsValid (create n)
unfolding create
create-IsValid n h = omega (arith, length-replicate {A = ℕ} (cheap_prepend + n) 0)

content-create : (n : ℕ) → content (create n) ≡ []
unfolding create
content-create n = refl

-- An `int` holds the length.
readable_slice-peeked :
    (b : Buffer) → readable_bytes b < 2 ^ 31 → readable_slice b ≡ some (peeked b)
unfolding readable_slice
readable_slice-peeked b few = rw (small, lt→ltb _ _ few) refl
  where
    small : readable_bytes b % 2 ^ 32 ≡ readable_bytes b
    small = omega (arith, few)

-- `shrink` keeps the content, in a fresh storage of which `reserve` bytes are spare.
pub content-shrink :
    (b : Buffer) (reserve : ℕ)
    → IsValid b
    → length b.bytes + reserve + cheap_prepend ≤ vector_max_size
    → readable_bytes b < 2 ^ 31
    → (c : Buffer) × (shrink b reserve ≡ some c) × (content c ≡ content b) × IsValid c
unfolding shrink swap
content-shrink b reserve v fits few =
    let (other, e, r) =
      ensure_writable-HasRoom (create initial_size) (add64 (readable_bytes b) reserve)
        (create-IsValid initial_size (omega arith)) (writer fits) in
    let (full, h, same, k, l) =
      content-append other (peeked b) r.valid (omega (arith, r.room, r.valid.small, count)) in
    rw (e, shrink, readable_slice-peeked b few, h)
      (
        record full { last_write_bytes = b.last_write_bytes },
        refl,
        same ∙ ap₂ ◌++◌ (r.same ∙ content-create initial_size) (readable-eq-content b v),
        record {
          ordered = k.ordered;
          inside = k.inside;
          prepend_in = k.prepend_in;
          small = k.small;
        },
      )
  where
    count : length (peeked b) ≡ readable_bytes b
    count = ap length (readable-eq-content b v) ∙ length-content b v

    writer :
        length b.bytes + reserve + cheap_prepend ≤ vector_max_size
        → (create initial_size).writer_index + add64 (readable_bytes b) reserve ≤ vector_max_size
    writer fits = unfold create in omega arith
