-- ===== src/Log/LogStream/Cursor.antt =====
-- include/hohnor/log/LogStream.h: the cursor never leaves the buffer.
use hohnor.Prelude.{
  ℕ, ◌+◌, ◌-◌, ◌≤◌, ◌<◌, ◌≡◌, refl, true, Bool-cases, inl, inr, List, ◌++◌, some, length,
  length-append, arith, ltb, leb, if◌then◌else◌,
}
use hohnor.Prelude.Int.{ℤ}
use hohnor.Log.LogStream.{
  FixedBuffer, append, avail, convert, convert_fuel, format_integer, max_numeric_size,
}
use hohnor.Log.LogStream.Digits.{magnitude, limit, read_integer, read_integer-convert}

-- The cursor is in the buffer, with a byte to spare for the terminating zero.
abbrev pub IsValid : FixedBuffer → Type 0
IsValid b = length b.bytes < b.size

-- On a valid buffer `append` takes all of the bytes, behind those that are there, or none, and says
-- which; it takes them exactly when one byte more would fit, and the cursor stays inside.
append-IsValid :
    (b : FixedBuffer) (new : List ℕ)
    → IsValid b
    → IsValid (append b new).0
      × ((append b new).0.bytes ≡ (if (append b new).1 then b.bytes ++ new else b.bytes))
      × ((append b new).1 ≡ ltb (length b.bytes + length new) b.size)
unfolding append avail
append-IsValid b new v = elim (Bool-cases (ltb (length new) (b.size - length b.bytes))) [
  | inl t ↦ rw t (omega (arith, length-append b.bytes new, fits t), refl, ground (arith, t))
  | inr f ↦ rw f (v, refl, ground (arith, f))
]
  where
    fits : ltb (length new) (b.size - length b.bytes) ≡ true → length new < b.size - length b.bytes
    fits t = ground arith

-- The buffer that an integer's text was offered to.
abbrev pub offered : FixedBuffer → List ℕ → FixedBuffer
offered b cs = record b {
  bytes = (if leb max_numeric_size (avail b) then b.bytes ++ cs else b.bytes);
}

-- An integer of at most twenty digits is written behind what is in a valid buffer, as a text of digits, one at
-- least and after a minus if it is below zero, that is read back as the integer, if 48 bytes are free, and is left
-- out otherwise; the cursor stays inside.
pub format_integer-IsValid :
    (v : ℤ) (b : FixedBuffer)
    → IsValid b
    → magnitude v < limit convert_fuel
    → (cs : List ℕ) × (format_integer v b ≡ some (offered b cs))
      × (read_integer cs ≡ some v)
      × IsValid (offered b cs)
format_integer-IsValid v b w h =
    let (cs, e, r, n) = read_integer-convert v h in (cs, written cs e, r, inside cs n)
  where
    written : (cs : List ℕ) → convert v ≡ some cs → format_integer v b ≡ some (offered b cs)
    written cs e = elim (Bool-cases (leb max_numeric_size (avail b))) [
      | inl t ↦ unfold format_integer in rw (t, e) refl
      | inr f ↦ unfold format_integer in rw f refl
    ]

    inside : (cs : List ℕ) → length cs ≤ 21 → IsValid (offered b cs)
    inside cs n = elim (Bool-cases (leb max_numeric_size (avail b))) [
      | inl t ↦ rw t (unfold avail in ground (arith, length-append b.bytes cs))
      | inr f ↦ rw f w
    ]
