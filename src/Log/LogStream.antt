-- ===== src/Log/LogStream.antt =====
-- src/log/LogStream.cpp and include/hohnor/log/LogStream.h: the fixed buffer and how integers are
-- written into it. A buffer is known by the bytes before its cursor.
pub mod Digits
pub mod Cursor
mod Examples
use hohnor.Prelude.{
  ℕ, zero, suc, ◌+◌, ◌-◌, ◌*◌, ◌/◌, ◌%◌, Bool, true, false, not, List, [], ◌∷◌, ◌++◌, Option, none,
  some, length, get_or, if◌then◌else◌, ◌==◌, ltb, leb, ◌>>=◌,
}
use hohnor.Prelude.Int.{ℤ, pos, negsuc, ltb_ℤ}

pub record FixedBuffer : Type 0 where
  pub size : ℕ
  pub bytes : List ℕ

abbrev pub small_buffer : ℕ
small_buffer = 4000

unfoldable pub create : FixedBuffer
create = record { size = small_buffer; bytes = [] }

unfoldable pub avail : FixedBuffer → ℕ
avail b = b.size - length b.bytes

-- Whether the bytes were taken, which are taken all or not at all.
unfoldable pub append : FixedBuffer → List ℕ → FixedBuffer × Bool
append b new =
    if ltb (length new) (avail b) then (record b { bytes = b.bytes ++ new }, true) else (b, false)

unfoldable pub reset : FixedBuffer → FixedBuffer
reset b = record b { bytes = [] }

-- "9876543210123456789"; `zero` points to its tenth character, so that a negative remainder finds its
-- digit to the left.
abbrev pub digits : List ℕ
digits =
    57 ∷ 56 ∷ 55 ∷ 54 ∷ 53 ∷ 52 ∷ 51 ∷ 50 ∷ 49 ∷ 48 ∷ 49 ∷ 50 ∷ 51 ∷ 52 ∷ 53 ∷ 54 ∷ 55 ∷ 56 ∷ 57
    ∷ []

abbrev pub zero_at : ℤ → ℕ
zero_at (pos n) = get_or digits (9 + n) 0
zero_at (negsuc n) = get_or digits (9 - suc n) 0

abbrev pub negated : ℕ → ℤ
negated zero = pos 0
negated (suc n) = negsuc n

-- `%` and `/` of C++ round towards zero.
abbrev pub rem_ten : ℤ → ℤ
rem_ten (pos n) = pos (n % 10)
rem_ten (negsuc n) = negated (suc n % 10)

abbrev pub div_ten : ℤ → ℤ
div_ten (pos n) = pos (n / 10)
div_ten (negsuc n) = negated (suc n / 10)

abbrev pub is_zero_ℤ : ℤ → Bool
is_zero_ℤ (pos n) = n == 0
is_zero_ℤ (negsuc n) = false

-- The loop of `convert`, the lowest digit first; none when the fuel is out.
unfoldable pub convert_loop : ℕ → ℤ → Option (List ℕ)
convert_loop zero i = none
convert_loop (suc fuel) i =
    let rest = convert_loop fuel (div_ten i) in
    if is_zero_ℤ (div_ten i)
    then some (zero_at (rem_ten i) ∷ [])
    else (rest >>= λ cs. some (zero_at (rem_ten i) ∷ cs))

unfoldable pub reverse : List ℕ → List ℕ
reverse [] = []
reverse (c ∷ cs) = reverse cs ++ c ∷ []

abbrev pub minus : ℕ
minus = 45

-- A number of 64 bits has no more than twenty digits.
abbrev pub convert_fuel : ℕ
convert_fuel = 20

unfoldable pub convert : ℤ → Option (List ℕ)
convert value = do
  cs ← convert_loop convert_fuel value
  some (reverse (if ltb_ℤ value (pos 0) then cs ++ minus ∷ [] else cs))

-- "0123456789ABCDEF"
abbrev pub digits_hex : List ℕ
digits_hex = 48 ∷ 49 ∷ 50 ∷ 51 ∷ 52 ∷ 53 ∷ 54 ∷ 55 ∷ 56 ∷ 57 ∷ 65 ∷ 66 ∷ 67 ∷ 68 ∷ 69 ∷ 70 ∷ []

unfoldable pub convert_hex_loop : ℕ → ℕ → Option (List ℕ)
convert_hex_loop zero i = none
convert_hex_loop (suc fuel) i =
    let rest = convert_hex_loop fuel (i / 16) in
    if i / 16 == 0
    then some (get_or digits_hex (i % 16) 0 ∷ [])
    else (rest >>= λ cs. some (get_or digits_hex (i % 16) 0 ∷ cs))

unfoldable pub convert_hex : ℕ → Option (List ℕ)
convert_hex value = do cs ← convert_hex_loop 16 value; some (reverse cs)

abbrev pub max_numeric_size : ℕ
max_numeric_size = 48

-- `operator<<` of the integers.
unfoldable pub format_integer : ℤ → FixedBuffer → Option FixedBuffer
format_integer v b =
    if leb max_numeric_size (avail b)
    then (convert v >>= λ cs. some (record b { bytes = b.bytes ++ cs }))
    else some b

-- `operator<<` of a pointer: "0x" and the hexadecimal digits.
unfoldable pub format_pointer : ℕ → FixedBuffer → Option FixedBuffer
format_pointer v b =
    if leb max_numeric_size (avail b)
    then (convert_hex v >>= λ cs. some (record b { bytes = b.bytes ++ 48 ∷ 120 ∷ cs }))
    else some b

-- `operator<<` of a Boolean, of a character and of a string, which may be null.
unfoldable pub format_bool : Bool → FixedBuffer → FixedBuffer
format_bool true b = (append b (116 ∷ 114 ∷ 117 ∷ 101 ∷ [])).0
format_bool false b = (append b (102 ∷ 97 ∷ 108 ∷ 115 ∷ 101 ∷ [])).0

unfoldable pub format_char : ℕ → FixedBuffer → FixedBuffer
format_char c b = (append b (c ∷ [])).0

unfoldable pub format_string : Option (List ℕ) → FixedBuffer → FixedBuffer
format_string none b = (append b (40 ∷ 110 ∷ 117 ∷ 108 ∷ 108 ∷ 41 ∷ [])).0
format_string (some s) b = (append b s).0
