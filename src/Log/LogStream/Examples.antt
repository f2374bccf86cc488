-- ===== src/Log/LogStream/Examples.antt =====
-- Tests of src/log/LogStream.cpp, and instances of its theorems.
use hohnor.Prelude.{ℕ, ◌≡◌, refl, List, [], ◌∷◌, some, arith}
use hohnor.Prelude.Int.{negsuc}
use hohnor.Log.LogStream.{
  FixedBuffer, convert, convert_loop, convert_hex, convert_hex_loop, reverse, format_integer,
}
use hohnor.Log.LogStream.Digits.{read_integer}
use hohnor.Log.LogStream.Cursor.{IsValid, offered, format_integer-IsValid}

abbrev short : FixedBuffer
short = record { size = 50; bytes = 58 ∷ [] }

minus_107 : convert (negsuc 106) ≡ some (45 ∷ 49 ∷ 48 ∷ 55 ∷ [])
unfolding convert convert_loop reverse
minus_107 = refl

hex_2af : convert_hex 687 ≡ some (50 ∷ 65 ∷ 70 ∷ [])
unfolding convert_hex convert_hex_loop reverse
hex_2af = refl

format_integer-IsValid_example :
    (cs : List ℕ) × (format_integer (negsuc 106) short ≡ some (offered short cs))
    × (read_integer cs ≡ some (negsuc 106))
    × IsValid (offered short cs)
format_integer-IsValid_example =
    format_integer-IsValid (negsuc 106) short (omega arith) (omega arith)
