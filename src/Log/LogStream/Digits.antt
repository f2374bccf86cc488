-- ===== src/Log/LogStream/Digits.antt =====
-- src/log/LogStream.cpp, `convert`: the digits of an integer are read back as the integer.
use hohnor.Prelude.{
  ℕ, zero, suc, ◌+◌, ◌-◌, ◌*◌, ◌/◌, ◌%◌, ◌≤◌, ◌<◌, ◌≡◌, refl, ap, ◌∙◌, Bool, true, false, ◌&&◌,
  Bool-cases, inl, inr, List, [], ◌∷◌, ◌++◌, Option, none, some, ◌>>=◌, length, length-append,
  arith, ◌==◌, ltb, leb, if◌then◌else◌, get_or,
}
use hohnor.Prelude.Int.{ℤ, pos, negsuc}
use hohnor.Log.LogStream.{
  digits, zero_at, negated, rem_ten, div_ten, is_zero_ℤ, convert_loop, reverse, minus, convert_fuel,
  convert,
}

abbrev pub magnitude : ℤ → ℕ
magnitude (pos n) = n
magnitude (negsuc n) = suc n

-- The numbers of at most `n` digits are below it.
abbrev pub limit : ℕ → ℕ
limit zero = 1
limit (suc n) = 10 * limit n

-- The reading of a number's text, which stands alone: digits, one at least and the highest first, after a minus
-- if it is below zero. None is for any other text.
abbrev pub is_digit : ℕ → Bool
is_digit c = leb 48 c && leb c 57

abbrev pub read_digits : ℕ → List ℕ → Option ℕ
read_digits n [] = some n
read_digits n (c ∷ cs) =
    let rest = read_digits (10 * n + (c - 48)) cs in if is_digit c then rest else none

abbrev pub read_natural : List ℕ → Option ℕ
read_natural [] = none
read_natural (c ∷ cs) = read_digits 0 (c ∷ cs)

abbrev pub read_integer : List ℕ → Option ℤ
read_integer [] = none
read_integer (c ∷ cs) =
    if c == minus
    then (read_natural cs >>= λ n. some (negated n))
    else (read_natural (c ∷ cs) >>= λ n. some (pos n))

-- The digits as `convert_loop` has them, the lowest first.
abbrev low_value : List ℕ → ℕ
low_value [] = 0
low_value (c ∷ cs) = (c - 48) + 10 * low_value cs

abbrev pub are_digits : List ℕ → Bool
are_digits [] = true
are_digits (c ∷ cs) = is_digit c && are_digits cs

negated-magnitude : (n : ℕ) → magnitude (negated n) ≡ n
negated-magnitude zero = refl
negated-magnitude (suc n) = refl

right_of_zero : (r : ℕ) → r < 10 → get_or digits (9 + r) 0 ≡ 48 + r
right_of_zero zero h = refl
right_of_zero (suc zero) h = refl
right_of_zero (suc (suc zero)) h = refl
right_of_zero (suc (suc (suc zero))) h = refl
right_of_zero (suc (suc (suc (suc zero)))) h = refl
right_of_zero (suc (suc (suc (suc (suc zero))))) h = refl
right_of_zero (suc (suc (suc (suc (suc (suc zero)))))) h = refl
right_of_zero (suc (suc (suc (suc (suc (suc (suc zero))))))) h = refl
right_of_zero (suc (suc (suc (suc (suc (suc (suc (suc zero)))))))) h = refl
right_of_zero (suc (suc (suc (suc (suc (suc (suc (suc (suc zero))))))))) h = refl
right_of_zero (suc (suc (suc (suc (suc (suc (suc (suc (suc (suc r)))))))))) h = omega arith

left_of_zero : (r : ℕ) → r < 10 → zero_at (negated r) ≡ 48 + r
left_of_zero zero h = refl
left_of_zero (suc zero) h = refl
left_of_zero (suc (suc zero)) h = refl
left_of_zero (suc (suc (suc zero))) h = refl
left_of_zero (suc (suc (suc (suc zero)))) h = refl
left_of_zero (suc (suc (suc (suc (suc zero))))) h = refl
left_of_zero (suc (suc (suc (suc (suc (suc zero)))))) h = refl
left_of_zero (suc (suc (suc (suc (suc (suc (suc zero))))))) h = refl
left_of_zero (suc (suc (suc (suc (suc (suc (suc (suc zero)))))))) h = refl
left_of_zero (suc (suc (suc (suc (suc (suc (suc (suc (suc zero))))))))) h = refl
left_of_zero (suc (suc (suc (suc (suc (suc (suc (suc (suc (suc r)))))))))) h = omega arith

zero_at-rem_ten : (i : ℤ) → zero_at (rem_ten i) ≡ 48 + magnitude i % 10
zero_at-rem_ten (pos n) = right_of_zero (n % 10) (omega arith)
zero_at-rem_ten (negsuc n) = left_of_zero (suc n % 10) (omega arith)

magnitude-div_ten : (i : ℤ) → magnitude (div_ten i) ≡ magnitude i / 10
magnitude-div_ten (pos n) = refl
magnitude-div_ten (negsuc n) = negated-magnitude (suc n / 10)

is_zero_lem : (i : ℤ) → is_zero_ℤ i ≡ (magnitude i == 0)
is_zero_lem (pos n) = refl
is_zero_lem (negsuc n) = ground arith

-- What the loop gives with fuel for `fuel` digits.
record Converts (fuel : ℕ) (i : ℤ) (cs : List ℕ) : Type 0 where
  result : convert_loop fuel i ≡ some cs
  value : low_value cs ≡ magnitude i
  chars : are_digits cs ≡ true
  count : length cs ≤ fuel
  some_char : 1 ≤ length cs

convert_loop-last :
    (fuel : ℕ) (i : ℤ)
    → is_zero_ℤ (div_ten i) ≡ true
    → convert_loop (suc fuel) i ≡ some (zero_at (rem_ten i) ∷ [])
unfolding convert_loop
convert_loop-last fuel i z = rw z refl

convert_loop-more :
    (fuel : ℕ) (i : ℤ) (cs : List ℕ)
    → is_zero_ℤ (div_ten i) ≡ false
    → convert_loop fuel (div_ten i) ≡ some cs
    → convert_loop (suc fuel) i ≡ some (zero_at (rem_ten i) ∷ cs)
unfolding convert_loop
convert_loop-more fuel i cs z e = rw (z, e) refl

last-Converts :
    (fuel : ℕ) (i : ℤ)
    → is_zero_ℤ (div_ten i) ≡ true
    → Converts (suc fuel) i (zero_at (rem_ten i) ∷ [])
last-Converts fuel i t = record {
  result = convert_loop-last fuel i t;
  value = omega (arith, zero_at-rem_ten i, small);
  chars = ground (arith, zero_at-rem_ten i);
  count = omega arith;
  some_char = omega arith;
}
  where
    small : magnitude i / 10 ≡ 0
    small = ground (arith, is_zero_lem (div_ten i), magnitude-div_ten i)

more-Converts :
    (fuel : ℕ) (i : ℤ) (cs : List ℕ)
    → is_zero_ℤ (div_ten i) ≡ false
    → Converts fuel (div_ten i) cs
    → Converts (suc fuel) i (zero_at (rem_ten i) ∷ cs)
more-Converts fuel i cs f c = record {
  result = convert_loop-more fuel i cs f c.result;
  value = omega (arith, zero_at-rem_ten i, c.value, magnitude-div_ten i);
  chars = let d = c.chars in ground (arith, zero_at-rem_ten i);
  count = omega (arith, c.count);
  some_char = omega arith;
}

convert_loop-Converts :
    (fuel : ℕ) (i : ℤ) → magnitude i < limit (suc fuel) → (cs : List ℕ) × Converts (suc fuel) i cs
convert_loop-Converts zero i h = (
  zero_at (rem_ten i) ∷ [],
  last-Converts 0 i (ground (arith, is_zero_lem (div_ten i), magnitude-div_ten i, h)),
)
convert_loop-Converts (suc fuel) i h = elim (Bool-cases (is_zero_ℤ (div_ten i))) [
  | inl t ↦ (zero_at (rem_ten i) ∷ [], last-Converts (suc fuel) i t)
  | inr f ↦
      let (cs, c) =
        convert_loop-Converts fuel (div_ten i) (omega (arith, magnitude-div_ten i, h)) in
      (zero_at (rem_ten i) ∷ cs, more-Converts (suc fuel) i cs f c)
]

-- Reversed, the digits are read as they were written.
abbrev value_of : ℕ → List ℕ → ℕ
value_of n [] = n
value_of n (c ∷ cs) = value_of (10 * n + (c - 48)) cs

value_of-append :
    (n : ℕ) (xs : List ℕ) (c : ℕ) → value_of n (xs ++ c ∷ []) ≡ 10 * value_of n xs + (c - 48)
value_of-append n [] c = refl
value_of-append n (x ∷ xs) c = value_of-append (10 * n + (x - 48)) xs c

value_of-reverse : (cs : List ℕ) → value_of 0 (reverse cs) ≡ low_value cs
unfolding reverse
value_of-reverse [] = refl
value_of-reverse (c ∷ cs) = value_of-append 0 (reverse cs) c ∙ omega (arith, value_of-reverse cs)

are_digits-cons :
    (c : ℕ) (cs : List ℕ)
    → are_digits (c ∷ cs) ≡ true
    → (is_digit c ≡ true) × (are_digits cs ≡ true)
are_digits-cons c cs h = by_test (is_digit c) (are_digits cs) h
  where
    by_test : (d r : Bool) → d && r ≡ true → (d ≡ true) × (r ≡ true)
    by_test true r h = (refl, h)
    by_test false r h = cc

read_digits-value :
    (n : ℕ) (cs : List ℕ) → are_digits cs ≡ true → read_digits n cs ≡ some (value_of n cs)
read_digits-value n [] h = refl
read_digits-value n (c ∷ cs) h =
    let (d, r) = are_digits-cons c cs h in rw d (read_digits-value (10 * n + (c - 48)) cs r)

reverse-append : (xs : List ℕ) (c : ℕ) → reverse (xs ++ c ∷ []) ≡ c ∷ reverse xs
unfolding reverse
reverse-append [] c = refl
reverse-append (x ∷ xs) c = ap (λ l. l ++ x ∷ []) (reverse-append xs c)

are_digits-append :
    (xs : List ℕ) (c : ℕ) → are_digits (xs ++ c ∷ []) ≡ (are_digits xs && (leb 48 c && leb c 57))
are_digits-append [] c = ground arith
are_digits-append (x ∷ xs) c = ground (arith, are_digits-append xs c)

are_digits-reverse : (cs : List ℕ) → are_digits (reverse cs) ≡ are_digits cs
unfolding reverse
are_digits-reverse [] = refl
are_digits-reverse (c ∷ cs) =
    are_digits-append (reverse cs) c ∙ ground (arith, are_digits-reverse cs)

length-reverse : (cs : List ℕ) → length (reverse cs) ≡ length cs
unfolding reverse
length-reverse [] = refl
length-reverse (c ∷ cs) = omega (arith, length-append (reverse cs) (c ∷ []), length-reverse cs)

read_natural-digits :
    (cs : List ℕ) → 1 ≤ length cs → are_digits cs ≡ true → read_natural cs ≡ some (value_of 0 cs)
read_natural-digits [] h e = absurd (omega (arith, h))
read_natural-digits (c ∷ cs) h e = read_digits-value 0 (c ∷ cs) e

read_integer-digits :
    (cs : List ℕ)
    → 1 ≤ length cs
    → are_digits cs ≡ true
    → read_integer cs ≡ some (pos (value_of 0 cs))
read_integer-digits [] h e = absurd (omega (arith, h))
read_integer-digits (c ∷ cs) h e =
    let (d, _) = are_digits-cons c cs e in
    let other : (c == minus) ≡ false = ground (arith, d) in
    rw (other, read_natural-digits (c ∷ cs) h e) refl

read_integer-minus :
    (cs : List ℕ)
    → 1 ≤ length cs
    → are_digits cs ≡ true
    → read_integer (minus ∷ cs) ≡ some (negated (value_of 0 cs))
read_integer-minus cs h e = rw (read_natural-digits cs h e) refl

convert-pos :
    (n : ℕ) (cs : List ℕ)
    → convert_loop convert_fuel (pos n) ≡ some cs
    → convert (pos n) ≡ some (reverse cs)
unfolding convert
convert-pos n cs e = let f : ltb (n + 0) 0 ≡ false = ground arith in rw (e, f) refl

convert-negsuc :
    (n : ℕ) (cs : List ℕ)
    → convert_loop convert_fuel (negsuc n) ≡ some cs
    → convert (negsuc n) ≡ some (reverse (cs ++ minus ∷ []))
unfolding convert
convert-negsuc n cs e = let t : ltb 0 (0 + suc n) ≡ true = ground arith in rw (e, t) refl

-- On an integer of at most twenty digits, so on those of 64 bits, signed or not, `convert` ends with the
-- fuel given, its text is read back as the integer, and it has no more than 21 characters.
pub read_integer-convert :
    (v : ℤ)
    → magnitude v < limit convert_fuel
    → (cs : List ℕ) × (convert v ≡ some cs) × (read_integer cs ≡ some v) × (length cs ≤ 21)
read_integer-convert (pos n) h =
    let (cs, c) = convert_loop-Converts 19 (pos n) h in
    (
      reverse cs,
      convert-pos n cs c.result,
      read_integer-digits (reverse cs) (omega (arith, length-reverse cs, c.some_char))
            (are_digits-reverse cs ∙ c.chars)
          ∙ ap (λ n. some (pos n)) (value_of-reverse cs ∙ c.value),
      omega (arith, length-reverse cs, c.count),
    )
read_integer-convert (negsuc n) h =
    let (cs, c) = convert_loop-Converts 19 (negsuc n) h in
    (
      minus ∷ reverse cs,
      convert-negsuc n cs c.result ∙ ap some (reverse-append cs minus),
      read_integer-minus (reverse cs) (omega (arith, length-reverse cs, c.some_char))
            (are_digits-reverse cs ∙ c.chars)
          ∙ ap (λ n. some (negated n)) (value_of-reverse cs ∙ c.value),
      omega (arith, length-reverse cs, c.count),
    )
