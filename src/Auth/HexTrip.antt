-- ===== src/Auth/HexTrip.antt =====
-- The hexadecimal conversions against each other.
use i_scsiinitiator.Base.{
  Str, ℕ, ◌+◌, ◌-◌, ◌*◌, ◌/◌, ◌%◌, ◌^◌, ◌<◌, ◌==◌, true, some, List, [], ◌∷◌, ◌++◌, ◌≡◌, refl, ap,
  arith, length, length-append, take, All,
}
use i_scsiinitiator.Auth.Hex.{
  digit_value, second_digit, with_low, after_first, scan2, pairs, prefix_length, written,
  data_with_hex_string, hex_char, hex_digits, hex_string_with_bytes,
}

abbrev pub IsByte : ℕ → Type 0
IsByte b = b < 2 ^ 8

digit_value-hex_char : (n : ℕ) → n < 16 → digit_value (hex_char n) ≡ some n
unfolding digit_value
digit_value-hex_char n h = ground arith

scan2-hex_char :
    (b : ℕ) (s : Str) (before : ℕ)
    → IsByte b
    → scan2 (hex_char (b / 16 % 16) ∷ hex_char (b % 16) ∷ s) before ≡ b
unfolding scan2 after_first second_digit with_low
scan2-hex_char b s before h =
    rw
      (
        digit_value-hex_char (b / 16 % 16) (omega arith),
        digit_value-hex_char (b % 16) (omega arith),
      )
      (omega arith)

length-hex_digits : (bytes : List ℕ) → length (hex_digits bytes) ≡ 2 * length bytes
length-hex_digits [] = refl
length-hex_digits (b ∷ bytes) = omega (arith, length-hex_digits bytes)

take-pairs-hex_digits :
    (bytes : List ℕ) (rest : Str) (before : ℕ)
    → All IsByte bytes
    → take (length bytes) (pairs (hex_digits bytes ++ rest) before) ≡ bytes
unfolding pairs
take-pairs-hex_digits [] rest before h = refl
take-pairs-hex_digits (b ∷ bytes) rest before (hb, h) =
    rw (scan2-hex_char b (hex_digits bytes ++ rest) before hb)
      (rw (take-pairs-hex_digits bytes rest b h) (ap (λ (x : ℕ). x ∷ bytes) (omega arith)))

length-pairs : (s : Str) (before : ℕ) → length (pairs s before) ≡ (length s + 1) / 2
unfolding pairs
length-pairs [] before = refl
length-pairs (c ∷ []) before = refl
length-pairs (c ∷ d ∷ s) before = omega (arith, length-pairs s (scan2 (c ∷ d ∷ s) before))

-- The buffer behind a written hexadecimal string has an even length.
buffer_even :
    (bytes : List ℕ) (behind : Str)
    → length behind ≡ 4
    → (length (48 ∷ 120 ∷ hex_digits bytes ++ behind) % 2 == 0) ≡ true
buffer_even bytes behind four =
    ground (arith, length-append (hex_digits bytes) behind, length-hex_digits bytes, four)

-- The bytes that a hexadecimal string was made from are read back from it, whatever the four bytes
-- behind the string are, although the loop reads and writes beyond both ends.
pub data_with_hex_string-hex_string_with_bytes :
    (bytes : List ℕ) (behind : Str)
    → All IsByte bytes
    → length behind ≡ 4
    → data_with_hex_string (hex_string_with_bytes bytes) behind ≡ bytes
unfolding data_with_hex_string written prefix_length hex_string_with_bytes
data_with_hex_string-hex_string_with_bytes bytes behind h four =
    rw (buffer_even bytes behind four, half) (take-pairs-hex_digits bytes behind 0 h)
  where
    half : (length (48 ∷ 120 ∷ hex_digits bytes) - 2 + 1) / 2 ≡ length bytes
    half = omega (arith, length-hex_digits bytes)

-- Reading a hexadecimal string back, the loop writes two bytes more than the data object holds, whatever
-- the four bytes behind the string are.
length-written :
    (bytes : List ℕ) (behind : Str)
    → length behind ≡ 4
    → length (written (hex_string_with_bytes bytes) behind) ≡ length bytes + 2
unfolding written prefix_length hex_string_with_bytes
length-written bytes behind four = rw (buffer_even bytes behind four) (
    omega (
      arith,
      length-pairs (hex_digits bytes ++ behind) 0,
      length-append (hex_digits bytes) behind,
      length-hex_digits bytes,
    ))
