-- ===== src/Auth/Hex.antt =====
-- CFDataCreateWithHexString, CreateHexStringWithBytes and the CHAP response.
use i_scsiinitiator.Base.{
  Str, ℕ, ◌+◌, ◌-◌, ◌*◌, ◌/◌, ◌%◌, ◌^◌, ◌==◌, ◌&&◌, Option, none, some, List, [], ◌∷◌, ◌++◌,
  if◌then◌else◌, ltb, leb, length, take, drop,
}
use i_scsiinitiator.Platform.{Platform}

-- A hexadecimal digit, as the conversions of sscanf read it.
unfoldable pub digit_value : ℕ → Option ℕ
digit_value c =
    if leb 48 c && leb c 57
    then some (c - 48)
    else if leb 97 c && leb c 102
    then some (c - 87)
    else if leb 65 c && leb c 70
    then some (c - 55)
    else none

-- The second digit of "%02x", where there is one.
unfoldable pub with_low : ℕ → Option ℕ → ℕ
with_low high none = high
with_low high (some low) = high * 16 + low

unfoldable pub second_digit : ℕ → Str → ℕ
second_digit high [] = high
second_digit high (c ∷ s) = with_low high (digit_value c)

-- The variable keeps its value where no digit is found.
unfoldable pub after_first : Option ℕ → ℕ → Str → ℕ
after_first none before s = before
after_first (some high) before s = second_digit high s

-- sscanf with "%01x" and "%02x", on a variable that holds `before`.
unfoldable pub scan1 : Str → ℕ → ℕ
scan1 [] before = before
scan1 (c ∷ s) before = after_first (digit_value c) before []

unfoldable pub scan2 : Str → ℕ → ℕ
scan2 [] before = before
scan2 (c ∷ s) before = after_first (digit_value c) before s

-- The loop over pairs, as far as the buffer's end: the bytes that it writes.
unfoldable pub pairs : Str → ℕ → List ℕ
pairs [] before = []
pairs (c ∷ []) before = scan2 (c ∷ []) before % 2 ^ 8 ∷ []
pairs (c ∷ d ∷ s) before =
    let rest = pairs s (scan2 (c ∷ d ∷ s) before) in scan2 (c ∷ d ∷ s) before % 2 ^ 8 ∷ rest

-- The characters of the prefix: "0x", "x" or none.
unfoldable pub prefix_length : Str → ℕ
prefix_length [] = 0
prefix_length (c ∷ []) = if c == 120 then 1 else 0
prefix_length (c ∷ d ∷ s) = if c == 48 && d == 120 then 2 else if c == 120 then 1 else 0

-- Every byte that the function writes. The buffer is sizeof('\0'), 4 bytes in C, longer than the
-- string; `behind` is what it holds there, a zero and then what was on the stack. Whether there is a
-- digit before the pairs depends on the length of the whole buffer.
unfoldable pub written : Str → Str → List ℕ
written s behind =
    let buffer = s ++ behind in
    let digits = drop (prefix_length s) buffer in
    if length buffer % 2 == 0
    then pairs digits 0
    else scan1 digits 0 % 2 ^ 8 ∷ pairs (drop 1 digits) (scan1 digits 0)

-- CFDataCreateWithHexString: the object's length is half of the digits' number, rounded up, and what
-- is written behind that is no part of it.
unfoldable pub data_with_hex_string : Str → Str → List ℕ
data_with_hex_string s behind = take ((length s - prefix_length s + 1) / 2) (written s behind)

abbrev pub hex_char : ℕ → ℕ
hex_char n = if ltb n 10 then n + 48 else n + 87

abbrev pub hex_digits : List ℕ → Str
hex_digits [] = []
hex_digits (b ∷ bytes) = hex_char (b / 16 % 16) ∷ hex_char (b % 16) ∷ hex_digits bytes

-- CreateHexStringWithBytes
unfoldable pub hex_string_with_bytes : List ℕ → Str
hex_string_with_bytes bytes = 48 ∷ 120 ∷ hex_digits bytes

-- iSCSIAuthNegotiateCHAPCreateResponse
unfoldable pub create_response : Platform → Str → Str → Str → Str → Str
create_response sys behind identifier secret challenge =
    hex_string_with_bytes (
      sys.md5
        ((sys.int_value identifier % 2 ^ 8 ∷ secret) ++ data_with_hex_string challenge behind))

-- iSCSIAuthNegotiateCHAPCreateChallenge and ...CreateId, from the bytes of /dev/random
abbrev pub create_challenge : List ℕ → Str
create_challenge random = hex_string_with_bytes (take 16 random)

abbrev pub create_id : Platform → ℕ → Str
create_id sys random = sys.format_u (random % 2 ^ 8)
