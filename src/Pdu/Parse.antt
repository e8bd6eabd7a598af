-- ===== src/Pdu/Parse.antt =====
-- iSCSIPDUDataParseCommon and its callbacks: a data segment of key=value pairs, each ended by NUL.
use i_scsiinitiator.Base.{
  Str, ℕ, ◌==◌, Bool, true, false, ◌&&◌, Option, none, some, List, [], ◌∷◌, ◌++◌, if◌then◌else◌,
}
use i_scsiinitiator.Dict.{Dict, add_value}

abbrev pub equals_sign : ℕ
equals_sign = 0x3d

-- The locals of the loop. `token` holds the bytes from tokenStartByte up to currentByte.
pub record Parser {ℓ} (S : Type ℓ) : Type ℓ where
  pub token : Str
  pub key : Option Str
  pub equal_found : Bool
  pub out : S

module _ {ℓ} {S : Type ℓ} (callback : Option Str → Str → S → S) where
  -- One round of the loop, at the byte that currentByte points to.
  unfoldable pub parse_byte : Parser S → ℕ → Parser S
  parse_byte p byte =
      if byte == equals_sign
      then record p { token = []; key = some p.token; equal_found = true }
      else if byte == 0 && p.equal_found
      then record p {
        token = [];
        key = none;
        equal_found = false;
        out = callback p.key p.token p.out;
      }
      else record p { token = p.token ++ byte ∷ [] }

  unfoldable pub parse_bytes : Parser S → List ℕ → Parser S
  unfolding parse_byte
  parse_bytes p [] = p
  parse_bytes p (b ∷ bytes) = parse_bytes (parse_byte p b) bytes

  abbrev pub start : S → Parser S
  start out = record { token = []; key = none; equal_found = false; out = out }

  -- The loop runs while currentByte <= lastByte, so it also reads `after`, the byte behind the
  -- segment. A missing or empty segment is left alone.
  unfoldable pub parse_common : List ℕ → ℕ → S → S
  unfolding parse_bytes
  parse_common [] after out = out
  parse_common (b ∷ segment) after out = (parse_bytes (start out) (b ∷ segment ++ after ∷ [])).out

-- CFDictionaryAddValue; the loop never hands over a missing key.
unfoldable pub to_dict_callback : Option Str → Str → Dict Str → Dict Str
to_dict_callback none val d = d
to_dict_callback (some key) val d = add_value key val d

-- A NULL dictionary stays NULL.
unfoldable pub parse_to_dict : List ℕ → ℕ → Option (Dict Str) → Option (Dict Str)
unfolding parse_common to_dict_callback
parse_to_dict segment after none = none
parse_to_dict segment after (some d) = some (parse_common to_dict_callback segment after d)
