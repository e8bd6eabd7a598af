-- ===== src/Pdu/Create.antt =====
-- iSCSIPDUDataCreateFromDict and its two passes over the dictionary: the size, then the bytes.
use i_scsiinitiator.Base.{
  Str, ℕ, ◌+◌, ltb, ◌&&◌, Option, none, some, List, [], ◌∷◌, ◌++◌, length, drop, if◌then◌else◌,
}
use i_scsiinitiator.Dict.{Dict}
use i_scsiinitiator.Platform.{Platform}
use i_scsiinitiator.Pdu.Parse.{equals_sign}

-- MAX_KEY_SIZE and MAX_VAL_SIZE: the C string buffers, terminator included.
abbrev pub max_key_size : ℕ
max_key_size = 100

abbrev pub max_val_size : ℕ
max_val_size = 100

-- iSCSIPDUCalculateTextCommandByteSize over the dictionary
unfoldable pub byte_size : Dict Str → ℕ
byte_size [] = 0
byte_size ((key, value) ∷ d) = length key + length value + 2 + byte_size d

-- iSCSIPDUPopulateWithTextCommand: CFStringGetCString fails where the string and its terminator do
-- not fit the buffer, and then the pair is skipped.
unfoldable pub text_command : Str → Str → List ℕ
text_command key value =
    if ltb (length key) max_key_size && ltb (length value) max_val_size
    then key ++ (equals_sign ∷ (value ++ 0 ∷ []))
    else []

-- The bytes that the second pass writes from the start of the block.
unfoldable pub populate : Dict Str → List ℕ
unfolding text_command
populate [] = []
populate ((key, value) ∷ d) = text_command key value ++ populate d

-- What is not written keeps the bytes that `malloc` gave. A NULL dictionary makes no segment.
unfoldable pub create_from_dict : Platform → Option (Dict Str) → List ℕ
unfolding byte_size populate
create_from_dict sys none = []
create_from_dict sys (some d) = elim (sys.malloc (byte_size d)) [
  | none ↦ []
  | some block ↦ populate d ++ drop (length (populate d)) block
]
