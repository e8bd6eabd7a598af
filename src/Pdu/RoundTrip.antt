-- ===== src/Pdu/RoundTrip.antt =====
-- What the parser makes of the segments that the daemon itself creates.
use i_scsiinitiator.Base.{
  Str, ℕ, zero, suc, ◌≤◌, ◌<◌, ◌==◌, true, false, Option, some, List, [], ◌∷◌, ◌++◌, ◌≡◌, refl, sym,
  ap, ◌∙◌, append-nil, append_assoc, arith, lt→ltb, length, length-append, drop, All,
}
use i_scsiinitiator.Dict.{Dict, Distinct, add_values, add_value, add_values-nil}
use i_scsiinitiator.Platform.{Platform}
use i_scsiinitiator.Pdu.Parse.{
  equals_sign, Parser, parse_byte, parse_bytes, start, parse_common, to_dict_callback,
  parse_to_dict,
}
use i_scsiinitiator.Pdu.Create.{byte_size, text_command, populate, create_from_dict}

-- A text that the format can carry: no '=' and no NUL in it, and short enough for the buffers.
abbrev pub IsPlain : ℕ → Type 0
IsPlain b = ((b == equals_sign) ≡ false) × ((b == 0) ≡ false)

abbrev pub IsSendable : Str × Str → Type 0
IsSendable (key, value) =
    All IsPlain key × All IsPlain value × (length key < 100) × (length value < 100)

module _ {ℓ} {S : Type ℓ} (callback : Option Str → Str → S → S) where
  pub parse_bytes-append :
      (p : Parser S) (xs ys : List ℕ)
      → parse_bytes callback p (xs ++ ys) ≡ parse_bytes callback (parse_bytes callback p xs) ys
  unfolding parse_bytes
  parse_bytes-append p [] ys = refl
  parse_bytes-append p (x ∷ xs) ys = parse_bytes-append (parse_byte callback p x) xs ys

  -- Outside a pair one more byte changes nothing in what was found.
  pub out-parse_bytes-start :
      (after : ℕ) (out : S) → (parse_bytes callback (start callback out) (after ∷ [])).out ≡ out
  unfolding parse_bytes parse_byte
  out-parse_bytes-start after out = ground arith

  pub parse_common-eq :
      (segment : List ℕ) (after : ℕ) (out : S)
      → parse_common callback segment after out
        ≡ (parse_bytes callback (start callback out) (segment ++ after ∷ [])).out
  unfolding parse_common
  parse_common-eq [] after out = sym (out-parse_bytes-start after out)
  parse_common-eq (b ∷ segment) after out = refl

  pub parse_bytes-plain :
      (p : Parser S) (s : Str)
      → All IsPlain s
      → parse_bytes callback p s ≡ record p { token = p.token ++ s }
  unfolding parse_bytes parse_byte
  parse_bytes-plain p [] h = rw append-nil
  parse_bytes-plain p (b ∷ s) h =
      rw (h.0.0, h.0.1)
        (parse_bytes-plain (record p { token = p.token ++ b ∷ [] }) s h.1
          ∙ rw (append_assoc p.token (b ∷ []) s))

  -- One pair, terminator included, is one call of the callback.
  pub parse_bytes-pair :
      (out : S) (key value : Str) (rest : List ℕ)
      → All IsPlain key
      → All IsPlain value
      → parse_bytes callback
          (start callback out)
          ((key ++ (equals_sign ∷ (value ++ 0 ∷ []))) ++ rest)
        ≡ parse_bytes callback (start callback (callback (some key) value out)) rest
  parse_bytes-pair out key value rest hk hv =
      parse_bytes-append (start callback out) (key ++ (equals_sign ∷ (value ++ 0 ∷ []))) rest
      ∙ ap (λ q. parse_bytes callback q rest) whole
    where
      whole :
          parse_bytes callback (start callback out) (key ++ (equals_sign ∷ (value ++ 0 ∷ [])))
          ≡ start callback (callback (some key) value out)
      whole =
          parse_bytes-append (start callback out) key (equals_sign ∷ (value ++ 0 ∷ []))
          ∙ rw (parse_bytes-plain (start callback out) key hk) (
              unfold parse_bytes parse_byte in
              parse_bytes-append
                (record { token = []; key = some key; equal_found = true; out = out }) value
                (0 ∷ [])
              ∙ rw (
                  parse_bytes-plain
                    (record { token = []; key = some key; equal_found = true; out = out }) value
                    hv))

pub parse_bytes-populate :
    (d out : Dict Str) (rest : List ℕ)
    → All IsSendable d
    → parse_bytes to_dict_callback (start to_dict_callback out) (populate d ++ rest)
      ≡ parse_bytes to_dict_callback (start to_dict_callback (add_values out d)) rest
unfolding populate text_command add_values to_dict_callback
parse_bytes-populate [] out rest h = refl
parse_bytes-populate ((key, value) ∷ d) out rest ((hk, hv, lk, lv), h) =
    rw (lt→ltb (length key) 100 lk, lt→ltb (length value) 100 lv)
      (rw (append_assoc (key ++ (equals_sign ∷ (value ++ 0 ∷ []))) (populate d) rest) (
        parse_bytes-pair to_dict_callback out key value (populate d ++ rest) hk hv
        ∙ parse_bytes-populate d (add_value key value out) rest h))

-- The second pass never writes behind the block that was sized by the first.
pub length-populate-le : (d : Dict Str) → length (populate d) ≤ byte_size d
unfolding populate text_command byte_size
length-populate-le [] = omega arith
length-populate-le ((key, value) ∷ d) = ground (
  arith,
  length-populate-le d,
  length-append (key ++ (equals_sign ∷ (value ++ 0 ∷ []))) (populate d),
  length-append key (equals_sign ∷ (value ++ 0 ∷ [])),
  length-append value (0 ∷ []),
)

pub length-populate : (d : Dict Str) → All IsSendable d → length (populate d) ≡ byte_size d
unfolding populate text_command byte_size
length-populate [] h = omega arith
length-populate ((key, value) ∷ d) ((hk, hv, lk, lv), h) = ground (
  arith,
  length-populate d h,
  length-append (key ++ (equals_sign ∷ (value ++ 0 ∷ []))) (populate d),
  length-append key (equals_sign ∷ (value ++ 0 ∷ [])),
  length-append value (0 ∷ []),
)

drop_all {ℓ} : {A : Type ℓ} (n : ℕ) (xs : List A) → length xs ≡ n → drop n xs ≡ []
drop_all zero [] h = refl
drop_all zero (x ∷ xs) h = absurd (omega arith)
drop_all (suc n) [] h = refl
drop_all (suc n) (x ∷ xs) h = drop_all n xs (omega arith)

-- A segment of sendable pairs has no byte that was not written.
pub create_from_dict-sendable :
    (sys : Platform) (d : Dict Str) (block : List ℕ)
    → sys.malloc (byte_size d) ≡ some block
    → All IsSendable d
    → create_from_dict sys (some d) ≡ populate d
unfolding create_from_dict
create_from_dict-sendable sys d block got h =
    rw (got, create_from_dict)
      (rw
        (drop_all (length (populate d)) block
          (sys.length-malloc (byte_size d) block got ∙ sym (length-populate d h)))
        (append-nil (populate d)))

-- The daemon reads back every dictionary that it can send: if the allocation succeeds, the keys
-- differ and all texts are sendable, parsing the created segment gives the dictionary again,
-- whatever byte lies behind the segment.
pub parse_to_dict-create_from_dict :
    (sys : Platform) (d : Dict Str) (block : List ℕ) (after : ℕ)
    → sys.malloc (byte_size d) ≡ some block
    → Distinct d
    → All IsSendable d
    → parse_to_dict (create_from_dict sys (some d)) after (some []) ≡ some d
unfolding parse_to_dict
parse_to_dict-create_from_dict sys d block after got u h =
    rw (create_from_dict-sendable sys d block got h) (
      ap some (
        parse_common-eq to_dict_callback (populate d) after []
        ∙ ap (λ (p : Parser (Dict Str)). p.out) (parse_bytes-populate d [] (after ∷ []) h)
        ∙ out-parse_bytes-start to_dict_callback after (add_values [] d)
        ∙ add_values-nil d u))
