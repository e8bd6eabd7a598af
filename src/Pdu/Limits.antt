-- ===== src/Pdu/Limits.antt =====
-- Where the text format or the buffers give out: sizes, padding, '=' inside a value, long texts.
use i_scsiinitiator.Base.{
  Str, ℕ, zero, suc, ◌+◌, ◌≤◌, true, false, Option, none, some, List, [], ◌∷◌, ◌++◌, ◌≡◌, refl, ap,
  ◌∙◌, append_assoc, arith, length, length-append, drop, length-drop, replicate, All, ◌⊎◌, inl, inr,
}
use i_scsiinitiator.Dict.{Dict, Distinct, add_values, add_values-nil}
use i_scsiinitiator.Platform.{Platform}
use i_scsiinitiator.Pdu.Parse.{
  equals_sign, Parser, parse_byte, parse_bytes, start, parse_common, to_dict_callback,
  parse_to_dict,
}
use i_scsiinitiator.Pdu.Create.{byte_size, text_command, populate, create_from_dict}
use i_scsiinitiator.Pdu.RoundTrip.{
  IsPlain, IsSendable, parse_bytes-append, parse_bytes-plain, parse_bytes-populate, parse_common-eq,
  out-parse_bytes-start, length-populate-le,
}

module _ {ℓ} {S : Type ℓ} (callback : Option Str → Str → S → S) where
  out-parse_bytes-padding :
      (n after : ℕ) (token : Str) (key : Option Str) (out : S)
      → (parse_bytes callback
          (record { token = token; key = key; equal_found = false; out = out })
          (replicate n 0 ++ after ∷ [])).out
        ≡ out
  unfolding parse_bytes parse_byte
  out-parse_bytes-padding zero after token key out = ground arith
  out-parse_bytes-padding (suc n) after token key out =
      out-parse_bytes-padding n after (token ++ 0 ∷ []) key out

  parse_bytes-equals :
      (p : Parser S) (s rest : List ℕ)
      → All IsPlain s
      → parse_bytes callback p (s ++ (equals_sign ∷ rest))
        ≡ parse_bytes callback
            (record { token = []; key = some (p.token ++ s); equal_found = true; out = p.out })
            rest
  parse_bytes-equals p s rest h =
      parse_bytes-append callback p s (equals_sign ∷ rest)
      ∙ rw (parse_bytes-plain callback p s h) (unfold parse_bytes parse_byte in refl)

  parse_bytes-nul :
      (key : Option Str) (out : S) (s rest : List ℕ)
      → All IsPlain s
      → parse_bytes callback
          (record { token = []; key = key; equal_found = true; out = out })
          (s ++ (0 ∷ rest))
        ≡ parse_bytes callback (start callback (callback key s out)) rest
  parse_bytes-nul key out s rest h =
      parse_bytes-append callback _ s (0 ∷ rest)
      ∙ rw
          (parse_bytes-plain callback
            (record { token = []; key = key; equal_found = true; out = out }) s h)
          (unfold parse_bytes parse_byte in refl)

  -- A '=' inside a value loses the key: the pair that is handed over is what stands on the two
  -- sides of the last '=' before the NUL.
  pub parse_common-second_equals :
      (key first second : Str) (after : ℕ) (out : S)
      → All IsPlain key
      → All IsPlain first
      → All IsPlain second
      → parse_common callback
          (key ++ (equals_sign ∷ (first ++ (equals_sign ∷ (second ++ 0 ∷ [])))))
          after
          out
        ≡ callback (some first) second out
  parse_common-second_equals key first second after out hk hf hs =
      parse_common-eq callback _ after out
      ∙ simp append_assoc (
          ap (λ (p : Parser S). p.out)
            (parse_bytes-equals (start callback out) key _ hk
              ∙ parse_bytes-equals _ first _ hf
              ∙ parse_bytes-nul (some first) out second (after ∷ []) hs)
          ∙ out-parse_bytes-start callback after (callback (some first) second out))

-- NUL padding behind the last pair is ignored: a segment of sendable pairs with distinct keys, padded
-- by any number of zero bytes, is read back to the same dictionary.
pub parse_to_dict-padding :
    (d : Dict Str) (n after : ℕ)
    → Distinct d
    → All IsSendable d
    → parse_to_dict (populate d ++ replicate n 0) after (some []) ≡ some d
unfolding parse_to_dict
parse_to_dict-padding d n after u h = ap some (
    parse_common-eq to_dict_callback (populate d ++ replicate n 0) after []
    ∙ rw (append_assoc (populate d) (replicate n 0) (after ∷ [])) (
        ap (λ (p : Parser (Dict Str)). p.out)
          (parse_bytes-populate d [] (replicate n 0 ++ after ∷ []) h)
        ∙ out-parse_bytes-padding to_dict_callback n after [] none (add_values [] d)
        ∙ add_values-nil d u))

-- A created segment has exactly the size that the first pass computed, for every dictionary: the
-- second pass stays inside the block.
length-create_from_dict :
    (sys : Platform) (d : Dict Str) (block : List ℕ)
    → sys.malloc (byte_size d) ≡ some block
    → length (create_from_dict sys (some d)) ≡ byte_size d
unfolding create_from_dict
length-create_from_dict sys d block got =
    rw (got, create_from_dict)
      (omega (
        arith,
        length-append (populate d) (drop (length (populate d)) block),
        length-drop (length (populate d)) block,
        length-populate-le d,
        sys.length-malloc (byte_size d) block got,
      ))

populate-oversized :
    (key value : Str) (d : Dict Str)
    → (100 ≤ length key) ⊎ (100 ≤ length value)
    → populate ((key, value) ∷ d) ≡ populate d
unfolding populate text_command
populate-oversized key value d long = ground arith

-- A pair whose key or value has 100 bytes or more is left out of the segment without a trace, but
-- its size is counted: at least the last 102 bytes that are sent are what `malloc` left in the block.
pub create_from_dict-oversized :
    (sys : Platform) (key value : Str) (d : Dict Str) (block : List ℕ)
    → (100 ≤ length key) ⊎ (100 ≤ length value)
    → sys.malloc (byte_size ((key, value) ∷ d)) ≡ some block
    → (create_from_dict sys (some ((key, value) ∷ d))
        ≡ populate d ++ drop (length (populate d)) block)
      × (length (populate d) + 102 ≤ length block)
unfolding create_from_dict
create_from_dict-oversized sys key value d block long got =
    rw (got, create_from_dict) (rw (populate-oversized key value d long) (refl, fits))
  where
    fits : length (populate d) + 102 ≤ length block
    fits =
        unfold byte_size in
        elim long [
          | inl h ↦ omega (arith, length-populate-le d, sys.length-malloc _ block got)
          | inr h ↦ omega (arith, length-populate-le d, sys.length-malloc _ block got)
        ]
