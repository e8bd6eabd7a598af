-- ===== src/Examples/Wire.antt =====
-- Segments of text.
use i_scsiinitiator.Base.{
  Str, codes, str_eq, ℕ, ◌≤◌, ◌+◌, some, [], ◌∷◌, ◌++◌, ◌≡◌, refl, arith, length, drop, replicate,
  All, inr,
}
use i_scsiinitiator.Dict.{Dict, Distinct}
use i_scsiinitiator.Platform.Ascii.{ascii, block}
use i_scsiinitiator.Pdu.Parse.{parse_to_dict}
use i_scsiinitiator.Pdu.Create.{byte_size, populate, create_from_dict}
use i_scsiinitiator.Pdu.RoundTrip.{IsSendable, parse_to_dict-create_from_dict, length-populate-le}
use i_scsiinitiator.Pdu.Limits.{create_from_dict-oversized}

abbrev two_pairs : Dict Str
two_pairs = (codes "k", codes "v1") ∷ (codes "l", codes "") ∷ []

two_pairs-Distinct : Distinct two_pairs
unfolding str_eq
two_pairs-Distinct = ((refl, tt), (tt, tt))

two_pairs-IsSendable : All IsSendable two_pairs
two_pairs-IsSendable = (
  (((refl, refl), tt), ((refl, refl), ((refl, refl), tt)), omega arith, omega arith),
  ((((refl, refl), tt), tt, omega arith, omega arith), tt),
)

parse_to_dict-create_from_dict_example :
    parse_to_dict (create_from_dict ascii (some two_pairs)) 7 (some []) ≡ some two_pairs
parse_to_dict-create_from_dict_example =
    parse_to_dict-create_from_dict ascii two_pairs (replicate 8 0xaa) 7
      (unfold ascii block byte_size in refl) two_pairs-Distinct two_pairs-IsSendable

length-populate-le_example : length (populate two_pairs) ≤ byte_size two_pairs
length-populate-le_example = length-populate-le two_pairs

abbrev long_name : Str
long_name = replicate 100 97

create_from_dict-oversized_example :
    (create_from_dict ascii (some ((codes "k", long_name) ∷ two_pairs))
      ≡ populate two_pairs ++ drop (length (populate two_pairs)) (replicate 111 0xaa))
    × (length (populate two_pairs) + 102 ≤ length {A = ℕ} (replicate 111 0xaa))
create_from_dict-oversized_example =
    create_from_dict-oversized ascii (codes "k") long_name two_pairs (replicate 111 0xaa)
      (inr (omega arith)) (unfold ascii block byte_size in refl)
