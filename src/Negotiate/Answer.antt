-- ===== src/Negotiate/Answer.antt =====
-- The target's answer: iSCSINegotiateParseSWDictCommon, ...SWDictNormal and ...CWDict.
-- A result is `none` where the code hands NULL to CoreFoundation, which ends the process: that is
-- where the target answers a key that was not offered. Otherwise it is the error and the world.
use i_scsiinitiator.Base.{
  Str, ℕ, ◌%◌, ◌^◌, ◌==◌, ◌&&◌, ◌||◌, not, Bool, false, Option, none, some, if◌then◌else◌,
}
use i_scsiinitiator.Dict.{Dict, get}
use i_scsiinitiator.Platform.{Platform}
use i_scsiinitiator.Keys.{
  value_digest_crc32c, key_header_digest, key_data_digest, key_max_connections, key_initial_r2t,
  key_immediate_data, key_max_recv_data_segment_length, key_max_burst_length,
  key_first_burst_length, key_default_time2_wait, key_default_time2_retain, key_max_outstanding_r2t,
  key_data_pdu_in_order, key_data_sequence_in_order, key_error_recovery_level,
}
use i_scsiinitiator.Defaults.{
  rfc_max_connections_min, rfc_max_connections_max, rfc_default_max_recv_data_segment_length,
  rfc_max_recv_data_segment_length_min, rfc_first_burst_length_min, rfc_time2_wait_min,
  rfc_time2_wait_max, rfc_time2_retain_min, rfc_time2_retain_max, rfc_max_outstanding_r2t_min,
  rfc_max_outstanding_r2t_max, rfc_error_recovery_level_min, rfc_error_recovery_level_max,
}
use i_scsiinitiator.Hba.{
  World, SessionParameter, default_time2_retain, default_time2_wait, error_recovery_level,
  max_connections, immediate_data, initial_r2t, data_pdu_in_order, data_sequence_in_order,
  max_outstanding_r2t, max_burst_length, first_burst_length, use_header_digest, use_data_digest,
  max_send_data_segment_length, max_recv_data_segment_length,
}
use i_scsiinitiator.Hba.Calls.{set_session_parameter, set_connection_parameter}
use i_scsiinitiator.Negotiate.Values.{get_equal, get_and, get_or, get_min, range_invalid}

-- ENOTSUP
abbrev pub e_not_sup : ℕ
e_not_sup = 45

abbrev pub Outcome : Type 0
Outcome = Option (ℕ × World)

-- What follows runs only where nothing was returned before.
unfoldable pub then_do : Outcome → (World → Outcome) → Outcome
then_do none next = none
then_do (some (error, w)) next = if error == 0 then next w else some (error, w)

-- A C Boolean, as the kernel stores it.
abbrev pub as_number : Bool → ℕ
as_number b = if b then 1 else 0

-- The offer for the key is read and combined with the answer; the result is stored.
unfoldable pub store : ℕ → SessionParameter → (Str → ℕ) → Option Str → World → Outcome
store session_id parameter combine none w = none
store session_id parameter combine (some cmd) w =
    some (0, set_session_parameter session_id parameter (combine cmd) w)

-- The range of a parameter, and the width of the variable that holds it.
pub record Bounds : Type 0 where
  pub low : ℕ
  pub high : ℕ
  pub width : ℕ

-- An answered key whose value is checked against its range, and then stored as the minimum of the
-- offer and the answer.
unfoldable pub checked_minimum :
    Platform → ℕ → SessionParameter → Bounds → Option Str → Str → World → Outcome
checked_minimum sys session_id parameter b cmd rsp w =
    if range_invalid (sys.int_value rsp % 2 ^ b.width) b.low b.high
    then some (e_not_sup, w)
    else store session_id parameter (λ offer. get_min sys offer rsp % 2 ^ b.width) cmd w

abbrev pub retain_bounds : Bounds
retain_bounds = record { low = rfc_time2_retain_min; high = rfc_time2_retain_max; width = 32 }

abbrev pub wait_bounds : Bounds
wait_bounds = record { low = rfc_time2_wait_min; high = rfc_time2_wait_max; width = 32 }

-- The error recovery level is held in a UInt8.
abbrev pub level_bounds : Bounds
level_bounds = record {
  low = rfc_error_recovery_level_min;
  high = rfc_error_recovery_level_max;
  width = 8;
}

abbrev pub connections_bounds : Bounds
connections_bounds = record {
  low = rfc_max_connections_min;
  high = rfc_max_connections_max;
  width = 32;
}

abbrev pub r2t_bounds : Bounds
r2t_bounds = record {
  low = rfc_max_outstanding_r2t_min;
  high = rfc_max_outstanding_r2t_max;
  width = 32;
}

abbrev pub first_burst_bounds : Platform → Bounds
first_burst_bounds sys = record {
  low = rfc_first_burst_length_min;
  high = sys.length_max;
  width = 32;
}

-- A key that the target has to answer.
unfoldable pub required :
    Platform → ℕ → SessionParameter → Bounds → Option Str → Option Str → World → Outcome
required sys session_id parameter b cmd none w = some (e_not_sup, w)
required sys session_id parameter b cmd (some rsp) w =
    checked_minimum sys session_id parameter b cmd rsp w

unfoldable pub parse_sw_dict_common : Platform → ℕ → Dict Str → Dict Str → World → Outcome
parse_sw_dict_common sys session_id cmd rsp w =
    then_do
      (then_do
        (required sys session_id default_time2_retain retain_bounds
          (get key_default_time2_retain cmd) (get key_default_time2_retain rsp) w)
        (required sys session_id default_time2_wait wait_bounds (get key_default_time2_wait cmd)
          (get key_default_time2_wait rsp)))
      (required sys session_id error_recovery_level level_bounds (get key_error_recovery_level cmd)
        (get key_error_recovery_level rsp))

-- A key that the target may leave out.
unfoldable pub optional :
    Platform → ℕ → SessionParameter → Bounds → Option Str → Option Str → World → Outcome
optional sys session_id parameter b cmd none w = some (0, w)
optional sys session_id parameter b cmd (some rsp) w =
    checked_minimum sys session_id parameter b cmd rsp w

-- A key that the target may leave out, and whose value is not checked.
unfoldable pub unchecked :
    ℕ → SessionParameter → (Str → Str → ℕ) → Option Str → Option Str → World → Outcome
unchecked session_id parameter combine cmd none w = some (0, w)
unchecked session_id parameter combine cmd (some rsp) w =
    store session_id parameter (λ offer. combine offer rsp) cmd w

-- The local variables `initialR2T` and `immediateData`: false until the key is read.
unfoldable pub chosen : (Str → Str → Bool) → Option Str → Option Str → Bool
chosen combine (some cmd) (some rsp) = combine cmd rsp
chosen combine none rsp = false
chosen combine (some cmd) none = false

-- The parameter is irrelevant where InitialR2T is "Yes" and ImmediateData is not.
abbrev pub first_burst_matters : Platform → Dict Str → Dict Str → Bool
first_burst_matters sys cmd rsp =
    not (chosen (get_or sys) (get key_initial_r2t cmd) (get key_initial_r2t rsp))
    || chosen (get_and sys) (get key_immediate_data cmd) (get key_immediate_data rsp)

unfoldable pub parse_first_burst : Platform → ℕ → Dict Str → Dict Str → World → Outcome
parse_first_burst sys session_id cmd rsp w =
    if first_burst_matters sys cmd rsp
    then optional sys session_id first_burst_length (first_burst_bounds sys)
        (get key_first_burst_length cmd) (get key_first_burst_length rsp) w
    else some (0, w)

unfoldable pub parse_flags : Platform → ℕ → Dict Str → Dict Str → World → Outcome
parse_flags sys session_id cmd rsp w =
    let or = λ (c : Str) (r : Str). as_number (get_or sys c r) in
    let and = λ (c : Str) (r : Str). as_number (get_and sys c r) in
    then_do
      (then_do
        (then_do
          (unchecked session_id initial_r2t or (get key_initial_r2t cmd) (get key_initial_r2t rsp)
            w)
          (unchecked session_id immediate_data and (get key_immediate_data cmd)
            (get key_immediate_data rsp)))
        (unchecked session_id data_pdu_in_order and (get key_data_pdu_in_order cmd)
          (get key_data_pdu_in_order rsp)))
      (unchecked session_id data_sequence_in_order and (get key_data_sequence_in_order cmd)
        (get key_data_sequence_in_order rsp))

unfoldable pub parse_sw_dict_normal : Platform → ℕ → Dict Str → Dict Str → World → Outcome
parse_sw_dict_normal sys session_id cmd rsp w =
    then_do
      (then_do
        (then_do
          (then_do
            (optional sys session_id max_connections connections_bounds
              (get key_max_connections cmd) (get key_max_connections rsp) w)
            (parse_flags sys session_id cmd rsp))
          (unchecked session_id max_burst_length (get_min sys) (get key_max_burst_length cmd)
            (get key_max_burst_length rsp)))
        (parse_first_burst sys session_id cmd rsp))
      (optional sys session_id max_outstanding_r2t r2t_bounds (get key_max_outstanding_r2t cmd)
        (get key_max_outstanding_r2t rsp))

-- A digest is used where the target answers what was offered, and that is CRC32C.
unfoldable pub agree : Platform → Option Str → Option Str → Option Bool
agree sys cmd none = some false
agree sys none (some rsp) = none
agree sys (some cmd) (some rsp) =
    some (get_equal sys cmd rsp && get_equal sys rsp value_digest_crc32c)

-- The length that the target declares, or the error of one outside the range.
unfoldable pub declared_length : Platform → Option Str → ℕ × ℕ
declared_length sys none = (0, rfc_default_max_recv_data_segment_length)
declared_length sys (some rsp) =
    if range_invalid (sys.int_value rsp) rfc_max_recv_data_segment_length_min sys.length_max
    then (e_not_sup, rfc_default_max_recv_data_segment_length)
    else (0, sys.int_value rsp)

unfoldable pub parse_lengths : Platform → ℕ → ℕ → Dict Str → World → ℕ × World
parse_lengths sys session_id connection_id rsp w =
    let own = rfc_default_max_recv_data_segment_length in
    let w' = set_connection_parameter session_id connection_id max_recv_data_segment_length own w in
    let (error, length) = declared_length sys (get key_max_recv_data_segment_length rsp) in
    if error == 0
    then (
      0,
      set_connection_parameter session_id connection_id max_send_data_segment_length length w',
    )
    else (error, w')

-- Both digests are stored, where neither ends the process, and then the lengths are read.
unfoldable pub store_digests :
    Platform → ℕ → ℕ → Dict Str → World → Option Bool → Option Bool → Outcome
store_digests sys session_id connection_id rsp w none for_header = none
store_digests sys session_id connection_id rsp w (some on_data) none = none
store_digests sys session_id connection_id rsp w (some on_data) (some on_header) =
    let w' =
      set_connection_parameter session_id connection_id use_data_digest (as_number on_data) w in
    some (
      parse_lengths sys session_id connection_id rsp (
        set_connection_parameter session_id connection_id use_header_digest (as_number on_header)
          w'))

unfoldable pub parse_cw_dict : Platform → ℕ → ℕ → Dict Str → Dict Str → World → Outcome
parse_cw_dict sys session_id connection_id cmd rsp w =
    store_digests sys session_id connection_id rsp w
      (agree sys (get key_data_digest cmd) (get key_data_digest rsp))
      (agree sys (get key_header_digest cmd) (get key_header_digest rsp))
