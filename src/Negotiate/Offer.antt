-- ===== src/Negotiate/Offer.antt =====
-- The dictionaries that the initiator sends: iSCSINegotiateBuildSWDictNormal, ...SWDictCommon and
-- ...CWDict.
use i_scsiinitiator.Base.{Str, codes, ℕ, ◌==◌, Bool, [], ◌∷◌, if◌then◌else◌}
use i_scsiinitiator.Dict.{Dict, add_values}
use i_scsiinitiator.Platform.{Platform}
use i_scsiinitiator.Keys.{
  value_yes, value_digest_none, value_digest_crc32c, key_header_digest, key_data_digest,
  key_max_connections, key_initial_r2t, key_immediate_data, key_max_recv_data_segment_length,
  key_max_burst_length, key_first_burst_length, key_default_time2_wait, key_default_time2_retain,
  key_max_outstanding_r2t, key_data_pdu_in_order, key_data_sequence_in_order,
  key_error_recovery_level,
}
use i_scsiinitiator.Defaults.{
  rfc_default_max_connections, rfc_default_max_burst_length, rfc_default_first_burst_length,
  rfc_default_max_outstanding_r2t, rfc_default_time2_wait, rfc_default_time2_retain,
  rfc_default_max_recv_data_segment_length,
}

-- iSCSISessionConfigRef: the portal group tag is not used here.
pub record SessionConfig : Type 0 where
  pub max_connections : ℕ
  pub error_recovery_level : ℕ

-- iSCSIConnectionConfigRef: a digest is wanted (kiSCSIDigestCRC32C) or not (kiSCSIDigestNone).
pub record ConnectionConfig : Type 0 where
  pub header_digest : Bool
  pub data_digest : Bool

-- The switch on enum iSCSIErrorRecoveryLevels, with its default branch.
abbrev pub error_recovery_value : ℕ → Str
error_recovery_value level =
    if level == 0
    then codes "0"
    else if level == 1
    then codes "1"
    else if level == 2
    then codes "2"
    else codes "0"

unfoldable pub build_sw_dict_normal : Platform → SessionConfig → Dict Str → Dict Str
build_sw_dict_normal sys cfg d =
    let connections =
      if cfg.max_connections == 0 then rfc_default_max_connections else cfg.max_connections in
    add_values d (
      (key_max_connections, sys.format_u connections)
      ∷ (key_initial_r2t, value_yes)
      ∷ (key_immediate_data, value_yes)
      ∷ (key_max_burst_length, sys.format_u rfc_default_max_burst_length)
      ∷ (key_first_burst_length, sys.format_u rfc_default_first_burst_length)
      ∷ (key_max_outstanding_r2t, sys.format_u rfc_default_max_outstanding_r2t)
      ∷ (key_data_pdu_in_order, value_yes)
      ∷ (key_data_sequence_in_order, value_yes)
      ∷ [])

unfoldable pub build_sw_dict_common : Platform → SessionConfig → Dict Str → Dict Str
build_sw_dict_common sys cfg d = add_values d (
    (key_default_time2_wait, sys.format_u rfc_default_time2_wait)
    ∷ (key_default_time2_retain, sys.format_u rfc_default_time2_retain)
    ∷ (key_error_recovery_level, error_recovery_value cfg.error_recovery_level)
    ∷ [])

abbrev pub digest_value : Bool → Str
digest_value wanted = if wanted then value_digest_crc32c else value_digest_none

unfoldable pub build_cw_dict : Platform → ConnectionConfig → Dict Str → Dict Str
build_cw_dict sys cfg d = add_values d (
    (key_data_digest, digest_value cfg.data_digest)
    ∷ (key_header_digest, digest_value cfg.header_digest)
    ∷ (key_max_recv_data_segment_length, sys.format_u rfc_default_max_recv_data_segment_length)
    ∷ [])

-- What iSCSINegotiateSession sends.
unfoldable pub build_session : Platform → SessionConfig → ConnectionConfig → Bool → Dict Str
build_session sys sess_cfg conn_cfg discovery =
    let common = build_sw_dict_common sys sess_cfg [] in
    build_cw_dict sys conn_cfg
      (if discovery then common else build_sw_dict_normal sys sess_cfg common)
