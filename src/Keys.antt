-- ===== src/Keys.antt =====
-- Source/User/iSCSI Framework/iSCSIRFC3720Keys.h: the keys and values of RFC 3720 that the daemon
-- uses.
use i_scsiinitiator.Base.{Str, codes}

abbrev pub key_initiator_name : Str
key_initiator_name = codes "InitiatorName"

abbrev pub key_initiator_alias : Str
key_initiator_alias = codes "InitiatorAlias"

abbrev pub key_target_name : Str
key_target_name = codes "TargetName"

abbrev pub key_target_alias : Str
key_target_alias = codes "TargetAlias"

abbrev pub key_target_address : Str
key_target_address = codes "TargetAddress"

abbrev pub key_session_type : Str
key_session_type = codes "SessionType"

abbrev pub value_session_type_discovery : Str
value_session_type_discovery = codes "Discovery"

abbrev pub value_session_type_normal : Str
value_session_type_normal = codes "Normal"

abbrev pub key_auth_method : Str
key_auth_method = codes "AuthMethod"

abbrev pub value_auth_method_all : Str
value_auth_method_all = codes "None,CHAP,KRB5,SPKM1,SPKM2,SRP"

abbrev pub value_auth_method_none : Str
value_auth_method_none = codes "None"

abbrev pub value_auth_method_chap : Str
value_auth_method_chap = codes "CHAP"

abbrev pub key_auth_chap_digest : Str
key_auth_chap_digest = codes "CHAP_A"

abbrev pub value_auth_chap_digest_md5 : Str
value_auth_chap_digest_md5 = codes "5"

abbrev pub key_auth_chap_id : Str
key_auth_chap_id = codes "CHAP_I"

abbrev pub key_auth_chap_challenge : Str
key_auth_chap_challenge = codes "CHAP_C"

abbrev pub key_auth_chap_response : Str
key_auth_chap_response = codes "CHAP_R"

abbrev pub key_auth_chap_name : Str
key_auth_chap_name = codes "CHAP_N"

abbrev pub key_target_portal_group_tag : Str
key_target_portal_group_tag = codes "TargetPortalGroupTag"

abbrev pub key_header_digest : Str
key_header_digest = codes "HeaderDigest"

abbrev pub key_data_digest : Str
key_data_digest = codes "DataDigest"

abbrev pub value_digest_none : Str
value_digest_none = codes "None"

abbrev pub value_digest_crc32c : Str
value_digest_crc32c = codes "CRC32C"

abbrev pub key_max_connections : Str
key_max_connections = codes "MaxConnections"

abbrev pub key_initial_r2t : Str
key_initial_r2t = codes "InitialR2T"

abbrev pub key_immediate_data : Str
key_immediate_data = codes "ImmediateData"

abbrev pub key_max_recv_data_segment_length : Str
key_max_recv_data_segment_length = codes "MaxRecvDataSegmentLength"

abbrev pub key_max_burst_length : Str
key_max_burst_length = codes "MaxBurstLength"

abbrev pub key_first_burst_length : Str
key_first_burst_length = codes "FirstBurstLength"

abbrev pub key_default_time2_wait : Str
key_default_time2_wait = codes "DefaultTime2Wait"

abbrev pub key_default_time2_retain : Str
key_default_time2_retain = codes "DefaultTime2Retain"

abbrev pub key_max_outstanding_r2t : Str
key_max_outstanding_r2t = codes "MaxOutstandingR2T"

abbrev pub key_data_pdu_in_order : Str
key_data_pdu_in_order = codes "DataPDUInOrder"

abbrev pub key_data_sequence_in_order : Str
key_data_sequence_in_order = codes "DataSequenceInOrder"

abbrev pub key_error_recovery_level : Str
key_error_recovery_level = codes "ErrorRecoveryLevel"

abbrev pub key_send_targets : Str
key_send_targets = codes "SendTargets"

abbrev pub value_send_targets_all : Str
value_send_targets_all = codes "All"

abbrev pub value_yes : Str
value_yes = codes "Yes"
