-- ===== src/Defaults.antt =====
-- Source/Kernel/iSCSIRFC3720Defaults.h: the defaults and ranges of the negotiated parameters. Its upper
-- bound for lengths, (2e24-1), is outside unsigned int: see `Platform.length_max`.
use i_scsiinitiator.Base.{ℕ}

abbrev pub rfc_default_max_connections : ℕ
rfc_default_max_connections = 1

abbrev pub rfc_max_connections_min : ℕ
rfc_max_connections_min = 1

abbrev pub rfc_max_connections_max : ℕ
rfc_max_connections_max = 65535

abbrev pub rfc_default_max_recv_data_segment_length : ℕ
rfc_default_max_recv_data_segment_length = 8192

abbrev pub rfc_max_recv_data_segment_length_min : ℕ
rfc_max_recv_data_segment_length_min = 512

abbrev pub rfc_default_max_burst_length : ℕ
rfc_default_max_burst_length = 262144

abbrev pub rfc_default_first_burst_length : ℕ
rfc_default_first_burst_length = 65536

abbrev pub rfc_first_burst_length_min : ℕ
rfc_first_burst_length_min = 512

abbrev pub rfc_max_burst_length_min : ℕ
rfc_max_burst_length_min = 512

abbrev pub rfc_default_time2_wait : ℕ
rfc_default_time2_wait = 2

abbrev pub rfc_time2_wait_min : ℕ
rfc_time2_wait_min = 0

abbrev pub rfc_time2_wait_max : ℕ
rfc_time2_wait_max = 3600

abbrev pub rfc_default_time2_retain : ℕ
rfc_default_time2_retain = 20

abbrev pub rfc_time2_retain_min : ℕ
rfc_time2_retain_min = 0

abbrev pub rfc_time2_retain_max : ℕ
rfc_time2_retain_max = 3600

abbrev pub rfc_default_max_outstanding_r2t : ℕ
rfc_default_max_outstanding_r2t = 1

abbrev pub rfc_max_outstanding_r2t_min : ℕ
rfc_max_outstanding_r2t_min = 1

abbrev pub rfc_max_outstanding_r2t_max : ℕ
rfc_max_outstanding_r2t_max = 65535

abbrev pub rfc_error_recovery_level_min : ℕ
rfc_error_recovery_level_min = 0

abbrev pub rfc_error_recovery_level_max : ℕ
rfc_error_recovery_level_max = 2
