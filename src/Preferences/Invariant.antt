-- ===== src/Preferences/Invariant.antt =====
-- Source/User/iSCSI Framework/iSCSIPreferences.c: no sequence of operations loses a managed target from
-- the list of its portal.
use i_scsiinitiator.Base.{Option}
