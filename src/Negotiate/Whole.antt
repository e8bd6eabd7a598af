-- ===== src/Negotiate/Whole.antt =====
-- iSCSINegotiateSession from its query to the parameters that the kernel holds at its end.
use i_scsiinitiator.Dict.{Dict}
use i_scsiinitiator.Platform.{Platform}
use i_scsiinitiator.Target.{Target}
use i_scsiinitiator.Query.{Query}
use i_scsiinitiator.Negotiate.Login.{Login}
