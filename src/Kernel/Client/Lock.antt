-- ===== src/Kernel/Client/Lock.antt =====
-- Source/Kernel/iSCSIHBAUserClient.cpp: whether a call leaves accessLock held.
use i_scsiinitiator.Base.{ℕ, Bool, false, Option, none, some}
use i_scsiinitiator.Kernel.Slots.{slot}
use i_scsiinitiator.Kernel.State.{Session, Hba}
use i_scsiinitiator.Kernel.Client.Listing.{is_used}

-- Whether a session has a connection in a slot.
unfoldable pub has_connection : ℕ → Option Session → Bool
has_connection cid none = false
has_connection cid (some s) = is_used (slot s.connections cid)
