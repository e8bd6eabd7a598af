-- ===== src/Pdu.antt =====
-- Source/User/iscsid/iSCSIPDUUser.c: the key=value text of login and text PDUs.
pub mod Parse
pub mod Create
pub mod RoundTrip
pub mod Limits
