-- ===== src/Session.antt =====
-- Source/User/iscsid/iSCSISession.c: logging in and out, and the connections of a session.
pub mod Login
pub mod Logout
pub mod Ends
