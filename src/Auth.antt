-- ===== src/Auth.antt =====
-- Source/User/iscsid/iSCSIAuth.c: authentication during the security stage of a login.
pub mod Hex
pub mod Chap
pub mod Security
pub mod Mutual
pub mod Choice
pub mod HexTrip
pub mod EndToEnd
pub mod Outcomes
