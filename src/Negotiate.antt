-- ===== src/Negotiate.antt =====
-- Source/User/iscsid/iSCSISession.c, negotiation of the operational parameters: what the initiator
-- offers, how it reads the target's answer, and what it then stores in the kernel.
pub mod Values
pub mod Offer
pub mod Answer
pub mod Login
pub mod Agreed
pub mod Total
pub mod Keeps
pub mod Whole
