-- ===== src/Lib.antt =====
-- The iSCSI initiator. Its daemon, iscsid, on the login path: how it speaks text to a target, negotiates,
-- authenticates, opens and closes sessions. Its kernel extension: a virtual host bus adapter that carries
-- SCSI tasks over those sessions.
--
-- The parts, from the wire upwards, and the code that each models:
--   Pdu        Source/User/iscsid/iSCSIPDUUser.c: data segments of key=value pairs. Pdu/Parse is
--              iSCSIPDUDataParseCommon and iSCSIPDUDataParseToDict, Pdu/Create is
--              iSCSIPDUDataCreateFromDict with its two passes.
--   Hba        Source/User/iscsid/iSCSIHBAInterface.c: the calls into the kernel extension (Hba/Calls),
--              over a World that holds the answers to come and the log of the calls.
--   Query      Source/User/iscsid/iSCSIQueryTarget.c: iSCSISessionLoginSingleQuery (single_query, with
--              receive_loop for its loop) and iSCSISessionLoginQuery (login_query, with retry).
--   Target     Source/User/iSCSI Framework/iSCSITypes.c: target records and authentication objects.
--   Auth       Source/User/iscsid/iSCSIAuth.c: Auth/Hex the hexadecimal conversions and the CHAP
--              response, Auth/Chap iSCSIAuthNegotiateCHAP (negotiate_chap), Auth/Security
--              iSCSIAuthNegotiate (negotiate) and iSCSIAuthInterrogate (interrogate); Auth/Mutual,
--              Auth/EndToEnd and Auth/Outcomes are about when the two succeed.
--   Negotiate  Source/User/iscsid/iSCSISession.c: Negotiate/Values the iSCSILVGet... helpers,
--              Negotiate/Offer the dictionaries that are sent, Negotiate/Answer the parsers of the
--              target's answer, Negotiate/Login iSCSINegotiateSession (negotiate_session).
--   Session    the same file: Session/Login iSCSISessionLogin (login) and iSCSISessionAddConnection
--              (add_connection), Session/Logout iSCSISessionLogout (logout_session),
--              iSCSISessionRemoveConnection and iSCSISessionLogoutCommon.
--   Keys, Defaults  iSCSIRFC3720Keys.h and Source/Kernel/iSCSIRFC3720Defaults.h.
--   Kernel     Source/Kernel: the extension. Kernel/State has iSCSITypesKernel.h and the adapter's tables,
--              Kernel/Slots arrays of pointers, Kernel/Tags the task tags of iSCSIVirtualHBA.h,
--              Kernel/TaskQueue iSCSITaskQueue.cpp. The rest is iSCSIVirtualHBA.cpp: Kernel/Creation
--              CreateSession and CreateConnection, Kernel/Activation and Kernel/Release what their names
--              say with HandleConnectionTimeout, Kernel/Completion CompleteParallelTask and the loop of
--              DeactivateConnection, Kernel/Wire SendPDU, RecvPDUHeader and RecvPDUData, Kernel/DataOut
--              ProcessDataOutForTask, Kernel/Commands BeginTaskOnWorkloopThread, Kernel/Requests what the
--              SCSI stack asks for, Kernel/Responses and Kernel/Dispatch the PDUs of a target.
--              Kernel/Parameters and Kernel/Client have calls of iSCSIHBAUserClient.cpp with its lock.
--              Kernel/Operations puts the adapter together; Kernel/WellFormed and Kernel/Kept have the invariant.
--   Keychain   Source/User/iSCSI Framework/iSCSIKeychain.c: the CHAP secrets, over a SecKeychain that
--              stands for the Keychain Services; Works has the laws of a keychain on which calls succeed.
--   Preferences  Source/User/iSCSI Framework/iSCSIPreferences.c: the object (Preferences), the settings of
--              a target (Preferences/Targets), portals and discovery portals (Preferences/Portals), the
--              initiator and the discovery (Preferences/Initiator), removal and renaming, which reach the
--              keychain (Preferences/Removal). Preferences/Operations has the operations as steps of a
--              relation; the other files are lemmas and theorems about them.
--   Discovery  Source/User/iscsid/iSCSIDiscovery.c: the discovery records of iSCSITypes.c and the update of
--              the preferences with them; Discovery/Rounds is iSCSIDiscoveryCreateRecordsWithSendTargets and
--              iSCSIDProcessDiscoveryData, with the query of a portal as a parameter;
--              Discovery/Timer is iSCSIDLaunchDiscoveryThread of iSCSIDaemon.c with the end of
--              iSCSIDRunDiscovery.
--   Base, Dict, Platform  shared names and lemmas, CFDictionary as an association list, and what the
--              code takes from the operating system.
--   Examples   runs at concrete inputs.
--
-- The daemon's calls (Hba) reach the adapter (Kernel) through the user client; the two models are apart.
-- A login is negotiate (security stage), then negotiate_session (operational stage), each of which asks
-- login_query, which sends and receives through Hba, with texts made and read by Pdu. A mutable argument
-- of the code is threaded: the World, the Context of a query, the dictionary of answers, the status code
-- and the target record.
--
-- Choices. Strings are lists of character codes below 128. A dictionary's order is that of its list. The
-- host is little-endian. CFStringCompare without case, CFStringGetIntValue, "%u", CFStringFind, malloc and
-- MD5 are the fields of Platform, with the laws that the code relies on; Platform/Ascii is an instance that
-- runs. The bytes of /dev/random and uncleared stack memory are arguments (Auth.Chap.Setting). What the
-- kernel and the target answer is a list in the World that is consumed from its head: a list of deliveries
-- that is empty is a lost connection, so the receive loop is structural and needs no fuel. Whether
-- the kernel takes a session's parameter that the daemon sets is the field stores of the World, since no
-- caller looks at the result of that call; a read of a parameter is taken to succeed. The retries of
-- a query are counted down from the code's own bound of five. A result that is none stands for the end of
-- the process, where the code hands NULL to CoreFoundation. The upper bound (2e24-1) for lengths, which is
-- outside unsigned int, is the field length_max. sscanf is modelled on digits, without white space or
-- signs.
--
-- In the preferences, a key that may be missing is a field that may be none, and a function that changes the
-- object returns it; a getter that creates a missing target returns the changed object with its value. Two
-- tables never share a dictionary there. A discovery record names a target once. In
-- Preferences/Operations the system's store gives targets and discovery that one object once had. In
-- Discovery, the look-up of a target's session, its logout and the query of a portal are parameters over a
-- type of sessions, and so is the POSIX mutex in Discovery/Timer.
--
-- In the kernel, SCSI family, sockets, clock and memory are fields of Env (Kernel/State), each a function of
-- the log of what was done before, newest first; so are kiSCSIMaxSessions and kiSCSIMaxConnectionsPerSession,
-- which the repository defines nowhere. A pointer to a session or connection is its place in the tables, and
-- a use of one that was freed is left out. A loop has fuel: that of DeactivateConnection gets
-- as much as it needs (suc (load c)), that of ProcessDataOutForTask one round more than there are bytes. A
-- result that is none is a read outside an array, a NULL pointer, or a transfer without end. An operation of
-- the work loop is one step: the command gate lets no two overlap. Floating-point speed is the field rate.
--
-- Not modelled: of the kernel extension, the other calls of the user client, the event source, the reports
-- to the SCSI family and the command descriptor blocks; crc32c.c (third-party); the text queries of a
-- discovery; the messages of the daemon and the logins that they ask for; the storing of preferences by the
-- system; Disk Arbitration and I/O Registry glue; memory release; and iSCSINegotiateConnection, which nothing
-- calls.
pub mod Base
pub mod Dict
pub mod Platform
pub mod Keys
pub mod Defaults
pub mod Pdu
pub mod Target
pub mod Hba
pub mod Query
pub mod Negotiate
pub mod Auth
pub mod Session
pub mod Keychain
pub mod Preferences
pub mod Discovery
pub mod Kernel
pub mod Examples
