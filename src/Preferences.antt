-- ===== src/Preferences.antt =====
-- Source/User/iSCSI Framework/iSCSIPreferences.c: the preferences object, a dictionary of dictionaries.
-- A key that may be missing is a field that may be none; values have the types that this code stores.
-- A result that is none stands for the end of the process, where the code hands NULL to CoreFoundation.
pub mod Targets
pub mod Portals
pub mod Lookups
pub mod Filtered
pub mod Renaming
pub mod Settings
pub mod Managed
pub mod Additions
pub mod Discovered
pub mod Removed
pub mod Renamed
pub mod Operations
pub mod Loaded
pub mod Changes
pub mod Invariant
pub mod Initiator
pub mod Removal
use i_scsiinitiator.Base.{
  Str, codes, ℕ, Bool, true, false, Option, none, some, List, [], ◌&&◌, not, if◌then◌else◌,
}
use i_scsiinitiator.Dict.{Dict, get, contains_key, set_value}
use i_scsiinitiator.Dict.Laws.{is_some}
use i_scsiinitiator.Defaults.{rfc_default_max_connections}

-- An iSCSIPortalRef: iSCSIPortalCreateMutable sets the three keys, and nothing removes them.
pub record Portal : Type 0 where
  pub address : Str
  pub port : Str
  pub host_interface : Str

-- The dictionary of one target.
pub record TargetDict : Type 0 where
  pub auth : Option Str
  pub chap_name : Option Str
  pub auto_login : Option Bool
  pub persistent : Option Bool
  pub max_connections : Option ℕ
  pub error_recovery_level : Option ℕ
  pub header_digest : Option Str
  pub data_digest : Option Str
  pub alias : Option Str
  pub config_type : Option Str
  pub send_targets_portal : Option Str
  pub portals : Option (Dict Portal)

-- The dictionary of one discovery portal, which is stored under its address.
pub record DiscoveryPortal : Type 0 where
  pub port : Option Str
  pub host_interface : Option Str
  pub targets : Option (List Str)

pub record DiscoveryDict : Type 0 where
  pub send_targets_enabled : Option Bool
  pub interval : Option ℕ
  pub portals : Option (Dict DiscoveryPortal)

pub record InitiatorDict : Type 0 where
  pub auth : Option Str
  pub chap_name : Option Str
  pub alias : Option Str
  pub iqn : Option Str

pub record Preferences : Type 0 where
  pub initiator : Option InitiatorDict
  pub targets : Option (Dict TargetDict)
  pub discovery : Option DiscoveryDict

-- iSCSIPreferencesCreate
abbrev pub create : Preferences
create = record { initiator = none; targets = none; discovery = none }

-- iSCSIPreferencesCreateDiscoveryDict, with kiSCSIInitiator_DiscoveryInterval
abbrev pub create_discovery_dict : DiscoveryDict
create_discovery_dict = record {
  send_targets_enabled = some false;
  interval = some 300;
  portals = none;
}

-- iSCSIPreferencesCreateInitiatorDict
abbrev pub create_initiator_dict : InitiatorDict
create_initiator_dict = record {
  auth = some (codes "None");
  chap_name = some (codes "localhost");
  alias = some (codes "localhost");
  iqn = some (codes "iqn.2015-01.com.localhost:initiator");
}

-- iSCSIPreferencesCreateTargetDict
abbrev pub create_target_dict : TargetDict
create_target_dict = record {
  auth = some (codes "None");
  chap_name = some [];
  auto_login = some false;
  persistent = some true;
  max_connections = some rfc_default_max_connections;
  error_recovery_level = some 0;
  header_digest = some (codes "None");
  data_digest = some (codes "None");
  alias = none;
  config_type = none;
  send_targets_portal = none;
  portals = none;
}

-- iSCSIPreferencesGetTargets, on an object whose table of targets is there or missing.
unfoldable pub with_targets : Bool → Option (Dict TargetDict) → Option (Dict TargetDict)
with_targets create_if_missing none = if create_if_missing then some [] else none
with_targets create_if_missing (some targets) = some targets

unfoldable pub get_targets : Bool → Preferences → Preferences
get_targets create_if_missing p = record p { targets = with_targets create_if_missing p.targets }

-- What the table of targets has under a name, and a write through the pointer to it.
unfoldable pub find_in : Str → Option (Dict TargetDict) → Option TargetDict
find_in iqn none = none
find_in iqn (some targets) = get iqn targets

unfoldable pub find_target : Str → Preferences → Option TargetDict
find_target iqn p = find_in iqn p.targets

unfoldable pub put_in : Str → TargetDict → Option (Dict TargetDict) → Option (Dict TargetDict)
put_in iqn t none = none
put_in iqn t (some targets) = some (set_value iqn t targets)

unfoldable pub put_target : Str → TargetDict → Preferences → Preferences
put_target iqn t p = record p { targets = put_in iqn t p.targets }

-- The change that iSCSIPreferencesGetTargetDict makes: a target that is missing is created if asked for.
-- What it returns is then find_target.
unfoldable pub get_target_dict : Str → Bool → Preferences → Preferences
get_target_dict iqn create_if_missing p =
    let opened = get_targets create_if_missing p in
    if create_if_missing && not (is_some (find_target iqn opened))
    then put_target iqn create_target_dict opened
    else opened

-- A change of a target's dictionary by code that tests it for NULL, and by code that does not.
unfoldable pub change_found :
    Str → (TargetDict → TargetDict) → Option TargetDict → Preferences → Preferences
change_found iqn f none p = p
change_found iqn f (some t) p = put_target iqn (f t) p

unfoldable pub change_target : Str → (TargetDict → TargetDict) → Preferences → Preferences
change_target iqn f p = change_found iqn f (find_target iqn p) p

unfoldable pub must_change_found :
    Str → (TargetDict → TargetDict) → Option TargetDict → Preferences → Option Preferences
must_change_found iqn f none p = none
must_change_found iqn f (some t) p = some (put_target iqn (f t) p)

unfoldable pub must_change : Str → (TargetDict → TargetDict) → Preferences → Option Preferences
must_change iqn f p = must_change_found iqn f (find_target iqn p) p
