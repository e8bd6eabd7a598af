-- ===== src/Preferences/Initiator.antt =====
-- Source/User/iSCSI Framework/iSCSIPreferences.c: the settings of the initiator and of the discovery.
use i_scsiinitiator.Base.{Str, ℕ, ◌%◌, ◌^◌, Bool, Option, none, some}
use i_scsiinitiator.Target.{AuthMethod}
use i_scsiinitiator.Keychain.{
  SecKeychain, copy_chap_secret_for_node, set_chap_secret_for_node, delete_chap_secret_for_node,
  contains_chap_secret_for_node,
}
use i_scsiinitiator.Preferences.{
  DiscoveryDict, InitiatorDict, Preferences, create, create_initiator_dict,
}
use i_scsiinitiator.Preferences.Targets.{auth_text, or_kept, stored_method}
use i_scsiinitiator.Preferences.Portals.{discovery_of}

-- iSCSIPreferencesGetInitiatorDict with createIfMissing, and a write through what it returns.
unfoldable pub initiator_of : Option InitiatorDict → InitiatorDict
initiator_of none = create_initiator_dict
initiator_of (some i) = i

unfoldable pub change_initiator : (InitiatorDict → InitiatorDict) → Preferences → Preferences
change_initiator f p = record p { initiator = some (f (initiator_of p.initiator)) }

unfoldable pub get_initiator_dict : Preferences → Preferences
get_initiator_dict p = change_initiator (λ i. i) p

unfoldable pub set_initiator_authentication_method : AuthMethod → Preferences → Preferences
set_initiator_authentication_method method p =
    change_initiator (λ i. record i { auth = or_kept (auth_text method) i.auth }) p

unfoldable pub get_initiator_authentication_method : Preferences → Option AuthMethod × Preferences
get_initiator_authentication_method p =
    (stored_method (initiator_of p.initiator).auth, get_initiator_dict p)

unfoldable pub set_initiator_chap_name : Str → Preferences → Preferences
set_initiator_chap_name name p = change_initiator (λ i. record i { chap_name = some name }) p

unfoldable pub copy_initiator_chap_name : Preferences → Option Str × Preferences
copy_initiator_chap_name p = ((initiator_of p.initiator).chap_name, get_initiator_dict p)

-- The next two read a missing dictionary's defaults without storing them.
unfoldable pub copy_initiator_iqn : Preferences → Option Str
copy_initiator_iqn p = (initiator_of p.initiator).iqn

unfoldable pub copy_initiator_alias : Preferences → Option Str
copy_initiator_alias p = (initiator_of p.initiator).alias

unfoldable pub set_initiator_alias : Str → Preferences → Preferences
set_initiator_alias alias p = change_initiator (λ i. record i { alias = some alias }) p

module _ {S : Type 0} (sec : SecKeychain S) where
  unfoldable pub with_initiator_iqn : {A : Type 0} → (Str → A) → Option Str → Option A
  with_initiator_iqn f none = none
  with_initiator_iqn f (some iqn) = some (f iqn)

  unfoldable pub set_initiator_chap_secret : Str → Preferences → S → Option (Bool × S)
  set_initiator_chap_secret secret p s =
      with_initiator_iqn (λ iqn. set_chap_secret_for_node sec iqn secret s) (copy_initiator_iqn p)

  unfoldable pub copy_initiator_chap_secret : Preferences → S → Option (Option Str)
  copy_initiator_chap_secret p s =
      with_initiator_iqn (λ iqn. copy_chap_secret_for_node sec iqn s) (copy_initiator_iqn p)

  unfoldable pub exists_initiator_chap_secret : Preferences → S → Option Bool
  exists_initiator_chap_secret p s =
      with_initiator_iqn (λ iqn. contains_chap_secret_for_node sec iqn s) (copy_initiator_iqn p)

  -- A secret moves to the new name: it is stored there first, and then deleted under the existing name.
  unfoldable pub move_secret : Str → Str → Option Str → S → S
  move_secret existing new none s = s
  move_secret existing new (some secret) s =
      (delete_chap_secret_for_node sec existing (set_chap_secret_for_node sec new secret s).1).1

  -- iSCSIPreferencesSetInitiatorIQN
  unfoldable pub set_initiator_iqn : Str → Preferences → S → Option (Preferences × S)
  set_initiator_iqn new p s =
      with_initiator_iqn
        (λ existing. (
          change_initiator (λ i. record i { iqn = some new }) p,
          move_secret existing new (copy_chap_secret_for_node sec existing s) s,
        ))
        (copy_initiator_iqn p)

-- The discovery's settings
unfoldable pub change_discovery : (DiscoveryDict → DiscoveryDict) → Preferences → Preferences
change_discovery f p = record p { discovery = some (f (discovery_of p.discovery)) }

unfoldable pub set_send_targets_discovery_enable : Bool → Preferences → Preferences
set_send_targets_discovery_enable enable p =
    change_discovery (λ d. record d { send_targets_enabled = some enable }) p

unfoldable pub get_send_targets_discovery_enable : Preferences → Option Bool × Preferences
get_send_targets_discovery_enable p =
    ((discovery_of p.discovery).send_targets_enabled, change_discovery (λ d. d) p)

-- A CFIndex is stored and read as 64 bits.
unfoldable pub set_send_targets_discovery_interval : ℕ → Preferences → Preferences
set_send_targets_discovery_interval interval p =
    change_discovery (λ d. record d { interval = some (interval % 2 ^ 64) }) p

unfoldable pub get_send_targets_discovery_interval : Preferences → Option ℕ × Preferences
get_send_targets_discovery_interval p =
    ((discovery_of p.discovery).interval, change_discovery (λ d. d) p)

-- iSCSIPreferencesReset
unfoldable pub reset : Preferences → Preferences
reset p = create

-- iSCSIPreferencesUpdateWithAppValues: what the system stores under the three keys, where it stores
-- something.
unfoldable pub or_stored : {A : Type 0} → Option A → Option A → Option A
or_stored none old = old
or_stored (some new) old = some new

unfoldable pub update_with_app_values : Preferences → Preferences → Preferences
update_with_app_values stored p = record {
  initiator = or_stored stored.initiator p.initiator;
  targets = or_stored stored.targets p.targets;
  discovery = or_stored stored.discovery p.discovery;
}
