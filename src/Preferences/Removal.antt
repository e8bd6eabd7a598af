-- ===== src/Preferences/Removal.antt =====
-- Source/User/iSCSI Framework/iSCSIPreferences.c: the operations that remove or rename a target, with its
-- secret in the keychain.
use i_scsiinitiator.Base.{Str, ◌==◌, length, Option, none, some, List, [], ◌∷◌, if◌then◌else◌}
use i_scsiinitiator.Dict.{Dict}
use i_scsiinitiator.Dict.Laws.{remove_value}
use i_scsiinitiator.Keychain.{SecKeychain, copy_chap_secret_for_node, delete_chap_secret_for_node}
use i_scsiinitiator.Preferences.{
  Portal, TargetDict, DiscoveryPortal, Preferences, find_target, put_target, change_target,
}
use i_scsiinitiator.Preferences.Targets.{ConfigType, config_static, get_target_config_type}
use i_scsiinitiator.Preferences.Portals.{
  get_portals_list, find_discovery_portal, discovery_portals, get_dynamic_targets_for_send_targets,
  put_discovery_portals, remove_in, drop_target, list_of,
}
use i_scsiinitiator.Preferences.Initiator.{move_secret}

-- The preferences object together with the keychain.
pub record Store (S : Type 0) : Type 0 where
  pub preferences : Preferences
  pub keychain : S

-- CFDictionaryRemoveValue(discoveryPortals,portalAddress)
unfoldable pub drop_discovery_portal_in :
    Str → Option (Dict DiscoveryPortal) → Preferences → Preferences
drop_discovery_portal_in address none p = p
drop_discovery_portal_in address (some portals) p =
    put_discovery_portals (remove_value address portals) p

unfoldable pub drop_discovery_portal : Str → Preferences → Preferences
drop_discovery_portal address p = drop_discovery_portal_in address (discovery_portals p) p

module _ {S : Type 0} (sec : SecKeychain S) where
  -- iSCSIPreferencesRemoveTarget
  unfoldable pub remove_target : Str → Store S → Store S
  remove_target iqn st = record {
    preferences = drop_target iqn st.preferences;
    keychain = (delete_chap_secret_for_node sec iqn st.keychain).1;
  }

  -- iSCSIPreferencesRemovePortalForTarget: with one portal, the target goes.
  unfoldable pub remove_portal_from : Str → Str → Option (Dict Portal) → Store S → Store S
  remove_portal_from iqn address none st = st
  remove_portal_from iqn address (some portals) st =
      if length portals == 1 then remove_target iqn st else record st {
        preferences =
            change_target iqn (λ t. record t { portals = remove_in address t.portals })
              st.preferences;
      }

  unfoldable pub remove_portal_for_target : Str → Str → Store S → Store S
  remove_portal_for_target iqn address st =
      remove_portal_from iqn address (get_portals_list iqn st.preferences) st

  -- The loop over a portal's targets.
  unfoldable pub remove_targets : List Str → Store S → Store S
  remove_targets [] st = st
  remove_targets (iqn ∷ rest) st = remove_targets rest (remove_target iqn st)

  unfoldable pub remove_discovery_portal_found : Str → Option DiscoveryPortal → Store S → Store S
  remove_discovery_portal_found address none st = st
  remove_discovery_portal_found address (some d) st =
      let (targets, p) = get_dynamic_targets_for_send_targets address st.preferences in
      let removed = remove_targets (list_of targets) (record st { preferences = p }) in
      record removed { preferences = drop_discovery_portal address removed.preferences }

  -- iSCSIPreferencesRemoveSendTargetsDiscoveryPortal, by the portal's address
  unfoldable pub remove_send_targets_discovery_portal : Str → Store S → Store S
  remove_send_targets_discovery_portal address st =
      remove_discovery_portal_found address (find_discovery_portal address st.preferences) st

  -- The end of iSCSIPreferencesSetTargetIQN: the dictionary is stored under the new name, and then what
  -- stands under the existing name is removed.
  unfoldable pub rename : Str → Str → Option TargetDict → Store S → Store S
  rename existing new none st = st
  rename existing new (some t) st = record {
    preferences = drop_target existing (put_target new t st.preferences);
    keychain =
        move_secret sec existing new (copy_chap_secret_for_node sec existing st.keychain)
          st.keychain;
  }

  unfoldable pub rename_if_static : ConfigType → Str → Str → Store S → Store S
  rename_if_static config_static existing new st =
      rename existing new (find_target existing st.preferences) st
  rename_if_static _ existing new st = st

  -- iSCSIPreferencesSetTargetIQN
  unfoldable pub set_target_iqn : Str → Str → Store S → Store S
  set_target_iqn existing new st =
      let (kind, p) = get_target_config_type existing st.preferences in
      rename_if_static kind existing new (record st { preferences = p })
