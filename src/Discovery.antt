-- ===== src/Discovery.antt =====
-- Discovery records (Source/User/iSCSI Framework/iSCSITypes.c) and what the daemon makes of them
-- (Source/User/iscsid/iSCSIDiscovery.c; iSCSIDAddTargetForSendTargets of iSCSIDaemon.c has the same text
-- as iSCSIDiscoveryAddTargetForSendTargets). The session manager is a parameter. A result that is none
-- stands for the end of the process, where the code hands NULL to CoreFoundation.
pub mod Static
pub mod Adding
pub mod Update
pub mod Rounds
pub mod Processed
pub mod Timer
use i_scsiinitiator.Base.{
  Str, ℕ, Bool, true, false, Option, none, some, List, [], ◌∷◌, ◌++◌, if◌then◌else◌,
}
use i_scsiinitiator.Dict.{Dict, get, set_value}
use i_scsiinitiator.Dict.Laws.{lists, keys}
use i_scsiinitiator.Keychain.{SecKeychain}
use i_scsiinitiator.Preferences.{Portal, Preferences}
use i_scsiinitiator.Preferences.Targets.{
  ConfigType, config_static, config_dynamic_send_targets, config_invalid, get_target_config_type,
}
use i_scsiinitiator.Preferences.Portals.{
  contains_target, set_portal_for_target, add_dynamic_target_for_send_targets,
  get_dynamic_targets_for_send_targets,
}
use i_scsiinitiator.Preferences.Removal.{Store, remove_target}

-- Targets by name, with their portals by portal group tag.
abbrev pub DiscoveryRec : Type 0
DiscoveryRec = Dict (Dict (List Portal))

unfoldable pub groups_of : Option (Dict (List Portal)) → Dict (List Portal)
groups_of none = []
groups_of (some groups) = groups

unfoldable pub portals_of : Option (List Portal) → List Portal
portals_of none = []
portals_of (some portals) = portals

-- iSCSIDiscoveryRecAddPortal and iSCSIDiscoveryRecAddTarget, for arguments that are not NULL
unfoldable pub rec_add_portal : Str → Str → Portal → DiscoveryRec → DiscoveryRec
rec_add_portal iqn tag portal r =
    let groups = groups_of (get iqn r) in
    set_value iqn (set_value tag (portals_of (get tag groups) ++ portal ∷ []) groups) r

unfoldable pub rec_add_target : Str → DiscoveryRec → DiscoveryRec
rec_add_target iqn r = set_value iqn (groups_of (get iqn r)) r

-- iSCSIDiscoveryRecGetPortals
unfoldable pub portals_in : Str → Option (Dict (List Portal)) → Option (List Portal)
portals_in tag none = none
portals_in tag (some groups) = get tag groups

unfoldable pub rec_get_portals : Str → Str → DiscoveryRec → Option (List Portal)
rec_get_portals iqn tag r = portals_in tag (get iqn r)

-- One round of the inner loop of iSCSIDiscoveryAddTargetForSendTargets.
unfoldable pub add_found_portal : Str → Str → Portal → Preferences → Option Preferences
add_found_portal iqn address portal p =
    let (exists, q) = contains_target iqn p in
    if exists
    then some (set_portal_for_target iqn portal q)
    else add_dynamic_target_for_send_targets iqn portal address q

-- The loops go on with what the round before returned.
unfoldable pub and_then :
    Option Preferences → (Preferences → Option Preferences) → Option Preferences
and_then none f = none
and_then (some p) f = f p

unfoldable pub add_found_portals : Str → Str → List Portal → Preferences → Option Preferences
add_found_portals iqn address [] p = some p
add_found_portals iqn address (portal ∷ rest) p =
    and_then (add_found_portal iqn address portal p) (λ q. add_found_portals iqn address rest q)

unfoldable pub add_group : Str → Str → Option (List Portal) → Preferences → Option Preferences
add_group iqn address none p = none
add_group iqn address (some portals) p = add_found_portals iqn address portals p

unfoldable pub add_groups : DiscoveryRec → Str → Str → List Str → Preferences → Option Preferences
add_groups r iqn address [] p = some p
add_groups r iqn address (tag ∷ rest) p =
    and_then (add_group iqn address (rec_get_portals iqn tag r) p)
      (λ q. add_groups r iqn address rest q)

-- iSCSIDiscoveryAddTargetForSendTargets
unfoldable pub add_target_at :
    DiscoveryRec → Str → Str → Option (Dict (List Portal)) → Preferences → Option Preferences
add_target_at r iqn address none p = none
add_target_at r iqn address (some groups) p = add_groups r iqn address (keys groups) p

unfoldable pub add_target_for_send_targets :
    DiscoveryRec → Str → Str → Preferences → Option Preferences
add_target_for_send_targets r iqn address p = add_target_at r iqn address (get iqn r) p

-- The test of a discovered target: one that is not configured by SendTargets is passed over.
unfoldable pub is_dynamic : ConfigType → Bool
is_dynamic config_static = false
is_dynamic config_dynamic_send_targets = true
is_dynamic config_invalid = false

unfoldable pub add_discovered_if :
    Bool → DiscoveryRec → Str → Str → Preferences → Option Preferences
add_discovered_if true r iqn address p =
    let (kind, q) = get_target_config_type iqn p in
    if is_dynamic kind then add_target_for_send_targets r iqn address q else some q
add_discovered_if false r iqn address p = add_target_for_send_targets r iqn address p

unfoldable pub add_discovered : DiscoveryRec → Str → Str → Preferences → Option Preferences
add_discovered r iqn address p =
    let (exists, q) = contains_target iqn p in add_discovered_if exists r iqn address q

unfoldable pub add_all_discovered : DiscoveryRec → Str → List Str → Preferences → Option Preferences
add_all_discovered r address [] p = some p
add_all_discovered r address (iqn ∷ rest) p =
    and_then (add_discovered r iqn address p) (λ q. add_all_discovered r address rest q)

-- The preferences with the keychain, and the sessions.
pub record Managers (S L : Type 0) : Type 0 where
  pub store : Store S
  pub sessions : L

module _ {S L : Type 0} (sec : SecKeychain S) (session_id_for_target : Str → L → Option ℕ)
    (session_logout : ℕ → L → L) where
  unfoldable pub log_out : Option ℕ → L → L
  log_out none sessions = sessions
  log_out (some session_id) sessions = session_logout session_id sessions

  -- The removal of the portal's targets that were not discovered.
  unfoldable pub remove_undiscovered : DiscoveryRec → List Str → Managers S L → Managers S L
  remove_undiscovered r [] m = m
  remove_undiscovered r (iqn ∷ rest) m = remove_undiscovered r rest (
      if lists iqn (keys r) then m else record {
        store = remove_target sec iqn m.store;
        sessions = log_out (session_id_for_target iqn m.sessions) m.sessions;
      })

  unfoldable pub cross_check :
      DiscoveryRec → Option (List Str) × Preferences → Managers S L → Option (Managers S L)
  cross_check r (none, p) m = none
  cross_check r (some existing, p) m =
      some
        (remove_undiscovered r existing (record m { store = record m.store { preferences = p } }))

  unfoldable pub cross_check_added :
      DiscoveryRec → Str → Option Preferences → Managers S L → Option (Managers S L)
  cross_check_added r address none m = none
  cross_check_added r address (some p) m =
      cross_check r (get_dynamic_targets_for_send_targets address p) m

  -- iSCSIDiscoveryUpdatePreferencesWithDiscoveredTargets
  unfoldable pub update_preferences_with_discovered_targets :
      Str → DiscoveryRec → Managers S L → Option (Managers S L)
  update_preferences_with_discovered_targets address r m =
      cross_check_added r address (add_all_discovered r address (keys r) m.store.preferences) m
