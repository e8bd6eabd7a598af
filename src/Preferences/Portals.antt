-- ===== src/Preferences/Portals.antt =====
-- Source/User/iSCSI Framework/iSCSIPreferences.c: targets with their portals, and discovery portals with
-- the targets found over them.
use i_scsiinitiator.Base.{
  Str, codes, Bool, true, false, Option, none, some, List, [], ◌∷◌, ◌++◌, if◌then◌else◌,
}
use i_scsiinitiator.Dict.{Dict, get, set_value}
use i_scsiinitiator.Dict.Laws.{is_some, lists, remove_value, keys}
use i_scsiinitiator.Preferences.{
  Portal, DiscoveryPortal, DiscoveryDict, Preferences, create_discovery_dict, get_targets,
  find_target, get_target_dict, change_target,
}
use i_scsiinitiator.Preferences.Targets.{
  config_static, config_dynamic_send_targets, field_of, set_target_config_type,
}

-- The change of iSCSIPreferencesGetPortalsList with createIfMissing.
unfoldable pub with_portals : Option (Dict Portal) → Option (Dict Portal)
with_portals none = some []
with_portals (some portals) = some portals

unfoldable pub create_portals_list : Str → Preferences → Preferences
create_portals_list iqn p =
    change_target iqn (λ t. record t { portals = with_portals t.portals })
      (get_target_dict iqn true p)

-- What iSCSIPreferencesGetPortalsList returns without createIfMissing.
unfoldable pub get_portals_list : Str → Preferences → Option (Dict Portal)
get_portals_list iqn p = field_of (λ t. t.portals) (find_target iqn p)

unfoldable pub add_portal : Portal → Option (Dict Portal) → Option (Dict Portal)
add_portal portal none = none
add_portal portal (some portals) = some (set_value portal.address portal portals)

-- iSCSIPreferencesSetPortalForTarget, for a portal that is not NULL
unfoldable pub set_portal_for_target : Str → Portal → Preferences → Preferences
set_portal_for_target iqn portal p =
    change_target iqn (λ t. record t { portals = add_portal portal t.portals }) p

unfoldable pub portal_in : Str → Option (Dict Portal) → Option Portal
portal_in address none = none
portal_in address (some portals) = get address portals

-- iSCSIPreferencesCopyPortalForTarget and iSCSIPreferencesContainsPortalForTarget
unfoldable pub copy_portal_for_target : Str → Str → Preferences → Option Portal
copy_portal_for_target iqn address p = portal_in address (get_portals_list iqn p)

unfoldable pub contains_portal_for_target : Str → Str → Preferences → Bool
contains_portal_for_target iqn address p = is_some (copy_portal_for_target iqn address p)

-- iSCSIPreferencesContainsTarget
unfoldable pub contains_target : Str → Preferences → Bool × Preferences
contains_target iqn p = let q = get_targets true p in (is_some (find_target iqn q), q)

-- The keys of a dictionary that may be missing; an empty array is returned as NULL.
unfoldable pub array_of_keys : {V : Type 0} → Option (Dict V) → Option (List Str)
array_of_keys none = none
array_of_keys (some []) = none
array_of_keys (some (entry ∷ rest)) = some (keys (entry ∷ rest))

unfoldable pub create_array_of_targets : Preferences → Option (List Str)
create_array_of_targets p = array_of_keys p.targets

unfoldable pub create_array_of_portals_for_target : Str → Preferences → Option (List Str)
create_array_of_portals_for_target iqn p = array_of_keys (get_portals_list iqn p)

unfoldable pub add_static_target_if : Bool → Str → Portal → Preferences → Preferences
add_static_target_if true iqn portal p = p
add_static_target_if false iqn portal p =
    set_target_config_type iqn config_static
      (set_portal_for_target iqn portal (create_portals_list iqn p))

-- iSCSIPreferencesAddStaticTarget
unfoldable pub add_static_target : Str → Portal → Preferences → Preferences
add_static_target iqn portal p =
    let (exists, q) = contains_target iqn p in add_static_target_if exists iqn portal q

-- The discovery dictionary, created if it is missing, and its portals.
unfoldable pub discovery_of : Option DiscoveryDict → DiscoveryDict
discovery_of none = create_discovery_dict
discovery_of (some d) = d

unfoldable pub discovery_portals_of : Option DiscoveryDict → Option (Dict DiscoveryPortal)
discovery_portals_of none = none
discovery_portals_of (some d) = d.portals

-- iSCSIPreferencesGetSendTargetsDiscoveryPortals without createIfMissing
unfoldable pub discovery_portals : Preferences → Option (Dict DiscoveryPortal)
discovery_portals p = discovery_portals_of p.discovery

unfoldable pub portals_or_new : Option (Dict DiscoveryPortal) → Dict DiscoveryPortal
portals_or_new none = []
portals_or_new (some portals) = portals

unfoldable pub put_discovery_portals : Dict DiscoveryPortal → Preferences → Preferences
put_discovery_portals portals p = record p {
  discovery = some (record (discovery_of p.discovery) { portals = some portals });
}

unfoldable pub find_discovery_portal_in :
    Str → Option (Dict DiscoveryPortal) → Option DiscoveryPortal
find_discovery_portal_in address none = none
find_discovery_portal_in address (some portals) = get address portals

unfoldable pub find_discovery_portal : Str → Preferences → Option DiscoveryPortal
find_discovery_portal address p = find_discovery_portal_in address (discovery_portals p)

unfoldable pub put_discovery_portal : Str → DiscoveryPortal → Preferences → Preferences
put_discovery_portal address d p =
    put_discovery_portals (set_value address d (portals_or_new (discovery_portals p))) p

-- iSCSIPreferencesAddSendTargetsDiscoveryPortal, for a portal that is not NULL
unfoldable pub add_send_targets_discovery_portal : Portal → Preferences → Preferences
add_send_targets_discovery_portal portal p =
    let opened = put_discovery_portals (portals_or_new (discovery_portals p)) p in
    if is_some (find_discovery_portal portal.address p)
    then opened
    else put_discovery_portal portal.address
        (record {
          port = some portal.port;
          host_interface = some portal.host_interface;
          targets = some [];
        })
        opened

-- iSCSIPreferencesContainsPortalForSendTargetsDiscovery
unfoldable pub contains_portal_for_send_targets_discovery : Str → Preferences → Bool
contains_portal_for_send_targets_discovery address p = is_some (find_discovery_portal address p)

-- iSCSIPreferencesCopySendTargetsDiscoveryPortal: a setter of a portal passes over a blank address and a
-- blank port, which leaves the default.
unfoldable pub or_default : Str → Option Str → Str
or_default fallback none = fallback
or_default fallback (some text) = text

unfoldable pub not_blank : Str → Str → Str
not_blank fallback [] = fallback
not_blank fallback (c ∷ text) = c ∷ text

unfoldable pub discovery_portal_at : Str → Option DiscoveryPortal → Option Portal
discovery_portal_at address none = none
discovery_portal_at address (some d) = some (record {
  address = not_blank [] address;
  port = not_blank (codes "3260") (or_default (codes "3260") d.port);
  host_interface = or_default (codes "default") d.host_interface;
})

unfoldable pub copy_send_targets_discovery_portal : Str → Preferences → Option Portal
copy_send_targets_discovery_portal address p =
    discovery_portal_at address (find_discovery_portal address p)

unfoldable pub create_array_of_portals_for_send_targets_discovery : Preferences → Option (List Str)
create_array_of_portals_for_send_targets_discovery p = array_of_keys (discovery_portals p)

-- iSCSIPreferencesGetDynamicTargetsForSendTargets: the list of a portal, which is created where the
-- portal has none. The argument createIfMissing is not used.
unfoldable pub list_of : Option (List Str) → List Str
list_of none = []
list_of (some targets) = targets

unfoldable pub dynamic_targets_at :
    Str → Option DiscoveryPortal → Preferences → Option (List Str) × Preferences
dynamic_targets_at address none p = (none, p)
dynamic_targets_at address (some d) p = (
  some (list_of d.targets),
  put_discovery_portal address (record d { targets = some (list_of d.targets) }) p,
)

unfoldable pub get_dynamic_targets_for_send_targets :
    Str → Preferences → Option (List Str) × Preferences
get_dynamic_targets_for_send_targets address p =
    dynamic_targets_at address (find_discovery_portal address p) p

-- The association of a target with a discovery portal, at the end of the function below. Without the
-- portal, the array is NULL.
unfoldable pub associate_at : Str → Str → Option DiscoveryPortal → Preferences → Option Preferences
associate_at iqn address none p = none
associate_at iqn address (some d) p =
    let targets = list_of d.targets in
    some (
      put_discovery_portal address
        (record d { targets = some (if lists iqn targets then targets else targets ++ iqn ∷ []) })
        p)

unfoldable pub associate : Str → Str → Preferences → Option Preferences
associate iqn address p = associate_at iqn address (find_discovery_portal address p) p

unfoldable pub add_dynamic_if : Bool → Str → Portal → Str → Preferences → Preferences
add_dynamic_if true iqn portal address p = p
add_dynamic_if false iqn portal address p =
    let managed =
      change_target iqn (λ t. record t { send_targets_portal = some address })
        (get_target_dict iqn true p) in
    set_target_config_type iqn config_dynamic_send_targets
      (set_portal_for_target iqn portal (create_portals_list iqn managed))

-- iSCSIPreferencesAddDynamicTargetForSendTargets
unfoldable pub add_dynamic_target_for_send_targets :
    Str → Portal → Str → Preferences → Option Preferences
add_dynamic_target_for_send_targets iqn portal address p =
    let (exists, q) = contains_target iqn p in
    associate iqn address (add_dynamic_if exists iqn portal address q)

-- CFDictionaryRemoveValue on a table that may be missing
unfoldable pub remove_in : {V : Type 0} → Str → Option (Dict V) → Option (Dict V)
remove_in key none = none
remove_in key (some entries) = some (remove_value key entries)

unfoldable pub drop_target : Str → Preferences → Preferences
drop_target iqn p = record p { targets = remove_in iqn p.targets }
