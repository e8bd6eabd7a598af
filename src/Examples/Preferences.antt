-- ===== src/Examples/Preferences.antt =====
-- The theorems on the preferences and on the discovery, at a portal that lists a static target.
use i_scsiinitiator.Base.{
  Str, codes, ℕ, Bool, true, false, none, some, List, [], ◌∷◌, ◌≡◌, refl, str_eq, ◌+◌, map,
}
use i_scsiinitiator.Dict.{Dict, get, set_value}
use i_scsiinitiator.Dict.Laws.{lists, keys, is_some, remove_value}
use i_scsiinitiator.Keychain.{dictionary, dictionary-Works, delete_chap_secret_for_node}
use i_scsiinitiator.Target.{method_chap}
use i_scsiinitiator.Preferences.{
  Portal, TargetDict, DiscoveryPortal, Preferences, create, create_target_dict,
  create_discovery_dict, find_target, find_in, change_found, change_target, get_target_dict, put_in,
  put_target, get_targets, with_targets,
}
use i_scsiinitiator.Preferences.Targets.{
  get_auto_login_for_target, set_auto_login_for_target, config_of, config_text, config_type,
  get_target_config_type, or_kept, set_target_config_type,
}
use i_scsiinitiator.Preferences.Portals.{
  find_discovery_portal, find_discovery_portal_in, discovery_portals, discovery_portals_of, list_of,
  contains_target, add_dynamic_if, add_dynamic_target_for_send_targets, add_portal, associate,
  associate_at, create_portals_list, discovery_of, drop_target, dynamic_targets_at,
  get_dynamic_targets_for_send_targets, portals_or_new, put_discovery_portal, put_discovery_portals,
  remove_in, set_portal_for_target, with_portals, add_send_targets_discovery_portal,
}
use i_scsiinitiator.Preferences.Removal.{
  Store, remove_send_targets_discovery_portal, set_target_iqn, remove_target,
}
use i_scsiinitiator.Preferences.Managed.{listed_at, listed_of}
use i_scsiinitiator.Preferences.Filtered.{remove_send_targets_discovery_portal-filters}
use i_scsiinitiator.Preferences.Renaming.{moved, set_target_iqn-moves}
use i_scsiinitiator.Preferences.Settings.{get-set_settings}
use i_scsiinitiator.Discovery.{
  Managers, update_preferences_with_discovered_targets, cross_check_added, add_all_discovered,
  and_then, add_discovered, add_discovered_if, add_target_for_send_targets, add_target_at,
  add_groups, add_group, rec_get_portals, portals_in, add_found_portals, add_found_portal,
  cross_check, is_dynamic, log_out, remove_undiscovered,
}
use i_scsiinitiator.Discovery.Rounds.{process_discovery_data, process_records, next_record}
use i_scsiinitiator.Discovery.Processed.{is_confirmed, process_discovery_data-static}
use i_scsiinitiator.Discovery.Update.{update_preferences-static}
use i_scsiinitiator.Discovery.Timer.{
  Mutex, Documented, State, launch_discovery_thread, launch_all, creations, launch_all-free,
}

abbrev address : Str
address = codes "10.0.0.1"

abbrev iqn : Str
iqn = codes "iqn.a"

abbrev portal : Portal
portal = record { address = address; port = codes "3260"; host_interface = codes "en0" }

abbrev static : TargetDict
static = record create_target_dict {
  config_type = some (codes "Static");
  portals = some ((address, portal) ∷ []);
}

abbrev found_portal : DiscoveryPortal
found_portal = record {
  port = some (codes "3260");
  host_interface = some (codes "en0");
  targets = some (iqn ∷ []);
}

abbrev preferences : Preferences
preferences = record {
  initiator = none;
  targets = some ((iqn, static) ∷ []);
  discovery = some (record create_discovery_dict { portals = some ((address, found_portal) ∷ []) });
}

abbrev full_store : Store (Dict Str)
full_store = record { preferences = preferences; keychain = (iqn, codes "secret") ∷ [] }

remove_send_targets_discovery_portal-filters_example :
    find_target iqn (remove_send_targets_discovery_portal dictionary address full_store).preferences
    ≡ none
unfolding find_discovery_portal find_discovery_portal_in discovery_portals discovery_portals_of get
    str_eq list_of lists
remove_send_targets_discovery_portal-filters_example =
    (remove_send_targets_discovery_portal-filters dictionary address found_portal full_store refl
      dictionary-Works iqn).0

set_target_iqn-moves_example :
    find_target iqn (set_target_iqn dictionary iqn iqn full_store).preferences ≡ none
unfolding find_target find_in get str_eq moved
set_target_iqn-moves_example =
    (set_target_iqn-moves dictionary dictionary-Works iqn iqn static full_store refl refl iqn).0

get-set_settings_example :
    (get_auto_login_for_target iqn (set_auto_login_for_target iqn true create)).0 ≡ true
get-set_settings_example = (get-set_settings iqn create true method_chap (λ e. cc e)).0

-- A target that was discovered over the portal.
abbrev other : Str
other = codes "iqn.b"

abbrev dynamic : TargetDict
dynamic = record create_target_dict {
  config_type = some (codes "SendTargets");
  send_targets_portal = some address;
  portals = some ((address, portal) ∷ []);
}

unfoldable with_lists : List Str → List Str → Preferences
with_lists targets listed = record {
  initiator = none;
  targets = some (map (λ name. (name, dynamic)) targets);
  discovery = some (record create_discovery_dict {
    portals = some ((address, record found_portal { targets = some listed }) ∷ []);
  });
}

abbrev empty_store : Store (Dict Str)
empty_store = record { preferences = create; keychain = [] }

abbrev listening : Store (Dict Str)
listening = record empty_store { preferences = record (with_lists [] []) { targets = none } }

abbrev discovered : Store (Dict Str)
discovered = record empty_store { preferences = with_lists (other ∷ []) (other ∷ []) }

abbrev managers : Managers (Dict Str) ℕ
managers = record { store = full_store; sessions = 0 }

abbrev updated : Managers (Dict Str) ℕ
updated = record {
  store = record { preferences = with_lists (other ∷ []) (iqn ∷ other ∷ []); keychain = [] };
  sessions = 0;
}

updates :
    update_preferences_with_discovered_targets dictionary
      (λ name sessions. none)
      (λ session_id sessions. sessions)
      address
      ((other, (codes "1", portal ∷ []) ∷ []) ∷ [])
      managers
    ≡ some updated
unfolding update_preferences_with_discovered_targets cross_check_added add_all_discovered and_then
    add_discovered add_discovered_if add_target_for_send_targets add_target_at add_groups add_group
    rec_get_portals portals_in add_found_portals add_found_portal cross_check is_dynamic log_out
    remove_undiscovered change_found change_target get_target_dict put_in put_target get_targets
    with_targets find_target find_in config_of config_text config_type get_target_config_type
    or_kept set_target_config_type is_some remove_value set_value get lists keys contains_target
    add_dynamic_if add_dynamic_target_for_send_targets add_portal associate associate_at
    create_portals_list discovery_of discovery_portals discovery_portals_of drop_target
    dynamic_targets_at find_discovery_portal find_discovery_portal_in
    get_dynamic_targets_for_send_targets list_of portals_or_new put_discovery_portal
    put_discovery_portals remove_in set_portal_for_target with_portals
    add_send_targets_discovery_portal str_eq with_lists remove_target delete_chap_secret_for_node
updates = refl

update_preferences-static_example : find_target iqn updated.store.preferences ≡ none
unfolding with_lists find_target find_in get str_eq lists keys listed_at listed_of
    find_discovery_portal find_discovery_portal_in discovery_portals discovery_portals_of list_of
update_preferences-static_example =
    update_preferences-static dictionary (λ name sessions. none) (λ session_id sessions. sessions)
      address ((other, (codes "1", portal ∷ []) ∷ []) ∷ []) iqn static managers updated refl refl
      updates

-- A round that discovers the static target.
confirms :
    process_discovery_data dictionary
      (λ name sessions. none)
      (λ session_id sessions. sessions)
      (some ((address, (iqn, (codes "1", portal ∷ []) ∷ []) ∷ []) ∷ []))
      preferences
      managers
    ≡ some managers
unfolding process_discovery_data process_records next_record
    update_preferences_with_discovered_targets cross_check_added add_all_discovered and_then
    add_discovered add_discovered_if add_target_for_send_targets add_target_at add_groups add_group
    rec_get_portals portals_in add_found_portals add_found_portal cross_check is_dynamic log_out
    remove_undiscovered change_found change_target get_target_dict put_in put_target get_targets
    with_targets find_target find_in config_of config_text config_type get_target_config_type
    or_kept set_target_config_type is_some remove_value set_value get lists keys contains_target
    add_dynamic_if add_dynamic_target_for_send_targets add_portal associate associate_at
    create_portals_list discovery_of discovery_portals discovery_portals_of drop_target
    dynamic_targets_at find_discovery_portal find_discovery_portal_in
    get_dynamic_targets_for_send_targets list_of portals_or_new put_discovery_portal
    put_discovery_portals remove_in set_portal_for_target with_portals
    add_send_targets_discovery_portal str_eq with_lists remove_target delete_chap_secret_for_node
confirms = refl

process_discovery_data-static_example : find_target iqn managers.store.preferences ≡ some static
unfolding find_target find_in get str_eq is_confirmed lists keys listed_at listed_of
    find_discovery_portal find_discovery_portal_in discovery_portals discovery_portals_of list_of
process_discovery_data-static_example =
    process_discovery_data-static dictionary (λ name sessions. none)
      (λ session_id sessions. sessions) iqn static refl
      ((address, (iqn, (codes "1", portal ∷ []) ∷ []) ∷ []) ∷ []) preferences managers managers refl
      refl confirms

-- A mutex is whether it is held.
abbrev mutex : Mutex Bool
mutex = record { held = λ m. m; trylock = λ m. (m, true); unlock = λ m. false }

documented : Documented mutex
documented = record { fails = λ m. refl; taken = λ m. refl }

abbrev unlocked : State Bool
unlocked = record { discovery_mutex = false; threads = 0 }

launch_all-free_example :
    ((launch_discovery_thread mutex true unlocked).threads ≡ 0)
    × (mutex.held (launch_discovery_thread mutex true unlocked).discovery_mutex ≡ true)
    × ((launch_all mutex (true ∷ true ∷ true ∷ []) unlocked).threads ≡ 0 + 2)
unfolding creations
launch_all-free_example = launch_all-free mutex documented true (true ∷ true ∷ []) unlocked refl
