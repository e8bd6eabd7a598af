-- ===== src/Preferences/Operations.antt =====
-- Source/User/iSCSI Framework/iSCSIPreferences.c: the operations on a preferences object, and the states
-- that they lead to from an empty one. Of the getters, those that create a missing target change the object
-- as iSCSIPreferencesGetAutoLoginForTarget does; the others are left out.
use i_scsiinitiator.Base.{Str, ℕ, ◌&&◌, Bool, true, false, Option, none, some, ◌≡◌}
use i_scsiinitiator.Target.{AuthMethod}
use i_scsiinitiator.Keychain.{SecKeychain}
use i_scsiinitiator.Dict.Laws.{is_some}
use i_scsiinitiator.Preferences.{Portal, Preferences, create, find_target}
use i_scsiinitiator.Preferences.Targets.{
  ConfigType, config_static, set_target_config_type, field_of, DigestType,
  set_max_connections_for_target, set_error_recovery_level_for_target, set_data_digest_for_target,
  set_header_digest_for_target, set_auto_login_for_target, get_auto_login_for_target,
  set_persistence_for_target, set_target_alias, set_target_authentication_method,
  set_target_chap_name,
}
use i_scsiinitiator.Preferences.Portals.{
  set_portal_for_target, add_static_target, add_dynamic_target_for_send_targets,
  add_send_targets_discovery_portal,
}
use i_scsiinitiator.Preferences.Initiator.{
  update_with_app_values, set_initiator_iqn, set_send_targets_discovery_enable,
  set_send_targets_discovery_interval, reset,
}
use i_scsiinitiator.Preferences.Removal.{
  Store, remove_target, remove_portal_for_target, remove_send_targets_discovery_portal,
  set_target_iqn,
}

pub data Operation : Type 0 where
  max_connections error_recovery_level : Str → ℕ → Operation
  data_digest header_digest : Str → DigestType → Operation
  auto_login persistence : Str → Bool → Operation
  read_auto_login : Str → Operation
  target_alias chap_name : Str → Str → Operation
  authentication_method : Str → AuthMethod → Operation
  set_portal static_target : Str → Portal → Operation
  dynamic_target : Str → Portal → Str → Operation
  remove_portal : Str → Str → Operation
  remove : Str → Operation
  target_iqn : Str → Str → Operation
  discovery_portal : Portal → Operation
  remove_discovery : Str → Operation
  initiator_iqn : Str → Operation
  discovery_enable : Bool → Operation
  discovery_interval : ℕ → Operation
  config_type : Str → ConfigType → Operation
  reset_all : Operation

-- A change of the preferences alone, where it returns.
unfoldable pub stored : {S : Type 0} → Store S → Option Preferences → Option (Store S)
stored st none = none
stored st (some p) = some (record st { preferences = p })

unfoldable pub stored_both : {S : Type 0} → Option (Preferences × S) → Option (Store S)
stored_both none = none
stored_both (some (p, s)) = some (record { preferences = p; keychain = s })

-- A target that a discovery portal manages is not to be made static.
unfoldable pub keeps_managed : ConfigType → Option Str → Bool
keeps_managed config_static (some address) = false
keeps_managed kind manager = true

unfoldable pub is_allowed : {S : Type 0} → Operation → Store S → Bool
is_allowed (config_type iqn kind) st =
    keeps_managed kind (field_of (λ t. t.send_targets_portal) (find_target iqn st.preferences))
is_allowed operation st = true

-- An object that has its table of targets and its discovery, so that both are stored together.
unfoldable pub is_whole : Preferences → Bool
is_whole p = is_some p.targets && is_some p.discovery

module _ {S : Type 0} (sec : SecKeychain S) where
  unfoldable pub perform : Operation → Store S → Option (Store S)
  perform (max_connections iqn n) st =
      stored st (set_max_connections_for_target iqn n st.preferences)
  perform (error_recovery_level iqn n) st =
      stored st (set_error_recovery_level_for_target iqn n st.preferences)
  perform (data_digest iqn digest) st =
      stored st (some (set_data_digest_for_target iqn digest st.preferences))
  perform (header_digest iqn digest) st =
      stored st (some (set_header_digest_for_target iqn digest st.preferences))
  perform (auto_login iqn b) st = stored st (some (set_auto_login_for_target iqn b st.preferences))
  perform (persistence iqn b) st =
      stored st (some (set_persistence_for_target iqn b st.preferences))
  perform (read_auto_login iqn) st =
      stored st (some (get_auto_login_for_target iqn st.preferences).1)
  perform (target_alias iqn alias) st = stored st (some (set_target_alias iqn alias st.preferences))
  perform (chap_name iqn name) st = stored st (some (set_target_chap_name iqn name st.preferences))
  perform (authentication_method iqn method) st =
      stored st (some (set_target_authentication_method iqn method st.preferences))
  perform (set_portal iqn portal) st =
      stored st (some (set_portal_for_target iqn portal st.preferences))
  perform (static_target iqn portal) st =
      stored st (some (add_static_target iqn portal st.preferences))
  perform (dynamic_target iqn portal address) st =
      stored st (add_dynamic_target_for_send_targets iqn portal address st.preferences)
  perform (remove_portal iqn address) st = some (remove_portal_for_target sec iqn address st)
  perform (remove iqn) st = some (remove_target sec iqn st)
  perform (target_iqn existing new) st = some (set_target_iqn sec existing new st)
  perform (discovery_portal portal) st =
      stored st (some (add_send_targets_discovery_portal portal st.preferences))
  perform (remove_discovery address) st = some (remove_send_targets_discovery_portal sec address st)
  perform (initiator_iqn iqn) st =
      stored_both (set_initiator_iqn sec iqn st.preferences st.keychain)
  perform (discovery_enable b) st =
      stored st (some (set_send_targets_discovery_enable b st.preferences))
  perform (discovery_interval n) st =
      stored st (some (set_send_targets_discovery_interval n st.preferences))
  perform (config_type iqn kind) st =
      stored st (some (set_target_config_type iqn kind st.preferences))
  perform reset_all st = stored st (some (reset st.preferences))

  -- The states that operations lead to from an empty preferences object and some keychain, where no
  -- managed target is made static, and what is loaded has the targets and the discovery of one object
  -- that had both.
  pub data Reachable : Store S → Type 0 where
    created : (s : S) → Reachable (record { preferences = create; keychain = s })
    performs :
        (operation : Operation) (st after : Store S)
        → Reachable st
        → is_allowed operation st ≡ true
        → perform operation st ≡ some after
        → Reachable after
    loads :
        (system : Preferences) (storing st : Store S)
        → Reachable storing
        → Reachable st
        → is_whole storing.preferences ≡ true
        → system.targets ≡ storing.preferences.targets
        → system.discovery ≡ storing.preferences.discovery
        → Reachable (record st { preferences = update_with_app_values system st.preferences })
