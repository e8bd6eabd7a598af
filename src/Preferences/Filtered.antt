-- ===== src/Preferences/Filtered.antt =====
-- Source/User/iSCSI Framework/iSCSIPreferences.c: the removal of a discovery portal as one filter.
use i_scsiinitiator.Base.{
  Str, str_eq, Option, none, some, List, [], ◌∷◌, ◌≡◌, refl, ◌∙◌, arith, if◌then◌else◌,
}
use i_scsiinitiator.Dict.{Dict}
use i_scsiinitiator.Dict.Laws.{lists, str_eq_iff, get-remove_value}
use i_scsiinitiator.Keychain.{
  SecKeychain, Works, copy_chap_secret_for_node, copy-delete_chap_secret_for_node,
}
use i_scsiinitiator.Preferences.{DiscoveryPortal, Preferences, find_target}
use i_scsiinitiator.Preferences.Portals.{
  find_discovery_portal, find_discovery_portal_in, discovery_portals, discovery_portals_of,
  put_discovery_portals, put_discovery_portal, get_dynamic_targets_for_send_targets,
  dynamic_targets_at, drop_target, list_of,
}
use i_scsiinitiator.Preferences.Lookups.{
  find_target-drop_target, find_target-put_discovery_portal,
  find_discovery_portal-put_discovery_portal, find_discovery_portal-same,
}
use i_scsiinitiator.Preferences.Removal.{
  Store, remove_target, remove_targets, drop_discovery_portal, drop_discovery_portal_in,
  remove_discovery_portal_found, remove_send_targets_discovery_portal,
}

module _ {S : Type 0} (sec : SecKeychain S) where
  pub find_target-remove_targets :
      (targets : List Str) (k : Str) (st : Store S)
      → find_target k (remove_targets sec targets st).preferences
        ≡ (if lists k targets then none else find_target k st.preferences)
  unfolding remove_targets remove_target lists
  find_target-remove_targets [] k st = refl
  find_target-remove_targets (iqn ∷ rest) k st = ground (
    arith,
    find_target-remove_targets rest k (remove_target sec iqn st),
    find_target-drop_target iqn k st.preferences,
  )

  pub discovery-remove_targets :
      (targets : List Str) (st : Store S)
      → (remove_targets sec targets st).preferences.discovery ≡ st.preferences.discovery
  unfolding remove_targets remove_target drop_target
  discovery-remove_targets [] st = refl
  discovery-remove_targets (iqn ∷ rest) st =
      discovery-remove_targets rest (remove_target sec iqn st)

  pub secret-remove_targets :
      (works : Works sec) (targets : List Str) (k : Str) (st : Store S)
      → copy_chap_secret_for_node sec k (remove_targets sec targets st).keychain
        ≡ (if lists k targets then none else copy_chap_secret_for_node sec k st.keychain)
  unfolding remove_targets remove_target lists
  secret-remove_targets works [] k st = refl
  secret-remove_targets works (iqn ∷ rest) k st = ground (
    arith,
    secret-remove_targets works rest k (remove_target sec iqn st),
    copy-delete_chap_secret_for_node sec works iqn k st.keychain,
  )

find_discovery_portal-drop_in :
    (address k : Str) (o : Option (Dict DiscoveryPortal)) (p : Preferences)
    → discovery_portals p ≡ o
    → find_discovery_portal k (drop_discovery_portal_in address o p)
      ≡ (if str_eq address k then none else find_discovery_portal_in k o)
unfolding drop_discovery_portal_in find_discovery_portal find_discovery_portal_in discovery_portals
    discovery_portals_of put_discovery_portals
find_discovery_portal-drop_in address k none p h = rw h (ground arith)
find_discovery_portal-drop_in address k (some portals) p h = get-remove_value address k portals

pub find_discovery_portal-drop_discovery_portal :
    (address k : Str) (p : Preferences)
    → find_discovery_portal k (drop_discovery_portal address p)
      ≡ (if str_eq address k then none else find_discovery_portal k p)
unfolding drop_discovery_portal find_discovery_portal
find_discovery_portal-drop_discovery_portal address k p =
    find_discovery_portal-drop_in address k (discovery_portals p) p refl

find_target-drop_in :
    (address k : Str) (o : Option (Dict DiscoveryPortal)) (p : Preferences)
    → find_target k (drop_discovery_portal_in address o p) ≡ find_target k p
unfolding drop_discovery_portal_in find_target put_discovery_portals
find_target-drop_in address k none p = refl
find_target-drop_in address k (some portals) p = refl

module _ {S : Type 0} (sec : SecKeychain S) (address : Str) (d : DiscoveryPortal) (st : Store S)
    (found : find_discovery_portal address st.preferences ≡ some d) where
  get_dynamic_targets-found : get_dynamic_targets_for_send_targets address st.preferences ≡ (
    some (list_of d.targets),
    put_discovery_portal address (record d { targets = some (list_of d.targets) }) st.preferences,
  )
  unfolding get_dynamic_targets_for_send_targets dynamic_targets_at
  get_dynamic_targets-found = rw found refl

  kept : DiscoveryPortal
  kept = record d { targets = some (list_of d.targets) }

  opened : Store S
  unfolding kept
  opened = record st { preferences = put_discovery_portal address kept st.preferences }

  pub find_target-remove_discovery_portal :
      (k : Str)
      → find_target k (remove_send_targets_discovery_portal sec address st).preferences
        ≡ (if lists k (list_of d.targets) then none else find_target k st.preferences)
  unfolding remove_send_targets_discovery_portal remove_discovery_portal_found list_of opened kept
  find_target-remove_discovery_portal k = rw found (
      rw get_dynamic_targets-found (
        unfold drop_discovery_portal in
        find_target-drop_in address k _ _
        ∙ find_target-remove_targets sec (list_of d.targets) k opened
        ∙ rw (find_target-put_discovery_portal address k kept st.preferences) refl))

  pub find_discovery_portal-remove_discovery_portal :
      (k : Str)
      → find_discovery_portal k (remove_send_targets_discovery_portal sec address st).preferences
        ≡ (if str_eq address k then none else find_discovery_portal k st.preferences)
  unfolding remove_send_targets_discovery_portal remove_discovery_portal_found list_of opened kept
  find_discovery_portal-remove_discovery_portal k = rw found (
      rw get_dynamic_targets-found (
        find_discovery_portal-drop_discovery_portal address k _
        ∙ rw
            (find_discovery_portal-same k
              (remove_targets sec (list_of d.targets) opened).preferences opened.preferences
              (discovery-remove_targets sec (list_of d.targets) opened))
            (ground (
              arith,
              str_eq_iff address k,
              find_discovery_portal-put_discovery_portal address k kept st.preferences,
            ))))

  secret-remove_discovery_portal :
      (works : Works sec) (k : Str)
      → copy_chap_secret_for_node sec k
          (remove_send_targets_discovery_portal sec address st).keychain
        ≡ (if lists k (list_of d.targets)
            then none
            else copy_chap_secret_for_node sec k st.keychain)
  unfolding remove_send_targets_discovery_portal remove_discovery_portal_found list_of opened kept
  secret-remove_discovery_portal works k =
      rw found (
        rw get_dynamic_targets-found (secret-remove_targets sec works (list_of d.targets) k opened))

  -- The removal of a discovery portal that exists: gone are the targets in the portal's list, with their
  -- secrets, and the portal; all other targets, secrets and discovery portals are as before.
  pub remove_send_targets_discovery_portal-filters :
      Works sec
      → (k : Str)
      → let after = remove_send_targets_discovery_portal sec address st in
        let gone = lists k (list_of d.targets) in
        (find_target k after.preferences ≡ (if gone then none else find_target k st.preferences))
        × (copy_chap_secret_for_node sec k after.keychain
            ≡ (if gone then none else copy_chap_secret_for_node sec k st.keychain))
        × (find_discovery_portal k after.preferences
            ≡ (if str_eq address k then none else find_discovery_portal k st.preferences))
  remove_send_targets_discovery_portal-filters works k = (
    find_target-remove_discovery_portal k,
    secret-remove_discovery_portal works k,
    find_discovery_portal-remove_discovery_portal k,
  )
