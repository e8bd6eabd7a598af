-- ===== src/Preferences/Removed.antt =====
-- Source/User/iSCSI Framework/iSCSIPreferences.c: what removals leave is managed still.
use i_scsiinitiator.Base.{
  Str, str_eq, ◌==◌, length, true, false, Option, none, some, ◌≡◌, ◌⊎◌, inl, inr, refl, sym, ◌∙◌,
  if◌then◌else◌, codes, Bool-cases, Option-cases, chosen,
}
use i_scsiinitiator.Dict.{Dict}
use i_scsiinitiator.Dict.Laws.{lists, str_eq_iff}
use i_scsiinitiator.Keychain.{SecKeychain}
use i_scsiinitiator.Preferences.{Portal, TargetDict, DiscoveryPortal, find_target, change_target}
use i_scsiinitiator.Preferences.Portals.{
  find_discovery_portal, list_of, remove_in, get_portals_list,
}
use i_scsiinitiator.Preferences.Removal.{
  Store, remove_target, remove_portal_from, remove_portal_for_target, remove_discovery_portal_found,
  remove_send_targets_discovery_portal,
}
use i_scsiinitiator.Preferences.Filtered.{
  find_target-remove_discovery_portal, find_discovery_portal-remove_discovery_portal,
}
use i_scsiinitiator.Preferences.Managed.{
  IsManaged, listed_of, listed_at, change_target-IsManaged, drop_target-IsManaged,
}

module _ {S : Type 0} (sec : SecKeychain S) (st : Store S)
    (managed : IsManaged st.preferences) where
  pub remove_target-IsManaged : (iqn : Str) → IsManaged (remove_target sec iqn st).preferences
  unfolding remove_target
  remove_target-IsManaged iqn = drop_target-IsManaged iqn st.preferences managed

  remove_portal_from-IsManaged :
      (iqn address : Str) (portals : Option (Dict Portal))
      → IsManaged (remove_portal_from sec iqn address portals st).preferences
  unfolding remove_portal_from
  remove_portal_from-IsManaged iqn address none = managed
  remove_portal_from-IsManaged iqn address (some portals) =
      chosen (λ after. IsManaged after.preferences) (length portals == 1) (remove_target sec iqn st)
        (record st {
          preferences =
              change_target iqn (λ t. record t { portals = remove_in address t.portals })
                st.preferences;
        })
        (remove_target-IsManaged iqn)
        (change_target-IsManaged iqn (λ t. record t { portals = remove_in address t.portals })
          st.preferences (λ t. refl) (λ t. refl) managed)

  pub remove_portal_for_target-IsManaged :
      (iqn address : Str) → IsManaged (remove_portal_for_target sec iqn address st).preferences
  unfolding remove_portal_for_target
  remove_portal_for_target-IsManaged iqn address =
      remove_portal_from-IsManaged iqn address (get_portals_list iqn st.preferences)

  module _ (address iqn a : Str) (d : DiscoveryPortal) (t : TargetDict)
      (found : find_discovery_portal address st.preferences ≡ some d)
      (manager : t.send_targets_portal ≡ some a) where
    unlisted :
        address ≡ a
        → lists iqn (listed_at a st.preferences) ≡ true
        → lists iqn (list_of d.targets) ≡ true
    unfolding listed_at listed_of
    unlisted same listed = rw found at rw (sym same) at listed

    remaining :
        (lists iqn (list_of d.targets) ≡ true) ⊎ (lists iqn (list_of d.targets) ≡ false)
        → (str_eq address a ≡ true) ⊎ (str_eq address a ≡ false)
        → (if lists iqn (list_of d.targets) then none else find_target iqn st.preferences) ≡ some t
        → (t.config_type ≡ some (codes "SendTargets"))
          × (lists iqn
                (listed_at a (remove_send_targets_discovery_portal sec address st).preferences)
              ≡ true)
    unfolding listed_at
    remaining (inl gone) same h = absurd (cc (rw gone at h))
    remaining (inr stays) (inl same) h =
        let old = managed iqn a t (rw stays at h) manager in
        absurd (cc (stays, unlisted ((str_eq_iff address a).0 same) old.1))
    remaining (inr stays) (inr other) h =
        let old = managed iqn a t (rw stays at h) manager in
        (
          old.0,
          rw (find_discovery_portal-remove_discovery_portal sec address d st found a)
              (rw other old.1),
        )

  pub remove_discovery_portal-IsManaged :
      (address : Str) → IsManaged (remove_send_targets_discovery_portal sec address st).preferences
  remove_discovery_portal-IsManaged address =
      elim (Option-cases (find_discovery_portal address st.preferences)) [
        | inl missing ↦
            unfold remove_send_targets_discovery_portal remove_discovery_portal_found in
            rw missing managed
        | inr (d, found) ↦ λ iqn a t there manager.
            remaining address iqn a d t found manager (Bool-cases (lists iqn (list_of d.targets)))
              (Bool-cases (str_eq address a))
              (sym (find_target-remove_discovery_portal sec address d st found iqn) ∙ there)
      ]
