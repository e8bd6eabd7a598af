-- ===== src/Discovery/Update.antt =====
-- Source/User/iscsid/iSCSIDiscovery.c: the update of the preferences, for a target that is static.
use i_scsiinitiator.Base.{
  Str, str_eq, ℕ, Option, none, some, List, [], ◌∷◌, ◌≡◌, refl, sym, ap, ◌∙◌, arith, if◌then◌else◌,
  codes, Bool-cases, inl, inr,
}
use mathlib.Core.Option.{some-injective}
use i_scsiinitiator.Dict.Laws.{lists, keys, str_eq_iff}
use i_scsiinitiator.Keychain.{SecKeychain}
use i_scsiinitiator.Preferences.{TargetDict, DiscoveryPortal, Preferences, find_target}
use i_scsiinitiator.Preferences.Portals.{
  find_discovery_portal, list_of, get_dynamic_targets_for_send_targets, dynamic_targets_at,
  put_discovery_portal, drop_target,
}
use i_scsiinitiator.Preferences.Removal.{remove_target}
use i_scsiinitiator.Preferences.Lookups.{
  find_target-put_discovery_portal, find_target-drop_target, find_discovery_portal-same,
}
use i_scsiinitiator.Preferences.Managed.{listed_at, listed_of}
use i_scsiinitiator.Discovery.{
  DiscoveryRec, add_all_discovered, Managers, log_out, remove_undiscovered, cross_check,
  cross_check_added, update_preferences_with_discovered_targets,
}
use i_scsiinitiator.Preferences.Additions.{listed_at-put_discovery_portal}
use i_scsiinitiator.Discovery.Adding.{add_all_discovered-Keeps}
use i_scsiinitiator.Discovery.Static.{Keeps, Keeps-trans, listed_here}

-- The list of a portal that is looked up, which leaves every target and every list as they are.
get_dynamic_targets-Keeps :
    (k address : Str) (p q : Preferences) (targets : List Str)
    → get_dynamic_targets_for_send_targets address p ≡ (some targets, q)
    → (targets ≡ listed_at address p) × Keeps k p q
unfolding get_dynamic_targets_for_send_targets dynamic_targets_at
get_dynamic_targets-Keeps k address p q targets h =
    by_cases (find_discovery_portal address p) refl h
  where
    listed_lem :
        (d : DiscoveryPortal)
        → find_discovery_portal address p ≡ some d
        → (a : Str)
        → listed_at a
            (put_discovery_portal address (record d { targets = some (list_of d.targets) }) p)
          ≡ listed_at a p
    listed_lem d found a =
        listed_at-put_discovery_portal address a (record d { targets = some (list_of d.targets) }) p
        ∙ elim (Bool-cases (str_eq address a)) [
          | inl same ↦ rw same (
              rw (sym ((str_eq_iff address a).0 same))
                (unfold list_of in sym (listed_here address d p found)))
          | inr elsewhere ↦ rw elsewhere refl
        ]

    by_cases :
        (o : Option DiscoveryPortal)
        → find_discovery_portal address p ≡ o
        → dynamic_targets_at address o p ≡ (some targets, q)
        → (targets ≡ listed_at address p) × Keeps k p q
    by_cases none found h' = absurd (cc (ap (λ x. x.0) h'))
    by_cases (some d) found h' = (
      some-injective targets (listed_at address p)
          (sym (ap (λ x. x.0) h') ∙ ap some (sym (listed_here address d p found))),
      rw (sym (ap (λ x. x.1) h')) (
        find_target-put_discovery_portal address k (record d { targets = some (list_of d.targets) })
            p,
        λ a. ap (λ l. lists k l) (listed_lem d found a),
      ),
    )

module _ {S L : Type 0} (sec : SecKeychain S) (session_id_for_target : Str → L → Option ℕ)
    (session_logout : ℕ → L → L) where
  find_target-remove_undiscovered :
      (r : DiscoveryRec) (k : Str) (existing : List Str) (m : Managers S L)
      → find_target k
          (remove_undiscovered sec session_id_for_target session_logout r existing
            m).store.preferences
        ≡ (if lists k existing
            then if lists k (keys r) then find_target k m.store.preferences else none
            else find_target k m.store.preferences)
  unfolding remove_undiscovered remove_target lists
  find_target-remove_undiscovered r k [] m = refl
  find_target-remove_undiscovered r k (iqn ∷ rest) m =
      let m' = if lists iqn (keys r) then m else record {
        store = remove_target sec iqn m.store;
        sessions =
            log_out sec session_id_for_target session_logout (session_id_for_target iqn m.sessions)
              m.sessions;
      } in
      find_target-remove_undiscovered r k rest m'
      ∙ ground (arith, str_eq_iff iqn k, find_target-drop_target iqn k m.store.preferences)

  discovery-remove_undiscovered :
      (r : DiscoveryRec) (existing : List Str) (m : Managers S L)
      → (remove_undiscovered sec session_id_for_target session_logout r existing
          m).store.preferences.discovery
        ≡ m.store.preferences.discovery
  unfolding remove_undiscovered remove_target drop_target
  discovery-remove_undiscovered r [] m = refl
  discovery-remove_undiscovered r (iqn ∷ rest) m =
      discovery-remove_undiscovered r rest _ ∙ (ground arith)

  cross_check_added-some :
      (address : Str) (r : DiscoveryRec) (m after : Managers S L) (o : Option Preferences)
      → cross_check_added sec session_id_for_target session_logout r address o m ≡ some after
      → (p : Preferences) × (o ≡ some p)
        × (cross_check sec session_id_for_target session_logout r
              (get_dynamic_targets_for_send_targets address p)
              m
            ≡ some after)
  unfolding cross_check_added
  cross_check_added-some address r m after none h = absurd (cc h)
  cross_check_added-some address r m after (some p) h = (p, refl, h)

  cross_check-some :
      (r : DiscoveryRec) (address : Str) (p : Preferences) (m after : Managers S L)
      → cross_check sec session_id_for_target session_logout r
          (get_dynamic_targets_for_send_targets address p)
          m
        ≡ some after
      → (q : Preferences) × (existing : List Str) × (get_dynamic_targets_for_send_targets address p
          ≡ (some existing, q))
        × (after
            ≡ remove_undiscovered sec session_id_for_target session_logout r existing
                (record m { store = record m.store { preferences = q } }))
  unfolding cross_check
  cross_check-some r address p m after h =
      by_cases (get_dynamic_targets_for_send_targets address p) refl h
    where
      by_cases :
          (found : Option (List Str) × Preferences)
          → get_dynamic_targets_for_send_targets address p ≡ found
          → cross_check sec session_id_for_target session_logout r found m ≡ some after
          → (q : Preferences) × (existing : List Str) × (get_dynamic_targets_for_send_targets
                address p
              ≡ (some existing, q))
            × (after
                ≡ remove_undiscovered sec session_id_for_target session_logout r existing
                    (record m { store = record m.store { preferences = q } }))
      by_cases (none, q) is h' = absurd (cc h')
      by_cases (some existing, q) is h' = (q, existing, is, sym (some-injective _ after h'))

  module _ (address : Str) (r : DiscoveryRec) (k : Str) (t : TargetDict) (m after : Managers S L)
      (found : find_target k m.store.preferences ≡ some t)
      (static : t.config_type ≡ some (codes "Static"))
      (updated : update_preferences_with_discovered_targets sec session_id_for_target session_logout
          address r m
        ≡ some after) where
    -- The update adds, looks the list of the portal up, and removes by it.
    added_and_removed :
        (existing : List Str) × (q : Preferences) × (lists k existing
          ≡ lists k (listed_at address m.store.preferences))
        × Keeps k m.store.preferences q
        × (after
            ≡ remove_undiscovered sec session_id_for_target session_logout r existing
                (record m { store = record m.store { preferences = q } }))
    unfolding update_preferences_with_discovered_targets
    added_and_removed =
        let (p, added, checked) =
          cross_check_added-some address r m after
            (add_all_discovered r address (keys r) m.store.preferences) updated in
        let (q, existing, listed, written) = cross_check-some r address p m after checked in
        let kept =
          add_all_discovered-Keeps k r address t static (keys r) m.store.preferences p found
            added in
        let (same, stays) = get_dynamic_targets-Keeps k address p q existing listed in
        (
          existing,
          q,
          ap (λ l. lists k l) same ∙ kept.1 address,
          Keeps-trans k m.store.preferences p q kept stays,
          written,
        )

    -- Where the update returns, a target that is configured statically is as it was, its portals
    -- included, except that it is gone if its name is in the list of the discovery portal and was not
    -- discovered.
    pub update_preferences-static : find_target k after.store.preferences ≡ (
        if lists k (listed_at address m.store.preferences)
        then if lists k (keys r) then some t else none
        else some t)
    update_preferences-static =
        let (existing, q, same, kept, written) = added_and_removed in
        rw written (
          find_target-remove_undiscovered r k existing
            (record m { store = record m.store { preferences = q } })
          ∙ rw same (rw (kept.0 ∙ found) refl))

    -- The update leaves the name's place in every list.
    pub update_preferences-lists :
        (a : Str)
        → lists k (listed_at a after.store.preferences) ≡ lists k (listed_at a m.store.preferences)
    unfolding listed_at
    update_preferences-lists a =
        let (existing, q, same, kept, written) = added_and_removed in
        let removed =
          remove_undiscovered sec session_id_for_target session_logout r existing
            (record m { store = record m.store { preferences = q } }) in
        rw written (
          ap (λ d. lists k (listed_of d))
            (find_discovery_portal-same a removed.store.preferences q (
              discovery-remove_undiscovered r existing
                (record m { store = record m.store { preferences = q } })))
          ∙ kept.1 a)
