-- ===== src/Preferences/Additions.antt =====
-- Source/User/iSCSI Framework/iSCSIPreferences.c: the additions of targets and discovery portals.
use i_scsiinitiator.Base.{
  Str, str_eq, ◌⊎◌, inl, inr, Bool, true, false, none, some, List, [], ◌∷◌, ◌++◌, ◌≡◌, refl, sym,
  ap, ◌∙◌, arith, if◌then◌else◌, codes, Bool-cases, Option-cases,
}
use mathlib.Core.Option.{some-injective}
use i_scsiinitiator.Dict.{set_value}
use i_scsiinitiator.Dict.Laws.{lists, str_eq_iff, is_some}
use i_scsiinitiator.Preferences.{
  Portal, TargetDict, DiscoveryPortal, Preferences, create_target_dict, find_target, get_targets,
}
use i_scsiinitiator.Preferences.Targets.{set_target_config_type, or_kept, config_text}
use i_scsiinitiator.Preferences.Portals.{
  with_portals, add_portal, create_portals_list, set_portal_for_target, contains_target,
  add_static_target_if, add_static_target, find_discovery_portal, list_of, put_discovery_portal,
  add_dynamic_if,
}
use i_scsiinitiator.Preferences.Lookups.{
  find_target-get_targets, discovery-change_target, discovery-get_target_dict,
  find_target-put_discovery_portal, find_discovery_portal-put_discovery_portal,
  find_discovery_portal-same,
}
use i_scsiinitiator.Preferences.Managed.{
  IsManaged, listed_of, listed_at, inherited, inherited-discovery, Added, change_target-Added,
  get_target_dict-Added, get_target_dict-Added_first,
}

-- The dictionaries that the two additions make of a target that was missing.
unfoldable pub static_target : Portal → TargetDict
static_target portal = record create_target_dict {
  portals = some (set_value portal.address portal []);
  config_type = some (codes "Static");
}

unfoldable pub dynamic_target : Portal → Str → TargetDict
dynamic_target portal address = record create_target_dict {
  send_targets_portal = some address;
  portals = some (set_value portal.address portal []);
  config_type = some (codes "SendTargets");
}

module _ (iqn : Str) (portal : Portal) (p : Preferences) (missing : find_target iqn p ≡ none) where
  pub add_static_target-Added :
      Added iqn (static_target portal) p (add_static_target_if false iqn portal p)
  unfolding add_static_target_if set_target_config_type set_portal_for_target create_portals_list
      static_target with_portals add_portal or_kept config_text
  add_static_target-Added = change_target-Added iqn p _ _ _ (
      get_target_dict-Added iqn p _ _ (
        change_target-Added iqn p _ _ _
          (change_target-Added iqn p _ _ _ (get_target_dict-Added_first iqn p missing))))

  pub add_dynamic-Added :
      (address : Str)
      → Added iqn (dynamic_target portal address) p (add_dynamic_if false iqn portal address p)
  unfolding add_dynamic_if set_target_config_type set_portal_for_target create_portals_list
      dynamic_target with_portals add_portal or_kept config_text
  add_dynamic-Added address = change_target-Added iqn p _ _ _ (
      get_target_dict-Added iqn p _ _ (
        change_target-Added iqn p _ _ _ (
          change_target-Added iqn p _ _ _ (
            get_target_dict-Added iqn p _ _
              (change_target-Added iqn p _ _ _ (get_target_dict-Added_first iqn p missing))))))

  pub discovery-add_static : (add_static_target_if false iqn portal p).discovery ≡ p.discovery
  unfolding add_static_target_if set_target_config_type set_portal_for_target create_portals_list
  discovery-add_static = simp (discovery-change_target, discovery-get_target_dict)

  pub discovery-add_dynamic :
      (address : Str) → (add_dynamic_if false iqn portal address p).discovery ≡ p.discovery
  unfolding add_dynamic_if set_target_config_type set_portal_for_target create_portals_list
  discovery-add_dynamic address = simp (discovery-change_target, discovery-get_target_dict)

-- A new target, which its managing portal lists, if it has one.
pub Added-IsManaged :
    (iqn : Str) (t : TargetDict) (p q : Preferences)
    → ((address : Str)
        → t.send_targets_portal ≡ some address
        → (t.config_type ≡ some (codes "SendTargets")) × (lists iqn (listed_at address p) ≡ true))
    → Added iqn t p q
    → q.discovery ≡ p.discovery
    → IsManaged p
    → IsManaged q
unfolding listed_at
Added-IsManaged iqn t p q listed added same managed k address u found manager =
    rw (find_discovery_portal-same address q p same)
      (by_cases (Bool-cases (str_eq iqn k)) (sym (added k) ∙ found))
  where
    by_cases :
        (str_eq iqn k ≡ true) ⊎ (str_eq iqn k ≡ false)
        → (if str_eq iqn k then some t else find_target k p) ≡ some u
        → (u.config_type ≡ some (codes "SendTargets"))
          × (lists k (listed_of (find_discovery_portal address p)) ≡ true)
    by_cases (inl here) h =
        let e = some-injective t u (rw here at h) in
        let own = listed address (ap (λ x. x.send_targets_portal) e ∙ manager) in
        (ap (λ x. x.config_type) (sym e) ∙ own.0, rw (sym ((str_eq_iff iqn k).0 here)) own.1)
    by_cases (inr other) h = managed k address u (rw other at h) manager

pub get_targets-IsManaged : (p : Preferences) → IsManaged p → IsManaged (get_targets true p)
get_targets-IsManaged p managed =
    inherited-discovery p (get_targets true p) managed
      (λ k t found. inr (t, sym (find_target-get_targets k true p) ∙ found, refl, refl))
      (unfold get_targets in refl)

pub add_static_target-IsManaged :
    (iqn : Str) (portal : Portal) (p : Preferences)
    → IsManaged p
    → IsManaged (add_static_target iqn portal p)
unfolding add_static_target contains_target is_some
add_static_target-IsManaged iqn portal p managed =
    elim (Option-cases (find_target iqn (get_targets true p))) [
      | inl missing ↦ rw missing (
          Added-IsManaged iqn (static_target portal) (get_targets true p)
            (add_static_target_if false iqn portal (get_targets true p))
            (λ address manager. absurd (unfold static_target in cc manager))
            (add_static_target-Added iqn portal (get_targets true p) missing)
            (discovery-add_static iqn portal (get_targets true p) missing)
            (get_targets-IsManaged p managed))
      | inr (t, found) ↦ rw found (unfold add_static_target_if in get_targets-IsManaged p managed)
    ]

-- What a portal's list holds after a write of a discovery portal.
pub listed_at-put_discovery_portal :
    (address k : Str) (d : DiscoveryPortal) (p : Preferences)
    → listed_at k (put_discovery_portal address d p)
      ≡ (if str_eq address k then list_of d.targets else listed_at k p)
unfolding listed_at listed_of list_of
listed_at-put_discovery_portal address k d p =
    rw (find_discovery_portal-put_discovery_portal address k d p) (by_cases (str_eq address k))
  where
    by_cases :
        (same : Bool)
        → listed_of (if same then some d else find_discovery_portal k p)
          ≡ (if same then list_of d.targets else listed_of (find_discovery_portal k p))
    by_cases true = refl
    by_cases false = refl

pub lists-snoc :
    (k iqn : Str) (targets : List Str)
    → lists k (targets ++ iqn ∷ []) ≡ (if lists k targets then true else str_eq iqn k)
unfolding lists
lists-snoc k iqn [] = ground arith
lists-snoc k iqn (j ∷ rest) = ground (arith, lists-snoc k iqn rest)

-- A discovery portal whose list does not shrink.
pub put_discovery_portal-IsManaged :
    (address : Str) (d : DiscoveryPortal) (p : Preferences)
    → ((k : Str) → lists k (listed_at address p) ≡ true → lists k (list_of d.targets) ≡ true)
    → IsManaged p
    → IsManaged (put_discovery_portal address d p)
put_discovery_portal-IsManaged address d p grows managed =
    inherited p (put_discovery_portal address d p) managed
      (λ k t found.
        inr (t, sym (find_target-put_discovery_portal address k d p) ∙ found, refl, refl))
      (λ k a t found manager listed.
        rw (listed_at-put_discovery_portal address a d p) (elim (Bool-cases (str_eq address a)) [
          | inl same ↦ rw same (grows k (rw ((str_eq_iff address a).0 same) listed))
          | inr other ↦ rw other listed
        ]))

-- What an association writes, and where there is a portal to write to.
unfoldable pub associated : Str → DiscoveryPortal → DiscoveryPortal
associated iqn d = record d {
  targets =
      some (
        if lists iqn (list_of d.targets) then list_of d.targets else list_of d.targets ++ iqn ∷ []);
}

module _ (iqn address : Str) (d : DiscoveryPortal) (p : Preferences)
    (found : find_discovery_portal address p ≡ some d) where
  pub lists-associated :
      (k : Str)
      → lists k (list_of (associated iqn d).targets)
        ≡ (if lists k (list_of d.targets) then true else str_eq iqn k)
  unfolding associated list_of
  lists-associated k = elim (Bool-cases (lists iqn (list_of d.targets))) [
    | inl there ↦ rw there (unfold list_of in ground (arith, str_eq_iff iqn k, there))
    | inr new ↦ rw new (lists-snoc k iqn (list_of d.targets))
  ]

  pub associated-IsManaged :
      IsManaged p → IsManaged (put_discovery_portal address (associated iqn d) p)
  unfolding listed_at listed_of
  associated-IsManaged managed =
      put_discovery_portal-IsManaged address (associated iqn d) p
        (λ k listed. rw (lists-associated k) (rw (rw found at listed) refl)) managed
