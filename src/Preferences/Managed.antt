-- ===== src/Preferences/Managed.antt =====
-- Source/User/iSCSI Framework/iSCSIPreferences.c: a target that a discovery portal manages is in that
-- portal's list.
use i_scsiinitiator.Base.{
  Str, str_eq, ◌⊎◌, inl, inr, Bool, true, false, Option, none, some, List, [], ◌≡◌, refl, sym, ap,
  ◌∙◌, arith, if◌then◌else◌, codes, Bool-cases,
}
use mathlib.Core.Option.{some-injective}
use i_scsiinitiator.Dict.Laws.{lists, str_eq_iff}
use i_scsiinitiator.Preferences.{
  TargetDict, DiscoveryPortal, Preferences, create_target_dict, find_target, get_target_dict,
  change_target,
}
use i_scsiinitiator.Preferences.Portals.{find_discovery_portal, list_of, drop_target}
use i_scsiinitiator.Preferences.Lookups.{
  changed, or_created, find_target-change_target, find_target-get_target_dict,
  find_target-drop_target, discovery-change_target, discovery-get_target_dict,
  find_discovery_portal-same,
}

-- The list of targets of a discovery portal, empty for a portal that is missing.
unfoldable pub listed_of : Option DiscoveryPortal → List Str
listed_of none = []
listed_of (some d) = list_of d.targets

unfoldable pub listed_at : Str → Preferences → List Str
listed_at address p = listed_of (find_discovery_portal address p)

-- A target with a managing portal is configured by SendTargets, and is in that portal's list.
abbrev pub IsManaged : Preferences → Type 0
IsManaged p =
    (iqn address : Str) (t : TargetDict)
    → find_target iqn p ≡ some t
    → t.send_targets_portal ≡ some address
    → (t.config_type ≡ some (codes "SendTargets")) × (lists iqn (listed_at address p) ≡ true)

-- Every target is without a managing portal, or was there before with the same portal and, if it was
-- configured by SendTargets, is so still.
abbrev pub Inherits : TargetDict → Option TargetDict → Type 0
Inherits t before =
    (t.send_targets_portal ≡ none)
    ⊎ ((u : TargetDict) × (before ≡ some u)
        × (t.send_targets_portal ≡ u.send_targets_portal)
        × (t.config_type ≡ u.config_type))

pub inherited :
    (p q : Preferences)
    → IsManaged p
    → ((k : Str) (t : TargetDict) → find_target k q ≡ some t → Inherits t (find_target k p))
    → ((k address : Str) (t : TargetDict)
        → find_target k q ≡ some t
        → t.send_targets_portal ≡ some address
        → lists k (listed_at address p) ≡ true
        → lists k (listed_at address q) ≡ true)
    → IsManaged q
inherited p q managed targets lists_kept iqn address t found manager = elim (targets iqn t found) [
  | inl unmanaged ↦ absurd (ground (arith, unmanaged, manager))
  | inr (u, before, same_portal, same_type) ↦
      let old = managed iqn address u before (sym same_portal ∙ manager) in
      (same_type ∙ old.0, lists_kept iqn address t found manager old.1)
]

-- The same where the discovery is left alone.
pub inherited-discovery :
    (p q : Preferences)
    → IsManaged p
    → ((k : Str) (t : TargetDict) → find_target k q ≡ some t → Inherits t (find_target k p))
    → q.discovery ≡ p.discovery
    → IsManaged q
unfolding listed_at
inherited-discovery p q managed targets same =
    inherited p q managed targets
      (λ k address t found manager listed. rw (find_discovery_portal-same address q p same) listed)

-- A change of a target that keeps its managing portal and its configuration type.
pub change_target-IsManaged :
    (iqn : Str) (f : TargetDict → TargetDict) (p : Preferences)
    → ((t : TargetDict) → (f t).send_targets_portal ≡ t.send_targets_portal)
    → ((t : TargetDict) → (f t).config_type ≡ t.config_type)
    → IsManaged p
    → IsManaged (change_target iqn f p)
change_target-IsManaged iqn f p keeps_portal keeps_type managed =
    inherited-discovery p (change_target iqn f p) managed targets (discovery-change_target iqn f p)
  where
    by_cases :
        (k : Str) (t : TargetDict) (same : Bool) (before : Option TargetDict)
        → (if same then changed f before else before) ≡ some t
        → Inherits t before
    by_cases k t true none h = absurd (unfold changed in (cc h))
    by_cases k t true (some u) h =
        let e = sym (some-injective (f u) t (unfold changed in h)) in
        inr (
          u,
          refl,
          ap (λ x. x.send_targets_portal) e ∙ keeps_portal u,
          ap (λ x. x.config_type) e ∙ keeps_type u,
        )
    by_cases k t false before h = inr (t, h, refl, refl)

    targets :
        (k : Str) (t : TargetDict)
        → find_target k (change_target iqn f p) ≡ some t
        → Inherits t (find_target k p)
    targets k t found =
        by_cases k t (str_eq iqn k) (find_target k p)
          (sym (find_target-change_target iqn k f p) ∙ found)

pub get_target_dict-IsManaged :
    (iqn : Str) (p : Preferences) → IsManaged p → IsManaged (get_target_dict iqn true p)
get_target_dict-IsManaged iqn p managed =
    inherited-discovery p (get_target_dict iqn true p) managed targets
      (discovery-get_target_dict iqn true p)
  where
    by_cases :
        (t : TargetDict) (same : Bool) (before : Option TargetDict)
        → (if same then some (or_created before) else before) ≡ some t
        → Inherits t before
    by_cases t true none h = inl (
        ap (λ x. x.send_targets_portal)
          (sym (some-injective create_target_dict t (unfold or_created in h))))
    by_cases t true (some u) h =
        let e = sym (some-injective u t (unfold or_created in h)) in
        inr (u, refl, ap (λ x. x.send_targets_portal) e, ap (λ x. x.config_type) e)
    by_cases t false before h = inr (t, h, refl, refl)

    targets :
        (k : Str) (t : TargetDict)
        → find_target k (get_target_dict iqn true p) ≡ some t
        → Inherits t (find_target k p)
    targets k t found =
        by_cases t (str_eq iqn k) (find_target k p)
          (sym (find_target-get_target_dict iqn k p) ∙ found)

pub drop_target-IsManaged :
    (iqn : Str) (p : Preferences) → IsManaged p → IsManaged (drop_target iqn p)
unfolding drop_target
drop_target-IsManaged iqn p managed = inherited-discovery p (drop_target iqn p) managed targets refl
  where
    by_cases :
        (t : TargetDict) (same : Bool) (before : Option TargetDict)
        → (if same then none else before) ≡ some t
        → Inherits t before
    by_cases t true before h = absurd (cc h)
    by_cases t false before h = inr (t, h, refl, refl)

    targets :
        (k : Str) (t : TargetDict)
        → find_target k (drop_target iqn p) ≡ some t
        → Inherits t (find_target k p)
    targets k t found =
        by_cases t (str_eq iqn k) (find_target k p) (sym (find_target-drop_target iqn k p) ∙ found)

-- A target that was missing, as an addition leaves it: under its name stands the new dictionary, under
-- all others what stood there.
abbrev pub Added : Str → TargetDict → Preferences → Preferences → Type 0
Added iqn t p q = (k : Str) → find_target k q ≡ (if str_eq iqn k then some t else find_target k p)

module _ (iqn : Str) (p q : Preferences) (t : TargetDict) where
  pub change_target-Added :
      (f : TargetDict → TargetDict) → Added iqn t p q → Added iqn (f t) p (change_target iqn f q)
  unfolding changed
  change_target-Added f added k =
      find_target-change_target iqn k f q ∙ rw (added k) (by_cases (str_eq iqn k))
    where
      by_cases :
          (same : Bool)
          → (if same
              then changed f (if same then some t else find_target k p)
              else if same
              then some t
              else find_target k p)
            ≡ (if same then some (f t) else find_target k p)
      by_cases true = refl
      by_cases false = refl

  pub get_target_dict-Added : Added iqn t p q → Added iqn t p (get_target_dict iqn true q)
  unfolding or_created
  get_target_dict-Added added k =
      find_target-get_target_dict iqn k q ∙ rw (added k) (by_cases (str_eq iqn k))
    where
      by_cases :
          (same : Bool)
          → (if same
              then some (or_created (if same then some t else find_target k p))
              else if same
              then some t
              else find_target k p)
            ≡ (if same then some t else find_target k p)
      by_cases true = refl
      by_cases false = refl

pub get_target_dict-Added_first :
    (iqn : Str) (p : Preferences)
    → find_target iqn p ≡ none
    → Added iqn create_target_dict p (get_target_dict iqn true p)
unfolding or_created
get_target_dict-Added_first iqn p missing k =
    find_target-get_target_dict iqn k p ∙ elim (Bool-cases (str_eq iqn k)) [
      | inl same ↦ rw same (rw (sym ((str_eq_iff iqn k).0 same)) (rw missing refl))
      | inr other ↦ rw other refl
    ]
