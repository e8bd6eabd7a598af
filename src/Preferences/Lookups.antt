-- ===== src/Preferences/Lookups.antt =====
-- Source/User/iSCSI Framework/iSCSIPreferences.c: what is found in the tables after a change.
use i_scsiinitiator.Base.{
  Str, str_eq, Bool, true, false, Option, none, some, [], ◌≡◌, refl, ap, ◌∙◌, arith, if◌then◌else◌,
  Option-cases, inl, inr,
}
use i_scsiinitiator.Dict.{Dict, get, set_value}
use i_scsiinitiator.Dict.Laws.{is_some, str_eq_iff, get-set_value, get-remove_value}
use i_scsiinitiator.Preferences.{
  TargetDict, DiscoveryPortal, Preferences, create_target_dict, with_targets, get_targets, find_in,
  find_target, put_in, put_target, get_target_dict, change_found, change_target,
}
use i_scsiinitiator.Preferences.Portals.{
  discovery_portals, discovery_portals_of, portals_or_new, put_discovery_portals,
  find_discovery_portal, find_discovery_portal_in, put_discovery_portal, remove_in, drop_target,
}

unfoldable pub changed : {A : Type 0} → (A → A) → Option A → Option A
changed f none = none
changed f (some a) = some (f a)

unfoldable pub or_created : Option TargetDict → TargetDict
or_created none = create_target_dict
or_created (some t) = t

-- The tables of targets.
find_in-put_in :
    (iqn j k : Str) (t u : TargetDict) (o : Option (Dict TargetDict))
    → find_in j o ≡ some u
    → find_in k (put_in iqn t o) ≡ (if str_eq iqn k then some t else find_in k o)
unfolding find_in put_in
find_in-put_in iqn j k t u none h = cc
find_in-put_in iqn j k t u (some targets) h = get-set_value iqn k t targets

pub find_target-put_target :
    (iqn j k : Str) (t u : TargetDict) (p : Preferences)
    → find_target j p ≡ some u
    → find_target k (put_target iqn t p) ≡ (if str_eq iqn k then some t else find_target k p)
unfolding find_target put_target
find_target-put_target iqn j k t u p found = find_in-put_in iqn j k t u p.targets found

pub find_target-change_target :
    (iqn k : Str) (f : TargetDict → TargetDict) (p : Preferences)
    → find_target k (change_target iqn f p)
      ≡ (if str_eq iqn k then changed f (find_target k p) else find_target k p)
unfolding find_target change_target change_found put_target changed
find_target-change_target iqn k f p = elim (Option-cases (find_in iqn p.targets)) [
  | inl missing ↦ rw missing (ground (arith, str_eq_iff iqn k, missing))
  | inr (t, found) ↦
      rw found
        (ground (arith, str_eq_iff iqn k, found, find_in-put_in iqn iqn k (f t) t p.targets found))
]

pub find_target-get_targets :
    (k : Str) (create_if_missing : Bool) (p : Preferences)
    → find_target k (get_targets create_if_missing p) ≡ find_target k p
unfolding find_target get_targets with_targets find_in get
find_target-get_targets k create_if_missing p = lem create_if_missing p.targets
  where
    lem : (b : Bool) (o : Option (Dict TargetDict)) → find_in k (with_targets b o) ≡ find_in k o
    lem true none = refl
    lem false none = refl
    lem b (some targets) = refl

find_in-put_in-opened :
    (iqn k : Str) (t : TargetDict) (o : Option (Dict TargetDict))
    → find_in k (put_in iqn t (with_targets true o))
      ≡ (if str_eq iqn k then some t else find_in k o)
unfolding find_in put_in with_targets get
find_in-put_in-opened iqn k t none = get-set_value iqn k t []
find_in-put_in-opened iqn k t (some targets) = get-set_value iqn k t targets

find_target-put_target-opened :
    (iqn k : Str) (t : TargetDict) (p : Preferences)
    → find_target k (put_target iqn t (get_targets true p))
      ≡ (if str_eq iqn k then some t else find_target k p)
unfolding find_target put_target get_targets
find_target-put_target-opened iqn k t p = find_in-put_in-opened iqn k t p.targets

pub find_target-get_target_dict :
    (iqn k : Str) (p : Preferences)
    → find_target k (get_target_dict iqn true p)
      ≡ (if str_eq iqn k then some (or_created (find_target k p)) else find_target k p)
unfolding get_target_dict or_created is_some
find_target-get_target_dict iqn k p = elim (Option-cases (find_target iqn p)) [
  | inl missing ↦ rw (find_target-get_targets iqn true p) (
      rw missing (
        find_target-put_target-opened iqn k create_target_dict p
        ∙ ground (arith, str_eq_iff iqn k, missing)))
  | inr (t, found) ↦
      rw (find_target-get_targets iqn true p)
        (rw found (find_target-get_targets k true p ∙ ground (arith, str_eq_iff iqn k, found)))
]

find_in-remove_in :
    (iqn k : Str) (o : Option (Dict TargetDict))
    → find_in k (remove_in iqn o) ≡ (if str_eq iqn k then none else find_in k o)
unfolding find_in remove_in
find_in-remove_in iqn k none = ground arith
find_in-remove_in iqn k (some targets) = get-remove_value iqn k targets

pub find_target-drop_target :
    (iqn k : Str) (p : Preferences)
    → find_target k (drop_target iqn p) ≡ (if str_eq iqn k then none else find_target k p)
unfolding find_target drop_target
find_target-drop_target iqn k p = find_in-remove_in iqn k p.targets

-- The tables of discovery portals.
portals_lem :
    (address k : Str) (d : DiscoveryPortal) (o : Option (Dict DiscoveryPortal))
    → get k (set_value address d (portals_or_new o))
      ≡ (if str_eq address k then some d else find_discovery_portal_in k o)
unfolding portals_or_new find_discovery_portal_in get
portals_lem address k d none = get-set_value address k d []
portals_lem address k d (some portals) = get-set_value address k d portals

pub find_discovery_portal-put_discovery_portal :
    (address k : Str) (d : DiscoveryPortal) (p : Preferences)
    → find_discovery_portal k (put_discovery_portal address d p)
      ≡ (if str_eq address k then some d else find_discovery_portal k p)
unfolding find_discovery_portal put_discovery_portal put_discovery_portals discovery_portals
    discovery_portals_of find_discovery_portal_in
find_discovery_portal-put_discovery_portal address k d p =
    portals_lem address k d (discovery_portals p)

-- What leaves the tables alone.
pub discovery-change_target :
    (iqn : Str) (f : TargetDict → TargetDict) (p : Preferences)
    → (change_target iqn f p).discovery ≡ p.discovery
unfolding change_target change_found put_target
discovery-change_target iqn f p = elim (Option-cases (find_target iqn p)) [
  | inl missing ↦ rw missing refl
  | inr (t, found) ↦ rw found refl
]

pub discovery-get_target_dict :
    (iqn : Str) (b : Bool) (p : Preferences) → (get_target_dict iqn b p).discovery ≡ p.discovery
unfolding get_target_dict get_targets put_target
discovery-get_target_dict iqn b p = ground arith

pub find_discovery_portal-same :
    (k : Str) (p q : Preferences)
    → p.discovery ≡ q.discovery
    → find_discovery_portal k p ≡ find_discovery_portal k q
unfolding find_discovery_portal discovery_portals
find_discovery_portal-same k p q same =
    ap (λ o. find_discovery_portal_in k (discovery_portals_of o)) same

pub find_target-put_discovery_portal :
    (address k : Str) (d : DiscoveryPortal) (p : Preferences)
    → find_target k (put_discovery_portal address d p) ≡ find_target k p
unfolding find_target put_discovery_portal put_discovery_portals
find_target-put_discovery_portal address k d p = refl
