-- ===== src/Discovery/Static.antt =====
-- Source/User/iscsid/iSCSIDiscovery.c: what an update does to a target that is configured statically.
use i_scsiinitiator.Base.{
  Str, str_eq, Bool, true, false, Option, none, some, List, [], ◌∷◌, ◌≡◌, refl, sym, ◌∙◌,
  if◌then◌else◌, Bool-cases, Option-cases, inl, inr, ◌⊎◌,
}
use mathlib.Core.Option.{some-injective}
use i_scsiinitiator.Dict.{Dict}
use i_scsiinitiator.Dict.Laws.{lists, keys, str_eq_iff, is_some}
use i_scsiinitiator.Preferences.{
  Portal, TargetDict, DiscoveryPortal, Preferences, find_target, get_targets, change_target,
}
use i_scsiinitiator.Preferences.Portals.{
  contains_target, set_portal_for_target, add_portal, find_discovery_portal, list_of,
  put_discovery_portal, associate, add_dynamic_if, add_dynamic_target_for_send_targets,
}
use i_scsiinitiator.Preferences.Lookups.{
  find_target-get_targets, find_target-change_target, discovery-change_target,
  find_target-put_discovery_portal, find_discovery_portal-same,
}
use i_scsiinitiator.Preferences.Managed.{listed_of, listed_at}
use i_scsiinitiator.Preferences.Additions.{
  add_dynamic-Added, discovery-add_dynamic, listed_at-put_discovery_portal, associated,
  lists-associated,
}
use i_scsiinitiator.Preferences.Discovered.{associate-some}
use i_scsiinitiator.Discovery.{
  DiscoveryRec, add_found_portal, and_then, add_found_portals, add_group, add_groups,
  rec_get_portals, add_target_at,
}

-- A change that leaves one target, and its place in every list, as it was.
abbrev pub Keeps : Str → Preferences → Preferences → Type 0
Keeps k p q =
    (find_target k q ≡ find_target k p)
    × ((address : Str) → lists k (listed_at address q) ≡ lists k (listed_at address p))

same_if : (b : Bool) → (if b then true else false) ≡ b
same_if true = refl
same_if false = refl

pub listed_here :
    (address : Str) (d : DiscoveryPortal) (p : Preferences)
    → find_discovery_portal address p ≡ some d
    → listed_at address p ≡ list_of d.targets
unfolding listed_at listed_of
listed_here address d p found = rw found refl

module _ (k : Str) where
  pub Keeps-trans : (p q r : Preferences) → Keeps k p q → Keeps k q r → Keeps k p r
  Keeps-trans p q r first second =
      (second.0 ∙ first.0, λ address. second.1 address ∙ first.1 address)

  pub Keeps-discovery :
      (p q : Preferences)
      → find_target k q ≡ find_target k p
      → q.discovery ≡ p.discovery
      → Keeps k p q
  unfolding listed_at
  Keeps-discovery p q found same =
      (found, λ address. rw (find_discovery_portal-same address q p same) refl)

  pub get_targets-Keeps : (p : Preferences) → Keeps k p (get_targets true p)
  get_targets-Keeps p =
      Keeps-discovery p (get_targets true p) (find_target-get_targets k true p)
        (unfold get_targets in refl)

  module _ (iqn : Str) (other : str_eq iqn k ≡ false) where
    pub change_target-Keeps :
        (f : TargetDict → TargetDict) (p : Preferences) → Keeps k p (change_target iqn f p)
    change_target-Keeps f p =
        Keeps-discovery p (change_target iqn f p)
          (find_target-change_target iqn k f p ∙ rw other refl) (discovery-change_target iqn f p)

    associate-Keeps :
        (address : Str) (p q : Preferences) → associate iqn address p ≡ some q → Keeps k p q
    unfolding associate
    associate-Keeps address p q h =
        let (d, found, written) =
          associate-some iqn address p q (find_discovery_portal address p) h in
        rw written (
          find_target-put_discovery_portal address k (associated iqn d) p,
          λ a. listed_lem address a d p found,
        )
      where
        listed_lem :
            (address a : Str) (d : DiscoveryPortal) (p : Preferences)
            → find_discovery_portal address p ≡ some d
            → lists k (listed_at a (put_discovery_portal address (associated iqn d) p))
              ≡ lists k (listed_at a p)
        listed_lem address a d p found =
            rw (listed_at-put_discovery_portal address a (associated iqn d) p)
              (elim (Bool-cases (str_eq address a)) [
                | inl same ↦ rw same (
                    rw (sym ((str_eq_iff address a).0 same)) (
                      lists-associated iqn address d p found k
                      ∙ rw other (
                          rw (listed_here address d p found)
                            (same_if (lists k (list_of d.targets))))))
                | inr elsewhere ↦ rw elsewhere refl
              ])

    add_dynamic_if-Keeps :
        (portal : Portal) (address : Str) (p : Preferences)
        → Keeps k p (add_dynamic_if (is_some (find_target iqn p)) iqn portal address p)
    add_dynamic_if-Keeps portal address p = elim (Option-cases (find_target iqn p)) [
      | inl missing ↦ rw missing (
          unfold is_some in
          Keeps-discovery p (add_dynamic_if false iqn portal address p)
            (add_dynamic-Added iqn portal p missing address k ∙ rw other refl)
            (discovery-add_dynamic iqn portal p missing address))
      | inr (t, found) ↦ rw found (unfold is_some add_dynamic_if in (refl, λ a. refl))
    ]

    set_portal-Keeps :
        (portal : Portal) (p : Preferences) → Keeps k p (set_portal_for_target iqn portal p)
    unfolding set_portal_for_target
    set_portal-Keeps portal p =
        change_target-Keeps (λ t. record t { portals = add_portal portal t.portals }) p

    add_dynamic-Keeps :
        (portal : Portal) (address : Str) (p q : Preferences)
        → add_dynamic_target_for_send_targets iqn portal address p ≡ some q
        → Keeps k p q
    unfolding add_dynamic_target_for_send_targets contains_target
    add_dynamic-Keeps portal address p q h =
        let opened = get_targets true p in
        let added = add_dynamic_if (is_some (find_target iqn opened)) iqn portal address opened in
        Keeps-trans p opened q (get_targets-Keeps p) (
          Keeps-trans opened added q (add_dynamic_if-Keeps portal address opened)
            (associate-Keeps address added q h))

    add_found_portal-Keeps :
        (address : Str) (portal : Portal) (p q : Preferences)
        → add_found_portal iqn address portal p ≡ some q
        → Keeps k p q
    unfolding add_found_portal contains_target
    add_found_portal-Keeps address portal p q h =
        Keeps-trans p opened q (get_targets-Keeps p)
          (by_cases (Bool-cases (is_some (find_target iqn opened))) h)
      where
        opened : Preferences
        opened = get_targets true p

        by_cases :
            (is_some (find_target iqn opened) ≡ true) ⊎ (is_some (find_target iqn opened) ≡ false)
            → (if is_some (find_target iqn opened)
                then some (set_portal_for_target iqn portal opened)
                else add_dynamic_target_for_send_targets iqn portal address opened)
              ≡ some q
            → Keeps k opened q
        by_cases (inl there) h' =
            rw (sym (some-injective (set_portal_for_target iqn portal opened) q (rw there at h')))
              (set_portal-Keeps portal opened)
        by_cases (inr missing) h' = add_dynamic-Keeps portal address opened q (rw missing at h')

    and_then-Keeps :
        (p q : Preferences) (o : Option Preferences) (f : Preferences → Option Preferences)
        → ((r : Preferences) → o ≡ some r → Keeps k p r)
        → ((r : Preferences) → f r ≡ some q → Keeps k r q)
        → and_then o f ≡ some q
        → Keeps k p q
    unfolding and_then
    and_then-Keeps p q none f first second h = absurd (cc h)
    and_then-Keeps p q (some r) f first second h = Keeps-trans p r q (first r refl) (second r h)

    add_found_portals-Keeps :
        (address : Str) (portals : List Portal) (p q : Preferences)
        → add_found_portals iqn address portals p ≡ some q
        → Keeps k p q
    unfolding add_found_portals
    add_found_portals-Keeps address [] p q h = rw (sym (some-injective p q h)) (refl, λ a. refl)
    add_found_portals-Keeps address (portal ∷ rest) p q h =
        and_then-Keeps p q (add_found_portal iqn address portal p) _
          (λ r. add_found_portal-Keeps address portal p r)
          (λ r. add_found_portals-Keeps address rest r q) h

    add_group-Keeps :
        (address : Str) (o : Option (List Portal)) (p q : Preferences)
        → add_group iqn address o p ≡ some q
        → Keeps k p q
    unfolding add_group
    add_group-Keeps address none p q h = absurd (cc h)
    add_group-Keeps address (some portals) p q h = add_found_portals-Keeps address portals p q h

    add_groups-Keeps :
        (r : DiscoveryRec) (address : Str) (tags : List Str) (p q : Preferences)
        → add_groups r iqn address tags p ≡ some q
        → Keeps k p q
    unfolding add_groups
    add_groups-Keeps r address [] p q h = rw (sym (some-injective p q h)) (refl, λ a. refl)
    add_groups-Keeps r address (tag ∷ rest) p q h =
        and_then-Keeps p q (add_group iqn address (rec_get_portals iqn tag r) p) _
          (λ s. add_group-Keeps address (rec_get_portals iqn tag r) p s)
          (λ s. add_groups-Keeps r address rest s q) h

    pub add_target_at-Keeps :
        (r : DiscoveryRec) (address : Str) (o : Option (Dict (List Portal))) (p q : Preferences)
        → add_target_at r iqn address o p ≡ some q
        → Keeps k p q
    unfolding add_target_at
    add_target_at-Keeps r address none p q h = absurd (cc h)
    add_target_at-Keeps r address (some groups) p q h =
        add_groups-Keeps r address (keys groups) p q h
