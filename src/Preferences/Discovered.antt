-- ===== src/Preferences/Discovered.antt =====
-- Source/User/iSCSI Framework/iSCSIPreferences.c: targets that are found over discovery portals, and the
-- removal of such portals, keep every managed target in its portal's list.
use i_scsiinitiator.Base.{
  Str, str_eq_self, inl, inr, true, false, Option, none, some, [], ◌≡◌, refl, sym, ap, ◌∙◌, codes,
  Option-cases, chosen, ◌⊎◌,
}
use mathlib.Core.Option.{some-injective}
use i_scsiinitiator.Dict.{Dict, get, set_value}
use i_scsiinitiator.Dict.Laws.{lists, is_some}
use i_scsiinitiator.Preferences.{
  Portal, TargetDict, DiscoveryPortal, Preferences, find_target, get_targets,
}
use i_scsiinitiator.Preferences.Portals.{
  contains_target, find_discovery_portal, list_of, put_discovery_portal, associate_at, associate,
  add_dynamic_if, add_dynamic_target_for_send_targets, add_send_targets_discovery_portal,
  put_discovery_portals, discovery_portals, discovery_portals_of, portals_or_new, discovery_of,
  find_discovery_portal_in,
}
use i_scsiinitiator.Preferences.Lookups.{
  find_discovery_portal-same, find_target-put_discovery_portal,
}
use i_scsiinitiator.Preferences.Managed.{IsManaged, listed_of, listed_at, inherited}
use i_scsiinitiator.Preferences.Additions.{
  dynamic_target, add_dynamic-Added, discovery-add_dynamic, Added-IsManaged, get_targets-IsManaged,
  listed_at-put_discovery_portal, put_discovery_portal-IsManaged, associated, lists-associated,
  associated-IsManaged,
}

discovery-put_discovery_portal :
    (address : Str) (d : DiscoveryPortal) (p q : Preferences)
    → p.discovery ≡ q.discovery
    → (put_discovery_portal address d p).discovery ≡ (put_discovery_portal address d q).discovery
unfolding put_discovery_portal put_discovery_portals discovery_portals
discovery-put_discovery_portal address d p q same =
    ap
      (λ o. some (record (discovery_of o) {
        portals = some (set_value address d (portals_or_new (discovery_portals_of o)));
      }))
      same

-- An association that is made is one with a discovery portal that exists.
pub associate-some :
    (iqn address : Str) (p q : Preferences) (o : Option DiscoveryPortal)
    → associate_at iqn address o p ≡ some q
    → (d : DiscoveryPortal) × (o ≡ some d) × (q ≡ put_discovery_portal address (associated iqn d) p)
unfolding associate_at associated
associate-some iqn address p q none h = absurd (cc h)
associate-some iqn address p q (some d) h = (d, refl, sym (some-injective _ q h))

module _ (iqn address : Str) (d : DiscoveryPortal) where
  module _ (portal : Portal) (p : Preferences)
      (found : find_discovery_portal address p ≡ some d) where
    add_dynamic_if-IsManaged :
        (missing : find_target iqn p ≡ none)
        → IsManaged p
        → IsManaged (
            put_discovery_portal address
              (associated iqn d)
              (add_dynamic_if false iqn portal address p))
    add_dynamic_if-IsManaged missing managed =
        Added-IsManaged iqn (dynamic_target portal address)
          (put_discovery_portal address (associated iqn d) p)
          (put_discovery_portal address (associated iqn d)
            (add_dynamic_if false iqn portal address p))
          own
          (λ k.
            find_target-put_discovery_portal address k (associated iqn d)
              (add_dynamic_if false iqn portal address p)
            ∙ add_dynamic-Added iqn portal p missing address k
            ∙ rw (find_target-put_discovery_portal address k (associated iqn d) p) refl)
          (discovery-put_discovery_portal address (associated iqn d)
            (add_dynamic_if false iqn portal address p) p
            (discovery-add_dynamic iqn portal p missing address))
          (associated-IsManaged iqn address d p found managed)
      where
        own :
            (a : Str)
            → (dynamic_target portal address).send_targets_portal ≡ some a
            → ((dynamic_target portal address).config_type ≡ some (codes "SendTargets"))
              × (lists iqn (listed_at a (put_discovery_portal address (associated iqn d) p)) ≡ true)
        own a manager = (
          unfold dynamic_target in refl,
          rw (sym (some-injective address a (unfold dynamic_target in manager))) (
              rw (listed_at-put_discovery_portal address address (associated iqn d) p) (
                rw (str_eq_self address) (
                  rw (lists-associated iqn address d p found iqn) (
                    rw (str_eq_self iqn) (
                      chosen (λ b. b ≡ true) (lists iqn (list_of d.targets)) true true refl
                        refl))))),
        )

-- The addition of a target over a discovery portal, where it returns.
pub add_dynamic_target-IsManaged :
    (iqn address : Str) (portal : Portal) (p q : Preferences)
    → add_dynamic_target_for_send_targets iqn portal address p ≡ some q
    → IsManaged p
    → IsManaged q
unfolding add_dynamic_target_for_send_targets contains_target associate
add_dynamic_target-IsManaged iqn address portal p q added managed =
    by_cases (Option-cases (find_target iqn opened)) added
  where
    opened : Preferences
    opened = get_targets true p

    by_cases :
        (found : (find_target iqn opened ≡ none)
          ⊎ ((t : TargetDict) × (find_target iqn opened ≡ some t)))
        → associate iqn address
            (add_dynamic_if (is_some (find_target iqn opened)) iqn portal address opened)
          ≡ some q
        → IsManaged q
    by_cases (inl missing) h =
        let after = add_dynamic_if false iqn portal address opened in
        let same = discovery-add_dynamic iqn portal opened missing address in
        let h' : associate iqn address after ≡ some q = unfold is_some in rw missing at h in
        let (d, found, written) =
          associate-some iqn address after q (find_discovery_portal address after) h' in
        rw written (
          add_dynamic_if-IsManaged iqn address d portal opened
            (sym (find_discovery_portal-same address after opened same) ∙ found) missing
            (get_targets-IsManaged p managed))
    by_cases (inr (t, there)) h =
        let h' : associate iqn address opened ≡ some q =
          unfold is_some add_dynamic_if in rw there at h in
        let (d, found, written) =
          associate-some iqn address opened q (find_discovery_portal address opened) h' in
        rw written
          (associated-IsManaged iqn address d opened found (get_targets-IsManaged p managed))

-- The addition of a discovery portal.
find_discovery_portal-opened :
    (k : Str) (p : Preferences)
    → find_discovery_portal k (put_discovery_portals (portals_or_new (discovery_portals p)) p)
      ≡ find_discovery_portal k p
unfolding find_discovery_portal put_discovery_portals discovery_portals discovery_portals_of
find_discovery_portal-opened k p = by_cases (discovery_portals_of p.discovery)
  where
    by_cases :
        (o : Option (Dict DiscoveryPortal))
        → find_discovery_portal_in k (some (portals_or_new o)) ≡ find_discovery_portal_in k o
    by_cases none = unfold find_discovery_portal_in portals_or_new get in refl
    by_cases (some portals) = unfold portals_or_new in refl

opened-IsManaged :
    (p : Preferences)
    → IsManaged p
    → IsManaged (put_discovery_portals (portals_or_new (discovery_portals p)) p)
unfolding listed_at
opened-IsManaged p managed =
    inherited p (put_discovery_portals (portals_or_new (discovery_portals p)) p) managed
      (λ k t found. inr (t, unfold find_target put_discovery_portals in found, refl, refl))
      (λ k a t found manager listed. rw (find_discovery_portal-opened a p) listed)

pub add_discovery_portal-IsManaged :
    (portal : Portal) (p : Preferences)
    → IsManaged p
    → IsManaged (add_send_targets_discovery_portal portal p)
unfolding add_send_targets_discovery_portal is_some
add_discovery_portal-IsManaged portal p managed =
    elim (Option-cases (find_discovery_portal portal.address p)) [
      | inl missing ↦ rw missing (
          put_discovery_portal-IsManaged portal.address
            (record {
              port = some portal.port;
              host_interface = some portal.host_interface;
              targets = some [];
            })
            (put_discovery_portals (portals_or_new (discovery_portals p)) p)
            (λ k listed. absurd (cc (unlisted k missing listed))) (opened-IsManaged p managed))
      | inr (d, found) ↦ rw found (opened-IsManaged p managed)
    ]
  where
    unlisted :
        (k : Str)
        → find_discovery_portal portal.address p ≡ none
        → lists k (
            listed_at portal.address
              (put_discovery_portals (portals_or_new (discovery_portals p)) p))
          ≡ true
        → false ≡ true
    unlisted k missing listed =
        unfold listed_at listed_of lists in
        rw missing at rw (find_discovery_portal-opened portal.address p) at listed
