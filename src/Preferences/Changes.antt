-- ===== src/Preferences/Changes.antt =====
-- Source/User/iSCSI Framework/iSCSIPreferences.c: the invariant, for changes that keep each target's
-- managing portal and configuration type.
use i_scsiinitiator.Base.{Str, true, Option, none, some, ◌≡◌, refl, sym, inr}
use mathlib.Core.Option.{some-injective}
use i_scsiinitiator.Preferences.{
  TargetDict, Preferences, create, find_target, find_in, get_target_dict, change_target,
  must_change, must_change_found, change_found, create_discovery_dict, DiscoveryDict,
}
use i_scsiinitiator.Preferences.Portals.{
  discovery_of, discovery_portals, discovery_portals_of, find_discovery_portal,
}
use i_scsiinitiator.Preferences.Initiator.{change_discovery}
use i_scsiinitiator.Preferences.Removal.{Store}
use i_scsiinitiator.Preferences.Managed.{
  IsManaged, listed_at, inherited, change_target-IsManaged, get_target_dict-IsManaged,
}
use i_scsiinitiator.Preferences.Operations.{stored}

must_change-some :
    (iqn : Str) (f : TargetDict → TargetDict) (p q : Preferences) (o : Option TargetDict)
    → must_change_found iqn f o p ≡ some q
    → q ≡ change_found iqn f o p
unfolding must_change_found change_found
must_change-some iqn f p q none h = absurd (cc h)
must_change-some iqn f p q (some t) h = sym (some-injective _ q h)

pub change_discovery-IsManaged :
    (f : DiscoveryDict → DiscoveryDict) (p : Preferences)
    → ((d : DiscoveryDict) → (f d).portals ≡ d.portals)
    → IsManaged p
    → IsManaged (change_discovery f p)
unfolding change_discovery listed_at find_discovery_portal discovery_portals
change_discovery-IsManaged f p keeps managed =
    inherited p (change_discovery f p) managed
      (λ k t found. inr (t, unfold find_target in found, refl, refl))
      (λ k a t found manager listed. rw (same p.discovery) listed)
  where
    same :
        (o : Option DiscoveryDict)
        → discovery_portals_of (some (f (discovery_of o))) ≡ discovery_portals_of o
    same none = unfold discovery_portals_of discovery_of in keeps create_discovery_dict
    same (some d) = unfold discovery_portals_of discovery_of in keeps d

pub create-IsManaged : IsManaged create
unfolding find_target find_in
create-IsManaged iqn address t found manager = absurd (cc found)

module _ {S : Type 0} (st after : Store S) where
  pub stored-IsManaged :
      (p : Preferences)
      → stored st (some p) ≡ some after
      → IsManaged p
      → IsManaged after.preferences
  unfolding stored
  stored-IsManaged p h managed =
      let e = some-injective (record st { preferences = p }) after h in rw (sym e) managed

  pub returned-IsManaged :
      (o : Option Preferences)
      → ((p : Preferences) → o ≡ some p → IsManaged p)
      → stored st o ≡ some after
      → IsManaged after.preferences
  returned-IsManaged none each h = absurd (unfold stored in cc h)
  returned-IsManaged (some p) each h = stored-IsManaged p h (each p refl)

  module _ (iqn : Str) (f : TargetDict → TargetDict)
      (keeps_portal : (t : TargetDict) → (f t).send_targets_portal ≡ t.send_targets_portal)
      (keeps_type : (t : TargetDict) → (f t).config_type ≡ t.config_type)
      (managed : IsManaged st.preferences) where
    pub changed-IsManaged :
        stored st (some (change_target iqn f st.preferences)) ≡ some after
        → IsManaged after.preferences
    changed-IsManaged h =
        stored-IsManaged (change_target iqn f st.preferences) h
          (change_target-IsManaged iqn f st.preferences keeps_portal keeps_type managed)

    pub created-IsManaged :
        stored st (some (change_target iqn f (get_target_dict iqn true st.preferences)))
          ≡ some after
        → IsManaged after.preferences
    created-IsManaged h =
        stored-IsManaged (change_target iqn f (get_target_dict iqn true st.preferences)) h (
          change_target-IsManaged iqn f (get_target_dict iqn true st.preferences) keeps_portal
            keeps_type (get_target_dict-IsManaged iqn st.preferences managed))

    pub settled-IsManaged :
        stored st (must_change iqn f st.preferences) ≡ some after → IsManaged after.preferences
    unfolding must_change
    settled-IsManaged h =
        returned-IsManaged (must_change_found iqn f (find_target iqn st.preferences) st.preferences)
          (λ q returned.
            rw (must_change-some iqn f st.preferences q (find_target iqn st.preferences) returned) (
              unfold change_target in
              change_target-IsManaged iqn f st.preferences keeps_portal keeps_type managed))
          h
