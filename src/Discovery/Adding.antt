-- ===== src/Discovery/Adding.antt =====
-- Source/User/iscsid/iSCSIDiscovery.c: the discovered targets are added, for a target that is static.
use i_scsiinitiator.Base.{
  Str, str_eq, Bool, true, false, Option, none, some, List, [], ◌∷◌, ◌≡◌, refl, sym, ap, ◌∙◌,
  if◌then◌else◌, codes, Bool-cases, Option-cases, inl, inr,
}
use mathlib.Core.Option.{some-injective}
use i_scsiinitiator.Dict.{get}
use i_scsiinitiator.Dict.Laws.{str_eq_iff, is_some}
use i_scsiinitiator.Preferences.{TargetDict, Preferences, find_target, get_targets}
use i_scsiinitiator.Preferences.Targets.{
  config_static, config_text, config_type, config_of, get_target_config_type,
}
use i_scsiinitiator.Preferences.Portals.{contains_target}
use i_scsiinitiator.Discovery.{
  DiscoveryRec, and_then, add_target_for_send_targets, is_dynamic, add_discovered_if,
  add_discovered, add_all_discovered,
}
use i_scsiinitiator.Discovery.Static.{
  Keeps, Keeps-trans, get_targets-Keeps, change_target-Keeps, add_target_at-Keeps,
}

-- The test of a target that is static, and that of any target.
config_of-static :
    (iqn : Str) (t : TargetDict) (p : Preferences)
    → t.config_type ≡ some (codes "Static")
    → config_of iqn (some t) p ≡ (config_static, p)
unfolding config_of config_type str_eq
config_of-static iqn t p static = rw static refl

config_of-Keeps :
    (k iqn : Str) (o : Option TargetDict) (p : Preferences)
    → str_eq iqn k ≡ false
    → Keeps k p (config_of iqn o p).1
unfolding config_of
config_of-Keeps k iqn none p other = (refl, λ a. refl)
config_of-Keeps k iqn (some t) p other = elim (Option-cases t.config_type) [
  | inl missing ↦ rw missing (
      change_target-Keeps k iqn other (λ u. record u { config_type = config_text config_static }) p)
  | inr (text, found) ↦ rw found (refl, λ a. refl)
]

and_then-some :
    (o : Option Preferences) (f : Preferences → Option Preferences) (q : Preferences)
    → and_then o f ≡ some q
    → (s : Preferences) × (o ≡ some s) × (f s ≡ some q)
unfolding and_then
and_then-some none f q h = absurd (cc h)
and_then-some (some s) f q h = (s, refl, h)

module _ (k : Str) (r : DiscoveryRec) (address : Str) where
  add_discovered-other :
      (iqn : Str) (p q : Preferences)
      → str_eq iqn k ≡ false
      → add_discovered r iqn address p ≡ some q
      → Keeps k p q
  unfolding add_discovered contains_target add_discovered_if get_target_config_type
  add_discovered-other iqn p q other h =
      Keeps-trans k p (get_targets true p) q (get_targets-Keeps k p)
        (by_cases (is_some (find_target iqn (get_targets true p))) (get_targets true p) h)
    where
      by_kind :
          (b : Bool) (o : Preferences)
          → (if b then add_target_for_send_targets r iqn address o else some o) ≡ some q
          → Keeps k o q
      by_kind true o h' =
          unfold add_target_for_send_targets in
          add_target_at-Keeps k iqn other r address (get iqn r) o q h'
      by_kind false o h' = rw (sym (some-injective o q h')) (refl, λ a. refl)

      by_cases :
          (b : Bool) (o : Preferences) → add_discovered_if b r iqn address o ≡ some q → Keeps k o q
      by_cases true o h' =
          Keeps-trans k o (config_of iqn (find_target iqn o) o).1 q
            (config_of-Keeps k iqn (find_target iqn o) o other)
            (by_kind (is_dynamic (config_of iqn (find_target iqn o) o).0) _ h')
      by_cases false o h' = by_kind true o h'

  module _ (t : TargetDict) (static : t.config_type ≡ some (codes "Static")) where
    add_existing-same :
        (p : Preferences) → find_target k p ≡ some t → add_discovered_if true r k address p ≡ some p
    unfolding add_discovered_if get_target_config_type
    add_existing-same p found =
        rw found (rw (config_of-static k t p static) (unfold is_dynamic in refl))

    add_discovered-same :
        (p : Preferences)
        → find_target k p ≡ some t
        → add_discovered r k address p ≡ some (get_targets true p)
    unfolding add_discovered contains_target is_some
    add_discovered-same p found =
        let there = (get_targets-Keeps k p).0 ∙ found in
        ap (λ o. add_discovered_if (is_some o) r k address (get_targets true p)) there
        ∙ add_existing-same (get_targets true p) there

    add_discovered-Keeps :
        (iqn : Str) (p q : Preferences)
        → find_target k p ≡ some t
        → add_discovered r iqn address p ≡ some q
        → Keeps k p q
    add_discovered-Keeps iqn p q found h = elim (Bool-cases (str_eq iqn k)) [
      | inl same ↦
          let h' = rw ((str_eq_iff iqn k).0 same) at h in
          rw (sym (some-injective (get_targets true p) q (sym (add_discovered-same p found) ∙ h')))
            (get_targets-Keeps k p)
      | inr other ↦ add_discovered-other iqn p q other h
    ]

    pub add_all_discovered-Keeps :
        (iqns : List Str) (p q : Preferences)
        → find_target k p ≡ some t
        → add_all_discovered r address iqns p ≡ some q
        → Keeps k p q
    unfolding add_all_discovered
    add_all_discovered-Keeps [] p q found h = rw (sym (some-injective p q h)) (refl, λ a. refl)
    add_all_discovered-Keeps (iqn ∷ rest) p q found h =
        let (s, first, second) =
          and_then-some (add_discovered r iqn address p) (λ s. add_all_discovered r address rest s)
            q h in
        let kept = add_discovered-Keeps iqn p s found first in
        Keeps-trans k p s q kept (add_all_discovered-Keeps rest s q (kept.0 ∙ found) second)
