-- ===== src/Preferences/Loaded.antt =====
-- Source/User/iSCSI Framework/iSCSIPreferences.c: the invariant, for iSCSIPreferencesSetTargetConfigType and
-- for what is loaded from the system.
use i_scsiinitiator.Base.{
  Str, str_eq, str_eq_self, true, false, Option, none, some, ◌≡◌, refl, sym, ap, ◌∙◌, arith, codes,
  if◌then◌else◌, Bool-cases, inl, inr, ◌⊎◌,
}
use mathlib.Core.Option.{some-injective}
use i_scsiinitiator.Dict.Laws.{is_some, str_eq_iff}
use i_scsiinitiator.Preferences.{
  TargetDict, Preferences, create_target_dict, find_target, find_in, get_target_dict, change_target,
}
use i_scsiinitiator.Preferences.Targets.{
  ConfigType, config_static, config_dynamic_send_targets, config_invalid, config_text, or_kept,
  set_target_config_type, field_of,
}
use i_scsiinitiator.Preferences.Initiator.{update_with_app_values, or_stored}
use i_scsiinitiator.Preferences.Lookups.{
  changed, or_created, find_target-change_target, find_target-get_target_dict,
  discovery-change_target,
}
use i_scsiinitiator.Preferences.Managed.{
  IsManaged, Inherits, inherited-discovery, get_target_dict-IsManaged,
}
use i_scsiinitiator.Preferences.Operations.{keeps_managed, is_whole}

abbrev typed : ConfigType → TargetDict → TargetDict
typed kind t = record t { config_type = or_kept (config_text kind) t.config_type }

-- A managed target that is not made static keeps its configuration type.
typed-same :
    (kind : ConfigType) (u : TargetDict) (address : Str)
    → keeps_managed kind (some address) ≡ true
    → u.config_type ≡ some (codes "SendTargets")
    → (typed kind u).config_type ≡ u.config_type
unfolding keeps_managed or_kept config_text
typed-same config_static u address allowed same = absurd (cc allowed)
typed-same config_dynamic_send_targets u address allowed same = sym same
typed-same config_invalid u address allowed same = refl

module _ (iqn : Str) (kind : ConfigType) (q : Preferences) (managed : IsManaged q)
    (allowed : (u : TargetDict)
      → find_target iqn q ≡ some u
      → keeps_managed kind u.send_targets_portal ≡ true) where
  typed-Inherits :
      (k : Str) (t : TargetDict)
      → find_target k (change_target iqn (typed kind) q) ≡ some t
      → Inherits t (find_target k q)
  typed-Inherits k t found =
      by_cases (find_target k q) refl (Bool-cases (str_eq iqn k))
        (sym (find_target-change_target iqn k (typed kind) q) ∙ found)
    where
      managed_case :
          (u : TargetDict) (manager : Option Str)
          → find_target k q ≡ some u
          → str_eq iqn k ≡ true
          → typed kind u ≡ t
          → u.send_targets_portal ≡ manager
          → Inherits t (some u)
      managed_case u none there same e portal =
          inl (ap (λ x. x.send_targets_portal) (sym e) ∙ portal)
      managed_case u (some address) there same e portal =
          let here : find_target iqn q ≡ some u = rw ((str_eq_iff iqn k).0 same) there in
          let may : keeps_managed kind (some address) ≡ true =
            ap (λ o. keeps_managed kind o) (sym portal) ∙ allowed u here in
          inr (
            u,
            refl,
            ap (λ x. x.send_targets_portal) (sym e),
            ap (λ x. x.config_type) (sym e)
                ∙ typed-same kind u address may (managed iqn address u here portal).0,
          )

      by_cases :
          (before : Option TargetDict)
          → find_target k q ≡ before
          → (str_eq iqn k ≡ true) ⊎ (str_eq iqn k ≡ false)
          → (if str_eq iqn k then changed (typed kind) (find_target k q) else find_target k q)
            ≡ some t
          → Inherits t before
      by_cases none there at_name h = absurd (unfold changed in ground (arith, there, h))
      by_cases (some u) there (inl same) h =
          let h' : some (typed kind u) ≡ some t = unfold changed in rw there at rw same at h in
          managed_case u u.send_targets_portal there same (some-injective (typed kind u) t h') refl
      by_cases (some u) there (inr other) h =
          let h' : find_target k q ≡ some t = rw other at h in inr (t, sym there ∙ h', refl, refl)

  typed-IsManaged : IsManaged (change_target iqn (typed kind) q)
  typed-IsManaged =
      inherited-discovery q (change_target iqn (typed kind) q) managed typed-Inherits
        (discovery-change_target iqn (typed kind) q)

pub set_target_config_type-IsManaged :
    (iqn : Str) (kind : ConfigType) (p : Preferences)
    → keeps_managed kind (field_of (λ t. t.send_targets_portal) (find_target iqn p)) ≡ true
    → IsManaged p
    → IsManaged (set_target_config_type iqn kind p)
unfolding set_target_config_type
set_target_config_type-IsManaged iqn kind p allowed managed =
    typed-IsManaged iqn kind (get_target_dict iqn true p) (get_target_dict-IsManaged iqn p managed)
      (λ u found.
        let same = portal_lem u (find_target iqn p) (sym (find_created) ∙ found) in
        ap (λ o. keeps_managed kind o) same ∙ allowed)
  where
    find_created :
        find_target iqn (get_target_dict iqn true p) ≡ some (or_created (find_target iqn p))
    find_created = find_target-get_target_dict iqn iqn p ∙ rw (str_eq_self iqn) refl

    portal_lem :
        (u : TargetDict) (o : Option TargetDict)
        → some (or_created o) ≡ some u
        → u.send_targets_portal ≡ field_of (λ t. t.send_targets_portal) o
    portal_lem u none h =
        unfold field_of in
        ap (λ x. x.send_targets_portal)
          (sym (some-injective create_target_dict u (unfold or_created in h)))
    portal_lem u (some t) h =
        unfold field_of in
        ap (λ x. x.send_targets_portal) (sym (some-injective t u (unfold or_created in h)))

-- Another object with the same tables of targets and discovery portals.
same-IsManaged :
    (p q : Preferences)
    → q.targets ≡ p.targets
    → q.discovery ≡ p.discovery
    → IsManaged p
    → IsManaged q
unfolding find_target
same-IsManaged p q targets discovery managed =
    inherited-discovery p q managed
      (λ k t found. inr (t, ap (λ o. find_in k o) (sym targets) ∙ found, refl, refl)) discovery

or_stored-some : {A : Type 0} (new old : Option A) → is_some new ≡ true → or_stored new old ≡ new
unfolding is_some or_stored
or_stored-some none old h = absurd (cc h)
or_stored-some (some a) old h = refl

pub update_with_app_values-IsManaged :
    (system storing p : Preferences)
    → is_whole storing ≡ true
    → system.targets ≡ storing.targets
    → system.discovery ≡ storing.discovery
    → IsManaged storing
    → IsManaged (update_with_app_values system p)
unfolding update_with_app_values is_whole
update_with_app_values-IsManaged system storing p whole targets discovery managed =
    same-IsManaged storing (update_with_app_values system p)
      (rw targets (or_stored-some storing.targets p.targets (ground (arith, whole))))
      (rw discovery (or_stored-some storing.discovery p.discovery (ground (arith, whole)))) managed
