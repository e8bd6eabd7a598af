-- ===== src/Preferences/Renamed.antt =====
-- Source/User/iSCSI Framework/iSCSIPreferences.c: a target under a new name is managed still.
use i_scsiinitiator.Base.{
  Str, str_eq, str_eq_self, Option, none, some, ◌≡◌, ◌⊎◌, inl, inr, refl, sym, ap, ◌∙◌, codes,
  Bool-cases, Option-cases,
}
use mathlib.Core.Option.{some-injective}
use i_scsiinitiator.Dict.Laws.{str_eq_iff}
use i_scsiinitiator.Keychain.{SecKeychain}
use i_scsiinitiator.Preferences.{TargetDict, Preferences, find_target, put_target, change_target}
use i_scsiinitiator.Preferences.Targets.{
  ConfigType, config_static, config_dynamic_send_targets, config_invalid, config_type, config_text,
  config_of, get_target_config_type,
}
use i_scsiinitiator.Preferences.Removal.{Store, rename, rename_if_static, set_target_iqn}
use i_scsiinitiator.Preferences.Lookups.{
  changed, find_target-put_target, find_target-change_target, discovery-change_target,
}
use i_scsiinitiator.Preferences.Additions.{Added-IsManaged}
use i_scsiinitiator.Preferences.Managed.{IsManaged, drop_target-IsManaged}

-- New names: a dictionary without a managing portal that is written.
module _ (iqn : Str) (t : TargetDict) (p : Preferences) (managed : IsManaged p)
    (unmanaged : t.send_targets_portal ≡ none) where
  put_target-IsManaged : (new : Str) → find_target iqn p ≡ some t → IsManaged (put_target new t p)
  put_target-IsManaged new found =
      Added-IsManaged new t p (put_target new t p) (λ a manager. absurd (cc (unmanaged, manager)))
        (λ k. find_target-put_target new iqn k t t p found) (unfold put_target in refl) managed

  change_unmanaged-IsManaged :
      (f : TargetDict → TargetDict)
      → (f t).send_targets_portal ≡ none
      → find_target iqn p ≡ some t
      → IsManaged (change_target iqn f p)
  change_unmanaged-IsManaged f still found =
      Added-IsManaged iqn (f t) p (change_target iqn f p)
        (λ a manager. absurd (cc (still, manager)))
        (λ k. find_target-change_target iqn k f p ∙ elim (Bool-cases (str_eq iqn k)) [
          | inl same ↦
              rw same (rw (sym ((str_eq_iff iqn k).0 same)) (rw found (unfold changed in refl)))
          | inr other ↦ rw other refl
        ])
        (discovery-change_target iqn f p) managed

module _ {S : Type 0} (sec : SecKeychain S) (existing new : Str) where
  rename-IsManaged :
      (o : Option TargetDict) (st : Store S)
      → find_target existing st.preferences ≡ o
      → ((t : TargetDict) → o ≡ some t → t.send_targets_portal ≡ none)
      → IsManaged st.preferences
      → IsManaged (rename sec existing new o st).preferences
  unfolding rename
  rename-IsManaged none st found unmanaged managed = managed
  rename-IsManaged (some t) st found unmanaged managed =
      drop_target-IsManaged existing (put_target new t st.preferences)
        (put_target-IsManaged existing t st.preferences managed (unmanaged t refl) new found)

  config_of-missing :
      (t : TargetDict) (p : Preferences)
      → t.config_type ≡ none
      → config_of existing (some t) p ≡ (
        config_static,
        change_target existing (λ t. record t { config_type = config_text config_static }) p,
      )
  unfolding config_of
  config_of-missing t p missing = rw missing refl

  config_of-stored :
      (t : TargetDict) (text : Str) (p : Preferences)
      → t.config_type ≡ some text
      → config_of existing (some t) p ≡ (config_type text, p)
  unfolding config_of
  config_of-stored t text p stored = rw stored refl

  rename_if_static-IsManaged :
      (kind : ConfigType) (st : Store S)
      → ((t : TargetDict)
          → find_target existing st.preferences ≡ some t
          → t.send_targets_portal ≡ none)
      → IsManaged st.preferences
      → IsManaged (rename_if_static sec kind existing new st).preferences
  unfolding rename_if_static
  rename_if_static-IsManaged config_static st unmanaged managed =
      rename-IsManaged (find_target existing st.preferences) st refl unmanaged managed
  rename_if_static-IsManaged config_dynamic_send_targets st unmanaged managed = managed
  rename_if_static-IsManaged config_invalid st unmanaged managed = managed

  module _ (t : TargetDict) (st : Store S) (found : find_target existing st.preferences ≡ some t)
      (managed : IsManaged st.preferences) where
    repaired : Preferences
    repaired =
        change_target existing (λ t. record t { config_type = config_text config_static })
          st.preferences

    find_target-repaired :
        find_target existing repaired ≡ some (record t { config_type = config_text config_static })
    unfolding repaired changed
    find_target-repaired =
        find_target-change_target existing existing
          (λ t. record t { config_type = config_text config_static }) st.preferences
        ∙ rw (str_eq_self existing) (rw found refl)

    unmanaged-IsManaged :
        t.send_targets_portal ≡ none
        → (t.config_type ≡ none) ⊎ ((text : Str) × (t.config_type ≡ some text))
        → IsManaged (set_target_iqn sec existing new st).preferences
    unfolding set_target_iqn get_target_config_type repaired
    unmanaged-IsManaged unmanaged (inl missing) = rw found (
        rw (config_of-missing t st.preferences missing) (
          rename_if_static-IsManaged config_static (record st { preferences = repaired })
            (λ u h.
              ap (λ x. x.send_targets_portal)
                (sym (some-injective _ u (sym find_target-repaired ∙ h)))
              ∙ unmanaged)
            (change_unmanaged-IsManaged existing t st.preferences managed unmanaged
              (λ t. record t { config_type = config_text config_static }) unmanaged found)))
    unmanaged-IsManaged unmanaged (inr (text, stored)) = rw found (
        rw (config_of-stored t text st.preferences stored) (
          rename_if_static-IsManaged (config_type text) st
            (λ u h.
              ap (λ x. x.send_targets_portal) (sym (some-injective t u (sym found ∙ h)))
              ∙ unmanaged)
            managed))

    dynamic-IsManaged :
        (a : Str)
        → t.send_targets_portal ≡ some a
        → IsManaged (set_target_iqn sec existing new st).preferences
    unfolding set_target_iqn get_target_config_type config_type str_eq rename_if_static
    dynamic-IsManaged a manager = rw found (
        rw
          (config_of-stored t (codes "SendTargets") st.preferences
            (managed existing a t found manager).0)
          managed)

    found-IsManaged : IsManaged (set_target_iqn sec existing new st).preferences
    found-IsManaged = elim (Option-cases t.send_targets_portal) [
      | inl unmanaged ↦ unmanaged-IsManaged unmanaged (Option-cases t.config_type)
      | inr (a, manager) ↦ dynamic-IsManaged a manager
    ]

  pub set_target_iqn-IsManaged :
      (st : Store S)
      → IsManaged st.preferences
      → IsManaged (set_target_iqn sec existing new st).preferences
  unfolding set_target_iqn get_target_config_type config_of rename_if_static
  set_target_iqn-IsManaged st managed = elim (Option-cases (find_target existing st.preferences)) [
    | inl missing ↦ rw missing managed
    | inr (t, found) ↦ found-IsManaged t st found managed
  ]
