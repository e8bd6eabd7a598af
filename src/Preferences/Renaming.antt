-- ===== src/Preferences/Renaming.antt =====
-- Source/User/iSCSI Framework/iSCSIPreferences.c: SetTargetIQN and SetInitiatorIQN.
use i_scsiinitiator.Base.{Str, str_eq, Option, none, some, ◌≡◌, refl, ◌∙◌, if◌then◌else◌, codes}
use i_scsiinitiator.Keychain.{
  SecKeychain, Works, copy_chap_secret_for_node, set_chap_secret_for_node,
  copy-delete_chap_secret_for_node, copy-set_chap_secret_for_node,
}
use i_scsiinitiator.Preferences.{TargetDict, Preferences, find_target, put_target}
use i_scsiinitiator.Preferences.Targets.{
  config_static, get_target_config_type, config_of, config_type,
}
use i_scsiinitiator.Preferences.Lookups.{find_target-drop_target, find_target-put_target}
use i_scsiinitiator.Preferences.Initiator.{move_secret}
use i_scsiinitiator.Preferences.Removal.{Store, rename, rename_if_static, set_target_iqn}

-- What a name stands for after a value has moved from one name to another: stored there first, and then
-- removed under the existing name.
unfoldable pub moved : {A : Type 0} → Str → Str → Str → Option A → Option A → Option A
moved existing new k value old =
    if str_eq existing k then none else if str_eq new k then value else old

-- The same for a secret, where the existing name has one.
unfoldable pub moved_secret : Str → Str → Str → Option Str → Option Str → Option Str
moved_secret existing new k none old = old
moved_secret existing new k (some secret) old = moved existing new k (some secret) old

module _ {S : Type 0} (sec : SecKeychain S) (works : Works sec) (existing new : Str) where
  secret-move_secret :
      (k : Str) (o : Option Str) (s : S)
      → copy_chap_secret_for_node sec k (move_secret sec existing new o s)
        ≡ moved_secret existing new k o (copy_chap_secret_for_node sec k s)
  unfolding move_secret moved moved_secret
  secret-move_secret k none s = refl
  secret-move_secret k (some secret) s =
      copy-delete_chap_secret_for_node sec works existing k
        (set_chap_secret_for_node sec new secret s).1
      ∙ rw (copy-set_chap_secret_for_node sec works new k secret s) refl

  config_of-static :
      (t : TargetDict) (p : Preferences)
      → t.config_type ≡ some (codes "Static")
      → config_of existing (some t) p ≡ (config_static, p)
  unfolding config_of config_type str_eq
  config_of-static t p static = rw static refl

  -- A static target with a stored configuration type that is renamed: the new name stands for its
  -- dictionary, all other names but the existing one for what they did, and the existing one for
  -- nothing, also where it is the new name. A secret of the existing name moves in the same way, and
  -- without one all secrets stay.
  pub set_target_iqn-moves :
      (t : TargetDict) (st : Store S)
      → find_target existing st.preferences ≡ some t
      → t.config_type ≡ some (codes "Static")
      → (k : Str)
      → let after = set_target_iqn sec existing new st in
        (find_target k after.preferences
          ≡ moved existing new k (some t) (find_target k st.preferences))
        × (copy_chap_secret_for_node sec k after.keychain
            ≡ moved_secret existing new k
                (copy_chap_secret_for_node sec existing st.keychain)
                (copy_chap_secret_for_node sec k st.keychain))
  unfolding set_target_iqn get_target_config_type rename_if_static rename moved
  set_target_iqn-moves t st found static k = rw found (
      rw (config_of-static t st.preferences static) (
        rw found (
          find_target-drop_target existing k (put_target new t st.preferences)
              ∙ rw (find_target-put_target new existing k t t st.preferences found) refl,
          secret-move_secret k (copy_chap_secret_for_node sec existing st.keychain) st.keychain,
        )))
