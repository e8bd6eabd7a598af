-- ===== src/Preferences/Settings.antt =====
-- Source/User/iSCSI Framework/iSCSIPreferences.c: settings of a target that are stored and read.
use i_scsiinitiator.Base.{Str, str_eq, str_eq_self, ◌≢◌, Bool, true, Option, some, ◌≡◌, refl, ◌∙◌}
use i_scsiinitiator.Target.{AuthMethod, method_none, method_chap, method_invalid}
use i_scsiinitiator.Preferences.{
  TargetDict, Preferences, find_target, get_target_dict, change_target,
}
use i_scsiinitiator.Preferences.Targets.{
  DigestType, digest_none, digest_crc32c, digest_invalid, digest_text, digest_type, auth_text,
  auth_method, stored_method, or_kept, field_of, is_true, set_data_digest_for_target,
  get_data_digest_for_target, set_header_digest_for_target, get_header_digest_for_target,
  set_target_authentication_method, get_target_authentication_method, set_auto_login_for_target,
  get_auto_login_for_target, set_persistence_for_target, get_persistence_for_target,
}
use i_scsiinitiator.Preferences.Lookups.{
  changed, or_created, find_target-change_target, find_target-get_target_dict,
}

-- A digest type that is stored is read back, and one that is none leaves what was there.
unfoldable pub digest_or : DigestType → DigestType → DigestType
digest_or digest_invalid old = old
digest_or new old = new

digest_type-or_kept :
    (new : DigestType) (old : Option Str)
    → digest_type (or_kept (digest_text new) old) ≡ digest_or new (digest_type old)
unfolding digest_type or_kept digest_text digest_or str_eq
digest_type-or_kept digest_none old = refl
digest_type-or_kept digest_crc32c old = refl
digest_type-or_kept digest_invalid old = refl

method_or : AuthMethod → Option Str → Option AuthMethod
method_or method_invalid old = stored_method old
method_or new old = some new

stored_method-or_kept :
    (new : AuthMethod) (old : Option Str)
    → stored_method (or_kept (auth_text new) old) ≡ method_or new old
unfolding stored_method auth_method or_kept auth_text method_or str_eq
stored_method-or_kept method_none old = refl
stored_method-or_kept method_chap old = refl
stored_method-or_kept method_invalid old = refl

module _ (iqn : Str) (p : Preferences) (f : TargetDict → TargetDict) where
  find_changed : find_target iqn (change_target iqn f p) ≡ changed f (find_target iqn p)
  find_changed = find_target-change_target iqn iqn f p ∙ rw (str_eq_self iqn) refl

  find_created :
      find_target iqn (get_target_dict iqn true (change_target iqn f (get_target_dict iqn true p)))
      ≡ some (f (or_created (find_target iqn p)))
  unfolding changed or_created
  find_created =
      find_target-get_target_dict iqn iqn (change_target iqn f (get_target_dict iqn true p))
      ∙ rw (str_eq_self iqn) (
          rw (find_target-change_target iqn iqn f (get_target_dict iqn true p)) (
            rw (str_eq_self iqn)
              (rw (find_target-get_target_dict iqn iqn p) (rw (str_eq_self iqn) refl))))

-- For a target that exists, the digests that are set are read back; an invalid digest type leaves the
-- digest as it was.
get-set_digests :
    (iqn : Str) (p : Preferences) (t : TargetDict) (digest : DigestType)
    → find_target iqn p ≡ some t
    → (get_data_digest_for_target iqn (set_data_digest_for_target iqn digest p)
        ≡ digest_or digest (get_data_digest_for_target iqn p))
      × (get_header_digest_for_target iqn (set_header_digest_for_target iqn digest p)
          ≡ digest_or digest (get_header_digest_for_target iqn p))
unfolding get_data_digest_for_target set_data_digest_for_target get_header_digest_for_target
    set_header_digest_for_target field_of changed
get-set_digests iqn p t digest found = (
  rw
      (find_changed iqn p
        (λ t. record t { data_digest = or_kept (digest_text digest) t.data_digest }))
      (rw found (digest_type-or_kept digest t.data_digest)),
  rw
      (find_changed iqn p
        (λ t. record t { header_digest = or_kept (digest_text digest) t.header_digest }))
      (rw found (digest_type-or_kept digest t.header_digest)),
)

-- Automatic login, persistence and a named authentication method are read back as they were set, for
-- every name: a target that is missing is created by the setter.
pub get-set_settings :
    (iqn : Str) (p : Preferences) (b : Bool) (method : AuthMethod)
    → method ≢ method_invalid
    → ((get_auto_login_for_target iqn (set_auto_login_for_target iqn b p)).0 ≡ b)
      × ((get_persistence_for_target iqn (set_persistence_for_target iqn b p)).0 ≡ b)
      × ((get_target_authentication_method iqn (set_target_authentication_method iqn method p)).0
          ≡ some method)
unfolding get_auto_login_for_target set_auto_login_for_target get_persistence_for_target
    set_persistence_for_target get_target_authentication_method set_target_authentication_method
    field_of is_true method_or
get-set_settings iqn p b method named = (
  rw (find_created iqn p (λ t. record t { auto_login = some b })) refl,
  rw (find_created iqn p (λ t. record t { persistent = some b })) refl,
  rw (find_created iqn p (λ t. record t { auth = or_kept (auth_text method) t.auth })) (
      stored_method-or_kept method (or_created (find_target iqn p)).auth ∙ method_lem method named),
)
  where
    method_lem :
        (m : AuthMethod)
        → m ≢ method_invalid
        → method_or m (or_created (find_target iqn p)).auth ≡ some m
    method_lem method_none h = refl
    method_lem method_chap h = refl
    method_lem method_invalid h = absurd (h refl)
