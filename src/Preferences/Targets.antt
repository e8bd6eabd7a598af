-- ===== src/Preferences/Targets.antt =====
-- Source/User/iSCSI Framework/iSCSIPreferences.c: the settings of a target.
use i_scsiinitiator.Base.{
  Str, str_eq, codes, ℕ, ◌%◌, ◌^◌, Bool, true, false, Option, none, some, if◌then◌else◌,
}
use i_scsiinitiator.Target.{AuthMethod, method_none, method_chap, method_invalid}
use i_scsiinitiator.Preferences.{
  TargetDict, Preferences, find_target, get_target_dict, change_target, must_change,
}

-- enum iSCSIDigestTypes and enum iSCSITargetConfigTypes
pub data DigestType : Type 0 where
  digest_none digest_crc32c digest_invalid : DigestType

pub data ConfigType : Type 0 where
  config_static config_dynamic_send_targets config_invalid : ConfigType

-- The stored texts. A method or type that is not named leaves the dictionary as it is.
unfoldable pub digest_text : DigestType → Option Str
digest_text digest_none = some (codes "None")
digest_text digest_crc32c = some (codes "CRC32C")
digest_text digest_invalid = none

unfoldable pub digest_type : Option Str → DigestType
digest_type none = digest_invalid
digest_type (some text) =
    if str_eq text (codes "None")
    then digest_none
    else if str_eq text (codes "CRC32C")
    then digest_crc32c
    else digest_invalid

unfoldable pub auth_text : AuthMethod → Option Str
auth_text method_none = some (codes "None")
auth_text method_chap = some (codes "CHAP")
auth_text method_invalid = none

unfoldable pub auth_method : Str → AuthMethod
auth_method text =
    if str_eq text (codes "None")
    then method_none
    else if str_eq text (codes "CHAP")
    then method_chap
    else method_invalid

-- The comparisons of an authentication text, which end the process where it is missing.
unfoldable pub stored_method : Option Str → Option AuthMethod
stored_method none = none
stored_method (some text) = some (auth_method text)

unfoldable pub config_text : ConfigType → Option Str
config_text config_static = some (codes "Static")
config_text config_dynamic_send_targets = some (codes "SendTargets")
config_text config_invalid = none

unfoldable pub config_type : Str → ConfigType
config_type text =
    if str_eq text (codes "Static")
    then config_static
    else if str_eq text (codes "SendTargets")
    then config_dynamic_send_targets
    else config_invalid

-- CFDictionarySetValue where there is a text, else nothing.
unfoldable pub or_kept : Option Str → Option Str → Option Str
or_kept none old = old
or_kept (some text) old = some text

-- A field of a target that may be missing.
unfoldable pub field_of : {A : Type 0} → (TargetDict → Option A) → Option TargetDict → Option A
field_of field none = none
field_of field (some t) = field t

unfoldable pub set_max_connections_for_target : Str → ℕ → Preferences → Option Preferences
set_max_connections_for_target iqn n p =
    must_change iqn (λ t. record t { max_connections = some (n % 2 ^ 32) }) p

unfoldable pub set_error_recovery_level_for_target : Str → ℕ → Preferences → Option Preferences
set_error_recovery_level_for_target iqn level p =
    must_change iqn (λ t. record t { error_recovery_level = some (level % 2 ^ 32) }) p

unfoldable pub get_max_connections_for_target : Str → Preferences → Option ℕ
get_max_connections_for_target iqn p = field_of (λ t. t.max_connections) (find_target iqn p)

unfoldable pub get_error_recovery_level_for_target : Str → Preferences → Option ℕ
get_error_recovery_level_for_target iqn p =
    field_of (λ t. t.error_recovery_level) (find_target iqn p)

unfoldable pub get_data_digest_for_target : Str → Preferences → DigestType
get_data_digest_for_target iqn p = digest_type (field_of (λ t. t.data_digest) (find_target iqn p))

unfoldable pub set_data_digest_for_target : Str → DigestType → Preferences → Preferences
set_data_digest_for_target iqn digest p =
    change_target iqn (λ t. record t { data_digest = or_kept (digest_text digest) t.data_digest }) p

unfoldable pub get_header_digest_for_target : Str → Preferences → DigestType
get_header_digest_for_target iqn p =
    digest_type (field_of (λ t. t.header_digest) (find_target iqn p))

unfoldable pub set_header_digest_for_target : Str → DigestType → Preferences → Preferences
set_header_digest_for_target iqn digest p =
    change_target iqn
      (λ t. record t { header_digest = or_kept (digest_text digest) t.header_digest }) p

unfoldable pub set_auto_login_for_target : Str → Bool → Preferences → Preferences
set_auto_login_for_target iqn auto_login p =
    change_target iqn (λ t. record t { auto_login = some auto_login }) (get_target_dict iqn true p)

-- value == kCFBooleanTrue
unfoldable pub is_true : Option Bool → Bool
is_true none = false
is_true (some b) = b

-- The getters that create a missing target return the changed object too.
unfoldable pub get_auto_login_for_target : Str → Preferences → Bool × Preferences
get_auto_login_for_target iqn p =
    let q = get_target_dict iqn true p in
    (is_true (field_of (λ t. t.auto_login) (find_target iqn q)), q)

unfoldable pub set_persistence_for_target : Str → Bool → Preferences → Preferences
set_persistence_for_target iqn persistent p =
    change_target iqn (λ t. record t { persistent = some persistent }) (get_target_dict iqn true p)

unfoldable pub get_persistence_for_target : Str → Preferences → Bool × Preferences
get_persistence_for_target iqn p =
    let q = get_target_dict iqn true p in
    (is_true (field_of (λ t. t.persistent) (find_target iqn q)), q)

unfoldable pub set_target_alias : Str → Str → Preferences → Preferences
set_target_alias iqn alias p = change_target iqn (λ t. record t { alias = some alias }) p

-- An alias that was never set is NULL, that of a missing target the empty text.
unfoldable pub alias_of : Option TargetDict → Option Str
alias_of none = some (codes "")
alias_of (some t) = t.alias

unfoldable pub get_target_alias : Str → Preferences → Option Str
get_target_alias iqn p = alias_of (find_target iqn p)

unfoldable pub set_target_authentication_method : Str → AuthMethod → Preferences → Preferences
set_target_authentication_method iqn method p =
    change_target iqn (λ t. record t { auth = or_kept (auth_text method) t.auth })
      (get_target_dict iqn true p)

unfoldable pub get_target_authentication_method :
    Str → Preferences → Option (AuthMethod) × Preferences
get_target_authentication_method iqn p =
    let q = get_target_dict iqn true p in
    (stored_method (field_of (λ t. t.auth) (find_target iqn q)), q)

unfoldable pub set_target_chap_name : Str → Str → Preferences → Preferences
set_target_chap_name iqn name p =
    change_target iqn (λ t. record t { chap_name = some name }) (get_target_dict iqn true p)

unfoldable pub copy_target_chap_name : Str → Preferences → Option Str × Preferences
copy_target_chap_name iqn p =
    let q = get_target_dict iqn true p in (field_of (λ t. t.chap_name) (find_target iqn q), q)

unfoldable pub set_target_config_type : Str → ConfigType → Preferences → Preferences
set_target_config_type iqn kind p =
    change_target iqn (λ t. record t { config_type = or_kept (config_text kind) t.config_type })
      (get_target_dict iqn true p)

-- A target with no configuration type is taken for static, and its dictionary is repaired.
unfoldable pub config_of : Str → Option TargetDict → Preferences → ConfigType × Preferences
config_of iqn none p = (config_invalid, p)
config_of iqn (some t) p = elim t.config_type [
  | none ↦ (
    config_static,
    change_target iqn (λ t. record t { config_type = config_text config_static }) p,
  )
  | some text ↦ (config_type text, p)
]

unfoldable pub get_target_config_type : Str → Preferences → ConfigType × Preferences
get_target_config_type iqn p = config_of iqn (find_target iqn p) p

unfoldable pub get_discovery_portal_for_target : Str → Preferences → Option Str
get_discovery_portal_for_target iqn p = field_of (λ t. t.send_targets_portal) (find_target iqn p)
