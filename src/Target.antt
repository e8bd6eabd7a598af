-- ===== src/Target.antt =====
-- Source/User/iSCSI Framework/iSCSITypes.c: target records and authentication objects, both of which
-- are CFDictionaries with string values.
use i_scsiinitiator.Base.{
  Str, codes, str_eq, [], ◌∷◌, Bool, true, false, Option, none, some, if◌then◌else◌,
}
use i_scsiinitiator.Dict.{Dict, get}

-- A target record: iSCSITargetCreateMutable sets both keys, and nothing removes them. An unspecified
-- IQN is the empty string.
pub record Target : Type 0 where
  pub iqn : Str
  pub alias : Str

-- iSCSITargetCreateMutable
abbrev pub create_mutable : Target
create_mutable = record { iqn = []; alias = [] }

-- iSCSITargetSetIQN
unfoldable pub set_iqn : Str → Target → Target
set_iqn iqn target = if str_eq iqn [] then target else record target { iqn = iqn }

-- iSCSITargetSetAlias
unfoldable pub set_alias : Str → Target → Target
set_alias alias target = if str_eq alias [] then target else record target { alias = alias }

-- CFStringCompare(iSCSITargetGetIQN(target),kiSCSIUnspecifiedTargetIQN,0) == kCFCompareEqualTo
unfoldable pub is_discovery : Target → Bool
is_discovery target = str_eq target.iqn []

-- enum iSCSIAuthMethods
pub data AuthMethod : Type 0 where
  method_none method_chap method_invalid : AuthMethod

abbrev pub Auth : Type 0
Auth = Dict Str

-- iSCSIAuthCreateNone
abbrev pub create_none : Auth
create_none = (codes "Authentication Method", codes "None") ∷ []

-- iSCSIAuthCreateCHAP; `none` is NULL.
abbrev pub create_chap : Option Str → Option Str → Option Auth
create_chap (some name) (some secret) = some (
    (codes "Authentication Method", codes "CHAP")
    ∷ (codes "User", name)
    ∷ (codes "Shared Secret", secret)
    ∷ [])
create_chap none secret = none
create_chap (some name) none = none

-- iSCSIAuthGetMethod
unfoldable pub get_method : Auth → AuthMethod
get_method auth = elim (get (codes "Authentication Method") auth) [
  | none ↦ method_invalid
  | some method ↦
      if str_eq method (codes "CHAP")
      then method_chap
      else if str_eq method (codes "None")
      then method_none
      else method_invalid
]

abbrev pub is_chap : AuthMethod → Bool
is_chap method_chap = true
is_chap method_none = false
is_chap method_invalid = false

abbrev pub is_none : AuthMethod → Bool
is_none method_none = true
is_none method_chap = false
is_none method_invalid = false

-- iSCSIAuthGetCHAPValues, on variables that hold NULL: the user and the secret.
unfoldable pub get_chap_values : Auth → Option Str × Option Str
get_chap_values auth =
    if is_chap (get_method auth)
    then (get (codes "User") auth, get (codes "Shared Secret") auth)
    else (none, none)
