-- ===== src/Keychain.antt =====
-- Source/User/iSCSI Framework/iSCSIKeychain.c: the CHAP secrets of nodes in the system keychain. The
-- calls of the Security framework are a parameter. The buffers of the code hold the texts with their
-- terminator; here they are the texts.
use i_scsiinitiator.Base.{
  Str, str_eq, Bool, true, false, Option, none, some, ◌≡◌, if◌then◌else◌, refl, arith, Bool-cases,
  inl, inr,
}
use i_scsiinitiator.Dict.{Dict, get, set_value}
use i_scsiinitiator.Dict.Laws.{
  is_some, is_some-none, str_eq_iff, remove_value, get-set_value, get-remove_value,
}

-- What the code uses of the Security framework, on the states of a keychain: a generic password by the
-- name that is its service and its account. A status is whether it is errSecSuccess.
pub record SecKeychain (S : Type 0) : Type 0 where
  -- SecKeychainFindGenericPassword
  pub find : Str → S → Option Str
  -- SecKeychainItemModifyContent
  pub modify : Str → Str → S → Bool × S
  -- SecAccessCreate and SecACLCreateWithSimpleContents
  pub access_created : S → Bool
  pub acl_created : S → Bool
  -- SecKeychainItemCreateFromContent
  pub create_item : Str → Str → S → Bool × S
  -- SecKeychainItemDelete
  pub delete_item : Str → S → S

module _ {S : Type 0} (sec : SecKeychain S) where
  -- iSCSIKeychainCopyCHAPSecretForNode
  unfoldable pub copy_chap_secret_for_node : Str → S → Option Str
  copy_chap_secret_for_node node s = sec.find node s

  unfoldable pub create_secret : Str → Str → S → Bool × S
  create_secret node secret s =
      if sec.access_created s
      then (if sec.acl_created s then sec.create_item node secret s else (false, s))
      else (false, s)

  -- iSCSIKeychainSetCHAPSecretForNode
  unfoldable pub set_chap_secret_for_node : Str → Str → S → Bool × S
  set_chap_secret_for_node node secret s =
      if is_some (sec.find node s) then sec.modify node secret s else create_secret node secret s

  -- iSCSIKeychainDeleteCHAPSecretForNode
  unfoldable pub delete_chap_secret_for_node : Str → S → Bool × S
  delete_chap_secret_for_node node s =
      if is_some (sec.find node s) then (true, sec.delete_item node s) else (false, s)

  -- iSCSIKeychainContainsCHAPSecretForNode
  unfoldable pub contains_chap_secret_for_node : Str → S → Bool
  contains_chap_secret_for_node node s = is_some (sec.find node s)

  -- The documented behaviour of the framework where every call succeeds.
  pub record Works : Type 0 where
    pub modify_succeeds : (node secret : Str) (s : S) → (sec.modify node secret s).0 ≡ true
    pub access_succeeds : (s : S) → sec.access_created s ≡ true
    pub acl_succeeds : (s : S) → sec.acl_created s ≡ true
    pub find-modify :
        (node other secret : Str) (s : S)
        → sec.find other (sec.modify node secret s).1
          ≡ (if str_eq node other then some secret else sec.find other s)
    pub find-create :
        (node other secret : Str) (s : S)
        → sec.find other (sec.create_item node secret s).1
          ≡ (if str_eq node other then some secret else sec.find other s)
    pub find-delete :
        (node other : Str) (s : S)
        → sec.find other (sec.delete_item node s)
          ≡ (if str_eq node other then none else sec.find other s)

  module _ (works : Works) where
    pub copy-set_chap_secret_for_node :
        (node other secret : Str) (s : S)
        → copy_chap_secret_for_node other (set_chap_secret_for_node node secret s).1
          ≡ (if str_eq node other then some secret else copy_chap_secret_for_node other s)
    unfolding copy_chap_secret_for_node set_chap_secret_for_node create_secret
    copy-set_chap_secret_for_node node other secret s = rw (works.access_succeeds s) (
        rw (works.acl_succeeds s) (elim (Bool-cases (is_some (sec.find node s))) [
          | inl h ↦ rw h (works.find-modify node other secret s)
          | inr h ↦ rw h (works.find-create node other secret s)
        ]))

    pub copy-delete_chap_secret_for_node :
        (node other : Str) (s : S)
        → copy_chap_secret_for_node other (delete_chap_secret_for_node node s).1
          ≡ (if str_eq node other then none else copy_chap_secret_for_node other s)
    unfolding copy_chap_secret_for_node delete_chap_secret_for_node
    copy-delete_chap_secret_for_node node other s = elim (Bool-cases (is_some (sec.find node s))) [
      | inl h ↦ rw h (works.find-delete node other s)
      | inr h ↦ rw h (
          unfold is_some in ground (arith, str_eq_iff node other, is_some-none (sec.find node s) h))
    ]

-- A keychain as a dictionary, on which every call succeeds.
abbrev pub dictionary : SecKeychain (Dict Str)
dictionary = record {
  find = get;
  modify = λ node secret s. (true, set_value node secret s);
  access_created = λ s. true;
  acl_created = λ s. true;
  create_item = λ node secret s. (true, set_value node secret s);
  delete_item = remove_value;
}

pub dictionary-Works : Works dictionary
dictionary-Works = record {
  modify_succeeds = λ node secret s. refl;
  access_succeeds = λ s. refl;
  acl_succeeds = λ s. refl;
  find-modify = λ node other secret s. get-set_value node other secret s;
  find-create = λ node other secret s. get-set_value node other secret s;
  find-delete = λ node other s. get-remove_value node other s;
}
