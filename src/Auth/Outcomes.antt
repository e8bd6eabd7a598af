-- ===== src/Auth/Outcomes.antt =====
-- Source/User/iscsid/iSCSIAuth.c: all the ways in which iSCSIAuthNegotiate can succeed where the target is to
-- be authenticated.
use i_scsiinitiator.Base.{Str, str_eq, ℕ, true, false, some, ◌≡◌, ◌⊎◌}
use i_scsiinitiator.Dict.{Dict, get}
use i_scsiinitiator.Platform.{Platform}
use i_scsiinitiator.Keys.{
  key_auth_method, key_auth_chap_response, value_auth_method_chap, key_target_portal_group_tag,
}
use i_scsiinitiator.Target.{Target, Auth, get_method}
use i_scsiinitiator.Hba.{World}
use i_scsiinitiator.Query.{Query}
use i_scsiinitiator.Negotiate.Login.{Login, response}
use i_scsiinitiator.Auth.Chap.{Setting, first_query, second_query, offered_methods}
use i_scsiinitiator.Auth.Security.{TagCheck, valid, check_tag}
use i_scsiinitiator.Auth.Mutual.{IsProof}
use i_scsiinitiator.Auth.Choice.{opened, recorded, known_tsih}

module _ (sys : Platform) (env : Setting) (target : Target) (initiator_auth target_auth : Auth)
    (session_id connection_id status : ℕ) (w : World) (secret : Str) where
  abbrev query : Query
  query = (opened sys env target initiator_auth target_auth session_id connection_id status w).0

  abbrev after_query : World
  after_query = recorded sys env target initiator_auth target_auth session_id connection_id status w

  abbrev tsih : ℕ
  tsih = known_tsih sys env target initiator_auth target_auth session_id connection_id status w

  abbrev tag : TagCheck
  tag =
      check_tag sys target session_id tsih (get key_target_portal_group_tag (response query))
        after_query

  abbrev offered : Str
  offered = offered_methods (get_method initiator_auth) (get_method target_auth)

  abbrev last_response : World → Dict Str
  last_response w' =
      let (q1, w1) = first_query sys env session_id connection_id tsih query.status w' in
      let (q2, w2) = second_query sys env initiator_auth target_auth q1 w1 in response q2

  -- The method that the target chose, and what it did for it.
  pub record IsChosen (w' : World) (answer : Str) : Type 0 where
    pub tagged : tag ≡ valid w'
    pub chosen : get key_auth_method (response query) ≡ some answer
    pub checked :
        ((str_eq answer value_auth_method_chap ≡ false) × (sys.find_ci offered answer ≡ true))
        ⊎ IsProof sys env secret (get key_auth_chap_response (last_response w'))
