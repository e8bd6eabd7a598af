-- ===== src/Auth/EndToEnd.antt =====
-- Authentication of the target, from the first query of a login on.
use i_scsiinitiator.Base.{
  Str, str_eq, ℕ, ◌==◌, ◌&&◌, true, some, ◌≡◌, ◌⊎◌, refl, sym, ap, ◌∙◌, inl, inr, arith, Bool-cases,
}
use i_scsiinitiator.Dict.{Dict, get}
use i_scsiinitiator.Platform.{Platform}
use i_scsiinitiator.Keys.{
  key_auth_method, key_auth_chap_response, value_auth_method_chap, key_target_portal_group_tag,
}
use i_scsiinitiator.Target.{Target, Auth, AuthMethod, get_method, get_chap_values}
use i_scsiinitiator.Hba.{World}
use i_scsiinitiator.Query.{Query, login_success}
use i_scsiinitiator.Negotiate.Login.{Login, response}
use i_scsiinitiator.Auth.Chap.{Setting, negotiate_chap, first_query, second_query, offered_methods}
use i_scsiinitiator.Auth.Security.{
  valid, choose, Choice, refused, run_chap, after_chap, authenticate, by_method, after_tag,
  check_tag, negotiate,
}
use i_scsiinitiator.Auth.Mutual.{IsProof, negotiate_chap-authenticates}
use i_scsiinitiator.Auth.Choice.{negotiate-after_tag, opened, recorded, known_tsih}

after_chap-ends :
    (rsp : Dict Str) (l : Login)
    → ((after_chap rsp l).error ≡ l.error) × ((after_chap rsp l).status ≡ l.status)
unfolding after_chap
after_chap-ends rsp l = elim (Bool-cases (l.error == 0 && l.status == login_success)) [
  | inl e ↦ rw e (refl, refl)
  | inr e ↦ rw e (refl, refl)
]

choose-chap :
    (sys : Platform) (method : AuthMethod) (offered answer : Str)
    → str_eq answer value_auth_method_chap ≡ true
    → (choose sys method offered answer ≡ run_chap) ⊎ (choose sys method offered answer ≡ refused)
unfolding choose
choose-chap sys method offered answer chap = elim (Bool-cases (sys.find_ci offered answer)) [
  | inl e ↦ inl (rw (e, chap) refl)
  | inr e ↦ inr (rw e refl)
]

module _ (sys : Platform) (env : Setting) (target : Target) (initiator_auth target_auth : Auth)
    (session_id connection_id tsih : ℕ) where
  authenticate-run_chap :
      (q : Query) (w : World) (choice : Choice) (user secret : Str)
      → (choice ≡ run_chap) ⊎ (choice ≡ refused)
      → get_chap_values target_auth ≡ (some user, some secret)
      → let l =
          authenticate sys env target initiator_auth target_auth session_id connection_id tsih q w
            choice in
        l.error ≡ 0
        → l.status ≡ login_success
        → let (q1, w1) = first_query sys env session_id connection_id tsih q.status w in
          let (q2, w2) = second_query sys env initiator_auth target_auth q1 w1 in
          IsProof sys env secret (get key_auth_chap_response (response q2))
  unfolding authenticate
  authenticate-run_chap q w choice user secret (inr refuses) creds returns success =
      absurd (omega (arith, rw refuses at returns))
  authenticate-run_chap q w choice user secret (inl chap) creds returns success =
      let ends = after_chap-ends (response q) (
        negotiate_chap sys env target initiator_auth target_auth session_id connection_id tsih
          q.status w) in
      negotiate_chap-authenticates sys env target initiator_auth target_auth user secret session_id
        connection_id tsih q.status w creds (sym ends.0 ∙ (rw chap at returns))
        (sym ends.1 ∙ (rw chap at success))

  after_tag-authenticate :
      (q : Query) (v w' : World) (answer : Str)
      → get key_auth_method (response q) ≡ some answer
      → after_tag sys env target initiator_auth target_auth session_id connection_id tsih q v
          (valid w')
        ≡ some (
            authenticate sys env target initiator_auth target_auth session_id connection_id tsih q
              w'
              (choose sys
                (get_method initiator_auth)
                (offered_methods (get_method initiator_auth) (get_method target_auth))
                answer))
  unfolding after_tag by_method
  after_tag-authenticate q v w' answer method = rw method refl

pub some-injective : (l m : Login) → some l ≡ some m → l ≡ m
some-injective l m h = ground (arith, h)

-- Where the target is to be authenticated, with a user and a secret, the first query succeeds, the portal
-- group tag is in order, and the target chooses exactly the method "CHAP": after a negotiation that returns
-- no error and the status "success", the dictionary behind the second query of CHAP, which may have kept it
-- from the first, has as the target's response the digest of our identifier, the secret and our challenge,
-- up to case.
pub negotiate-authenticates :
    (sys : Platform) (env : Setting) (target : Target) (initiator_auth target_auth : Auth)
    (session_id connection_id status : ℕ) (w w' : World) (user secret answer : Str) (l : Login)
    → let (q, v) =
        opened sys env target initiator_auth target_auth session_id connection_id status w in
      let after =
        recorded sys env target initiator_auth target_auth session_id connection_id status w in
      let tsih =
        known_tsih sys env target initiator_auth target_auth session_id connection_id status w in
      get_chap_values target_auth ≡ (some user, some secret)
      → q.error ≡ 0
      → q.status ≡ login_success
      → check_tag sys target session_id tsih (get key_target_portal_group_tag (response q)) after
        ≡ valid w'
      → get key_auth_method (response q) ≡ some answer
      → str_eq answer value_auth_method_chap ≡ true
      → negotiate sys env target initiator_auth target_auth session_id connection_id status w
        ≡ some l
      → l.error ≡ 0
      → l.status ≡ login_success
      → let (q1, w1) = first_query sys env session_id connection_id tsih q.status w' in
        let (q2, w2) = second_query sys env initiator_auth target_auth q1 w1 in
        IsProof sys env secret (get key_auth_chap_response (response q2))
negotiate-authenticates sys env target initiator_auth target_auth session_id connection_id status w
      w' user secret answer l creds returns success tag method chap h ends_well succeeds =
    authenticate-run_chap sys env target initiator_auth target_auth session_id connection_id tsih q
      w' (choose sys (get_method initiator_auth) offered answer) user secret
      (choose-chap sys (get_method initiator_auth) offered answer chap) creds
      (ap (λ (x : Login). x.error) the_login ∙ ends_well)
      (ap (λ (x : Login). x.status) the_login ∙ succeeds)
  where
    q : Query
    q = (opened sys env target initiator_auth target_auth session_id connection_id status w).0

    tsih : ℕ
    tsih = known_tsih sys env target initiator_auth target_auth session_id connection_id status w

    offered : Str
    offered = offered_methods (get_method initiator_auth) (get_method target_auth)

    past_tag :
        after_tag sys env target initiator_auth target_auth session_id connection_id tsih q
          (recorded sys env target initiator_auth target_auth session_id connection_id status w)
          (valid w')
        ≡ some l
    past_tag = rw tag at (
        sym (
          negotiate-after_tag sys env target initiator_auth target_auth session_id connection_id
            status w returns success)
        ∙ h)

    the_login :
        authenticate sys env target initiator_auth target_auth session_id connection_id tsih q w'
          (choose sys (get_method initiator_auth) offered answer)
        ≡ l
    the_login = some-injective _ l (
        sym (
          after_tag-authenticate sys env target initiator_auth target_auth session_id connection_id
            tsih q _ w' answer method)
        ∙ past_tag)
