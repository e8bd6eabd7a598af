-- ===== src/Auth/Mutual.antt =====
-- Authentication of the target by CHAP.
use i_scsiinitiator.Base.{
  Str, ℕ, ◌==◌, ◌&&◌, true, Option, none, some, ◌≡◌, refl, inl, inr, arith, Bool-cases,
  if◌then◌else◌,
}
use i_scsiinitiator.Dict.{get}
use i_scsiinitiator.Platform.{Platform}
use i_scsiinitiator.Keys.{key_auth_chap_response}
use i_scsiinitiator.Target.{Target, Auth, get_chap_values}
use i_scsiinitiator.Hba.{World}
use i_scsiinitiator.Query.{Query, login_success}
use i_scsiinitiator.Negotiate.Login.{response}
use i_scsiinitiator.Auth.Chap.{
  Setting, e_auth, expected, verify, finish_chap, first_query, second_query, negotiate_chap,
}

-- The target answered our challenge with the digest of our secret.
pub record IsProof (sys : Platform) (env : Setting) (secret : Str) (rsp : Option Str) : Type 0 where
  pub answer : Str
  pub given : rsp ≡ some answer
  pub matches : sys.compare_ci answer (expected sys env secret) ≡ true

verify-IsProof :
    (sys : Platform) (env : Setting) (user secret : Str) (rsp : Option Str)
    → verify sys env (some user) (some secret) rsp ≡ 0
    → IsProof sys env secret rsp
unfolding verify
verify-IsProof sys env user secret none h = absurd (ground (arith, h))
verify-IsProof sys env user secret (some rsp) h =
    elim (Bool-cases (sys.compare_ci rsp (expected sys env secret))) [
      | inl e ↦ record { answer = rsp; given = refl; matches = e }
      | inr e ↦ absurd (ground (arith, e, h))
    ]

finish_chap-IsProof :
    (sys : Platform) (env : Setting) (target : Target) (target_auth : Auth) (user secret : Str)
    (q : Query) (w : World)
    → get_chap_values target_auth ≡ (some user, some secret)
    → (finish_chap sys env target target_auth q w).error ≡ 0
    → IsProof sys env secret (get key_auth_chap_response (response q))
unfolding finish_chap
finish_chap-IsProof sys env target target_auth user secret q w creds h =
    verify-IsProof sys env user secret _ (inside (rw creds at h))
  where
    inside :
        (if (if q.status == login_success then q.error else e_auth) == 0
            then verify sys env (some user) (some secret) (get key_auth_chap_response (response q))
            else (if q.status == login_success then q.error else e_auth))
          ≡ 0
        → verify sys env (some user) (some secret) (get key_auth_chap_response (response q)) ≡ 0
    inside k = ground (arith, k)

-- Where the target is to be authenticated, with a user and a secret, and CHAP ends without an error and
-- with status "success", the dictionary of answers that the second query leaves has a CHAP response
-- which is the digest of our identifier, the secret and our challenge, up to case.
pub negotiate_chap-authenticates :
    (sys : Platform) (env : Setting) (target : Target) (initiator_auth target_auth : Auth)
    (user secret : Str) (session_id connection_id tsih status : ℕ) (w : World)
    → get_chap_values target_auth ≡ (some user, some secret)
    → let l =
        negotiate_chap sys env target initiator_auth target_auth session_id connection_id tsih
          status w in
      l.error ≡ 0
      → l.status ≡ login_success
      → let (q, w') = first_query sys env session_id connection_id tsih status w in
        let (q2, w2) = second_query sys env initiator_auth target_auth q w' in
        IsProof sys env secret (get key_auth_chap_response (response q2))
unfolding negotiate_chap
negotiate_chap-authenticates sys env target initiator_auth target_auth user secret session_id
      connection_id tsih status w creds returns success =
    elim (Bool-cases (first.0.error == 0 && first.0.status == login_success)) [
      | inl e ↦
          finish_chap-IsProof sys env target target_auth user secret second.0 second.1 creds
            (rw e at returns)
      | inr e ↦ absurd (ground (arith, rw e at returns, rw e at success, e))
    ]
  where
    first : Query × World
    first = first_query sys env session_id connection_id tsih status w

    second : Query × World
    second = second_query sys env initiator_auth target_auth first.0 first.1
