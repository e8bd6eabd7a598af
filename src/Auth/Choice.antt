-- ===== src/Auth/Choice.antt =====
-- The security stage past its first query.
use i_scsiinitiator.Base.{◌%◌, ◌^◌, ℕ, ◌≡◌, refl}
use i_scsiinitiator.Dict.{get}
use i_scsiinitiator.Platform.{Platform}
use i_scsiinitiator.Keys.{key_target_portal_group_tag}
use i_scsiinitiator.Target.{Target, Auth}
use i_scsiinitiator.Hba.{World, target_session_id}
use i_scsiinitiator.Hba.Calls.{get_session_parameter}
use i_scsiinitiator.Query.{Query, login_success}
use i_scsiinitiator.Negotiate.Login.{response}
use i_scsiinitiator.Auth.Chap.{Setting}
use i_scsiinitiator.Auth.Security.{check_tag, after_tag, open_query, record_stat_sn, negotiate}

module _ (sys : Platform) (env : Setting) (target : Target) (initiator_auth target_auth : Auth)
    (session_id connection_id status : ℕ) (w : World) where
  abbrev pub opened : Query × World
  opened = open_query sys env target initiator_auth target_auth session_id connection_id status w

  abbrev pub recorded : World
  recorded = record_stat_sn session_id connection_id opened.0 opened.1

  abbrev pub known_tsih : ℕ
  known_tsih = get_session_parameter session_id target_session_id 0 w % 2 ^ 16

  -- Past the first query, the negotiation is what follows the tag's check.
  pub negotiate-after_tag :
      opened.0.error ≡ 0
      → opened.0.status ≡ login_success
      → negotiate sys env target initiator_auth target_auth session_id connection_id status w
        ≡ after_tag sys env target initiator_auth target_auth session_id connection_id known_tsih
            opened.0 recorded
            (check_tag sys target session_id known_tsih
              (get key_target_portal_group_tag (response opened.0))
              recorded)
  unfolding negotiate
  negotiate-after_tag returns success = rw (returns, success) refl
