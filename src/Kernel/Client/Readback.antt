-- ===== src/Kernel/Client/Readback.antt =====
-- Source/Kernel/iSCSIHBAUserClient.cpp: a parameter that is set and then read.
use i_scsiinitiator.Base.{ℕ, ◌%◌, ◌^◌, ◌<◌, some, [], ◌∷◌, ◌≡◌, refl, sym, arith}
use i_scsiinitiator.Hba.{
  SessionParameter, session_parameter_code, default_time2_retain, default_time2_wait,
  error_recovery_level, max_connections, immediate_data, initial_r2t, data_pdu_in_order,
  data_sequence_in_order, max_outstanding_r2t, max_burst_length, first_burst_length,
  target_session_id, target_portal_group_tag,
}
use i_scsiinitiator.Kernel.Slots.{slot, slot-set_slot-some}
use i_scsiinitiator.Kernel.State.{Env, Session, Hba, put_session}
use i_scsiinitiator.Kernel.Parameters.{
  io_success, session_field, assign_session, session_parameter, answer, number, truth, switch_case,
  done,
}
use i_scsiinitiator.Kernel.Client.{
  set_session_value, get_session_value, set_in_session, get_in_session,
}

-- What the field of a parameter keeps of a value: its width in bits, or whether it is 0.
unfoldable pub kept_value : SessionParameter → ℕ → ℕ
kept_value error_recovery_level v = v % 2 ^ 8
kept_value max_connections v = v % 2 ^ 32
kept_value max_burst_length v = v % 2 ^ 32
kept_value first_burst_length v = v % 2 ^ 32
kept_value immediate_data v = number (truth v)
kept_value initial_r2t v = number (truth v)
kept_value data_pdu_in_order v = number (truth v)
kept_value data_sequence_in_order v = number (truth v)
kept_value _ v = v % 2 ^ 16

session_parameter-code :
    (p : SessionParameter) → session_parameter (session_parameter_code p) ≡ some p
unfolding session_parameter switch_case
session_parameter-code default_time2_retain = refl
session_parameter-code default_time2_wait = refl
session_parameter-code error_recovery_level = refl
session_parameter-code max_connections = refl
session_parameter-code immediate_data = refl
session_parameter-code initial_r2t = refl
session_parameter-code data_pdu_in_order = refl
session_parameter-code data_sequence_in_order = refl
session_parameter-code max_outstanding_r2t = refl
session_parameter-code max_burst_length = refl
session_parameter-code first_burst_length = refl
session_parameter-code target_session_id = refl
session_parameter-code target_portal_group_tag = refl

session_field-assign_session :
    (p : SessionParameter) (v : ℕ) (s : Session)
    → session_field p (assign_session p v s) ≡ kept_value p v
unfolding session_field assign_session kept_value
session_field-assign_session default_time2_retain v s = refl
session_field-assign_session default_time2_wait v s = refl
session_field-assign_session error_recovery_level v s = refl
session_field-assign_session max_connections v s = refl
session_field-assign_session immediate_data v s = refl
session_field-assign_session initial_r2t v s = refl
session_field-assign_session data_pdu_in_order v s = refl
session_field-assign_session data_sequence_in_order v s = refl
session_field-assign_session max_outstanding_r2t v s = refl
session_field-assign_session max_burst_length v s = refl
session_field-assign_session first_burst_length v s = refl
session_field-assign_session target_session_id v s = refl
session_field-assign_session target_portal_group_tag v s = refl

-- The calls with the number of a parameter, at a session identifier of 16 bits in the table's range.
module _ (env : Env) (sid : ℕ) (p : SessionParameter) (h : Hba) (fits : sid < 2 ^ 16)
    (in_range : sid < env.max_sessions) where
  set_session_value-in_range :
      (v : ℕ)
      → set_session_value env (sid ∷ session_parameter_code p ∷ v ∷ []) h
        ≡ set_in_session sid (some p) v (slot h.sessions sid) h
  unfolding set_session_value
  set_session_value-in_range v = rw (session_parameter-code p) (ground arith)

  get_session_value-in_range :
      get_session_value env (sid ∷ session_parameter_code p ∷ []) h
      ≡ get_in_session (some p) (slot h.sessions sid) h
  unfolding get_session_value
  get_session_value-in_range = rw (session_parameter-code p) (ground arith)

-- What is read of a session that was written to an occupied slot.
get_session_value-put_session :
    (env : Env) (sid : ℕ) (p : SessionParameter) (s written : Session) (h : Hba)
    → sid < 2 ^ 16
    → sid < env.max_sessions
    → slot h.sessions sid ≡ some s
    → let after = put_session sid (some written) h in
      get_session_value env (sid ∷ session_parameter_code p ∷ []) after
      ≡ answer (session_field p written) after
unfolding put_session get_in_session
get_session_value-put_session env sid p s written h fits in_range found =
    rw (get_session_value-in_range env sid p (put_session sid (some written) h) fits in_range)
      (rw (slot-set_slot-some sid (some written) h.sessions s found) refl)

module _ (env : Env) (sid v : ℕ) (p : SessionParameter) (s : Session) (h : Hba)
    (fits : sid < 2 ^ 16) (in_range : sid < env.max_sessions)
    (found : slot h.sessions sid ≡ some s) where
  -- Where a session exists, SetSessionParameter stores the value under the parameter's number, with
  -- success, and GetSessionParameter then gives what a field of its width keeps of the value.
  pub get-set_session_value :
      let stored = set_session_value env (sid ∷ session_parameter_code p ∷ v ∷ []) h in
      let read = get_session_value env (sid ∷ session_parameter_code p ∷ []) stored.hba in
      (stored.result ≡ io_success) × (read ≡ answer (kept_value p v) stored.hba)
  unfolding set_in_session done
  get-set_session_value = rw (set_session_value-in_range env sid p h fits in_range v) (
      rw found (
        refl,
        rw (sym (session_field-assign_session p v s)) (
            get_session_value-put_session env sid p s (assign_session p v s) h fits in_range found),
      ))
