-- ===== src/Negotiate/Agreed.antt =====
-- What the kernel holds after a negotiation that succeeded.
use i_scsiinitiator.Base.{Str, ℕ, zero, suc, ◌≤◌, ◌%◌, ◌^◌, Option, none, some, ◌≡◌, refl, arith}
use i_scsiinitiator.Dict.{Dict, get}
use i_scsiinitiator.Platform.{Platform}
use i_scsiinitiator.Keys.{
  key_default_time2_wait, key_default_time2_retain, key_error_recovery_level,
}
use i_scsiinitiator.Hba.{
  World, SessionParameter, default_time2_retain, default_time2_wait, error_recovery_level,
}
use i_scsiinitiator.Hba.Calls.{set_session_parameter}
use i_scsiinitiator.Negotiate.Values.{get_min, range_invalid-true}
use i_scsiinitiator.Negotiate.Answer.{
  Outcome, then_do, store, Bounds, checked_minimum, retain_bounds, wait_bounds, level_bounds,
  required, parse_sw_dict_common,
}

pub then_do-ok :
    (m : Outcome) (next : World → Outcome) (w' : World)
    → then_do m next ≡ some (0, w')
    → (w : World) × (m ≡ some (0, w)) × (next w ≡ some (0, w'))
unfolding then_do
then_do-ok none next w' h = ground arith
then_do-ok (some (zero, w)) next w' h = (w, refl, h)
then_do-ok (some (suc e, w)) next w' h = ground arith

-- The target answered an offered key with a value in its range.
pub record Accepted (sys : Platform) (b : Bounds) (cmd rsp : Option Str) : Type 0 where
  pub offer : Str
  pub answer : Str
  pub offered : cmd ≡ some offer
  pub answered : rsp ≡ some answer
  pub low : b.low ≤ sys.int_value answer % 2 ^ b.width
  pub high : sys.int_value answer % 2 ^ b.width ≤ b.high

-- The minimum of an accepted answer and its offer.
abbrev pub agreed_value :
    (sys : Platform) (b : Bounds) {cmd rsp : Option Str} → Accepted sys b cmd rsp → ℕ
agreed_value sys b a = get_min sys a.offer a.answer % 2 ^ b.width

-- The step from `w` to `after` stores the agreed value of an accepted answer.
pub record Kept (sys : Platform) (session_id : ℕ) (parameter : SessionParameter) (b : Bounds)
    (cmd rsp : Option Str) (w after : World) : Type 0 where
  pub accepted : Accepted sys b cmd rsp
  pub world : after ≡ set_session_parameter session_id parameter (agreed_value sys b accepted) w

pub stores-set :
    (session_id : ℕ) (parameter : SessionParameter) (value : ℕ) (w : World)
    → (set_session_parameter session_id parameter value w).stores ≡ w.stores
unfolding set_session_parameter
stores-set session_id parameter value w = ground arith

module _ (sys : Platform) (session_id : ℕ) (parameter : SessionParameter) (b : Bounds) where
  required-accepts :
      (cmd rsp : Option Str) (w : World) (a : Accepted sys b cmd rsp)
      → required sys session_id parameter b cmd rsp w
        ≡ some (0, set_session_parameter session_id parameter (agreed_value sys b a) w)
  unfolding required checked_minimum store
  required-accepts cmd none w a = absurd (ground (arith, a.answered))
  required-accepts none (some rsp) w a = absurd (ground (arith, a.offered))
  required-accepts (some cmd) (some rsp) w a =
      rw (the_offer, the_answer) (rw (range_invalid-true _ b.low b.high a.low a.high) refl)
    where
      the_offer : cmd ≡ a.offer
      the_offer = ground (arith, a.offered)

      the_answer : rsp ≡ a.answer
      the_answer = ground (arith, a.answered)

-- The three parameters that every login negotiates, accepted and then held by the kernel.
pub record CommonAgreed (sys : Platform) (session_id : ℕ) (cmd rsp : Dict Str) (w : World)
    : Type 0 where
  pub retain :
      Accepted sys retain_bounds
        (get key_default_time2_retain cmd)
        (get key_default_time2_retain rsp)
  pub wait :
      Accepted sys wait_bounds (get key_default_time2_wait cmd) (get key_default_time2_wait rsp)
  pub level :
      Accepted sys level_bounds
        (get key_error_recovery_level cmd)
        (get key_error_recovery_level rsp)
  pub retain_held :
      w.session_values session_id default_time2_retain ≡ agreed_value sys retain_bounds retain
  pub wait_held : w.session_values session_id default_time2_wait ≡ agreed_value sys wait_bounds wait
  pub level_held :
      w.session_values session_id error_recovery_level ≡ agreed_value sys level_bounds level

module _ (sys : Platform) (session_id : ℕ) (cmd rsp : Dict Str) where
  -- Conversely, where the target answers all three offered keys with values in their ranges, the
  -- common parameters are parsed without an error.
  parse_sw_dict_common-accepts :
      (w : World)
      → Accepted sys retain_bounds
          (get key_default_time2_retain cmd)
          (get key_default_time2_retain rsp)
      → Accepted sys wait_bounds (get key_default_time2_wait cmd) (get key_default_time2_wait rsp)
      → Accepted sys level_bounds
          (get key_error_recovery_level cmd)
          (get key_error_recovery_level rsp)
      → (w' : World) × (parse_sw_dict_common sys session_id cmd rsp w ≡ some (0, w'))
  unfolding parse_sw_dict_common then_do
  parse_sw_dict_common-accepts w a b c =
      let w1 =
        set_session_parameter session_id default_time2_retain (agreed_value sys retain_bounds a)
          w in
      let w2 =
        set_session_parameter session_id default_time2_wait (agreed_value sys wait_bounds b) w1 in
      let w3 =
        set_session_parameter session_id error_recovery_level (agreed_value sys level_bounds c)
          w2 in
      (
        w3,
        rw (required-accepts sys session_id default_time2_retain retain_bounds _ _ w a) (
            rw (required-accepts sys session_id default_time2_wait wait_bounds _ _ w1 b)
              (required-accepts sys session_id error_recovery_level level_bounds _ _ w2 c)),
      )
