-- ===== src/Query/Stages.antt =====
-- enum iSCSIPDULoginStages, and the stage byte of a login request.
use i_scsiinitiator.Base.{ℕ, ◌*◌, ◌/◌, ◌%◌, ◌^◌, bit_or, ◌==◌, Bool, ◌≡◌, ◌↔◌, arith, if◌then◌else◌}

pub data Stage : Type 0 where
  security operational full_feature : Stage

abbrev pub stage_code : Stage → ℕ
stage_code security = 0
stage_code operational = 1
stage_code full_feature = 3

abbrev pub stage_eq : Stage → Stage → Bool
stage_eq s t = stage_code s == stage_code t

-- cmd.loginStage: next stage at bit 0, current stage at bit 2, the transit flag if they differ.
unfoldable pub login_stage : Stage → Stage → ℕ
login_stage current next =
    let stages = bit_or (stage_code next * 2 ^ 0) (stage_code current * 2 ^ 2) in
    if stage_eq current next then stages else bit_or stages 0x80

-- A target reads the request's byte back (RFC 3720, 10.12): the next stage in bits 0-1, the current
-- one in bits 2-3, the continue bit 6 clear, and the transit bit 7 set exactly when a transition is asked for.
pub login_stage-fields :
    (current next : Stage)
    → (login_stage current next % 4 ≡ stage_code next)
      × (login_stage current next / 4 % 4 ≡ stage_code current)
      × (login_stage current next / 64 % 2 ≡ 0)
      × ((login_stage current next / 128 ≡ 0) ↔ (current ≡ next))
unfolding login_stage
login_stage-fields security security = ground arith
login_stage-fields security operational = ground arith
login_stage-fields security full_feature = ground arith
login_stage-fields operational security = ground arith
login_stage-fields operational operational = ground arith
login_stage-fields operational full_feature = ground arith
login_stage-fields full_feature security = ground arith
login_stage-fields full_feature operational = ground arith
login_stage-fields full_feature full_feature = ground arith
