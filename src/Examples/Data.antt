-- ===== src/Examples/Data.antt =====
-- The targets' answers that the examples use.
use i_scsiinitiator.Base.{true, Str, codes, ℕ, List, [], ◌∷◌, ◌++◌, false}
use i_scsiinitiator.Hba.{World, Pdu, Delivery, SessionParameter}
use i_scsiinitiator.Query.{Context, op_login_rsp}
use i_scsiinitiator.Query.Stages.{security, operational}
use i_scsiinitiator.Auth.Chap.{Setting}
use i_scsiinitiator.Target.{Target, Auth}

-- A successful login response with the given stage byte and text.
abbrev pub reply : ℕ → Str → Pdu
reply stage text = record {
  op_code = op_login_rsp;
  stage = stage;
  response = 0;
  tsih = 0x0100;
  stat_sn = 7;
  exp_cmd_sn = 1;
  status_class = 0;
  status_detail = 0;
  segment = text;
  after = 0xaa;
}

abbrev pub pair : Str → Str → Str
pair key value = key ++ 0x3d ∷ value ++ 0 ∷ []

abbrev pub no_values : ℕ → SessionParameter → ℕ
no_values session_id parameter = 0

abbrev pub world_of : List Delivery → World
world_of ds = record {
  deliveries = ds;
  results = [];
  answers = record { call = 0; error = 0; session_id = 3; connection_id = 4; count = 2 } ∷ [];
  session_values = no_values;
  stores = λ s p. true;
  events = [];
}

abbrev pub to_operational : Context
to_operational = record {
  session_id = 3;
  connection_id = 4;
  current_stage = security;
  next_stage = operational;
  stat_sn = 0;
  exp_cmd_sn = 0;
  target_session_id = 0;
  transit_next_stage = false;
}

abbrev pub setting : Setting
setting = record {
  initiator_iqn = codes "iqn.i";
  initiator_alias = codes "i";
  random_id = 9;
  random_challenge = 1 ∷ 2 ∷ [];
  stack = to_operational;
  behind = 0 ∷ 0 ∷ 0 ∷ 0 ∷ [];
}

abbrev pub disk : Target
disk = record { iqn = codes "iqn.t"; alias = [] }

abbrev pub chap_auth : Auth
chap_auth =
    (codes "Authentication Method", codes "CHAP")
    ∷ (codes "User", codes "u")
    ∷ (codes "Shared Secret", codes "secret")
    ∷ []
