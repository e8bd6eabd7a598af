-- ===== src/Query.antt =====
-- Source/User/iscsid/iSCSIQueryTarget.c: one login request and its response, and the retries until
-- the target agrees to the next stage.
pub mod Stages
pub mod Frame
pub mod Advance
pub mod Response
pub mod Pairs
use i_scsiinitiator.Base.{
  Str, ℕ, zero, suc, ◌+◌, ◌*◌, ◌%◌, ◌^◌, ◌/◌, bit_and, bit_or, ◌==◌, ◌&&◌, ◌||◌, Bool, true, false,
  not, Option, none, some, List, [], ◌∷◌, if◌then◌else◌,
}
use i_scsiinitiator.Dict.{Dict}
use i_scsiinitiator.Platform.{Platform}
use i_scsiinitiator.Pdu.Parse.{parse_to_dict}
use i_scsiinitiator.Pdu.Create.{create_from_dict}
use i_scsiinitiator.Hba.{
  LoginRequest, login, Pdu, Delivery, delivered, failed, World, invalid_session_id,
}
use i_scsiinitiator.Hba.Calls.{bad_argument, connection_lost, is_invalid, send}
use Stages.{Stage, full_feature, stage_code, stage_eq, login_stage}

-- kiSCSIPDUOpCodeLoginRsp, kiSCSIPDUOpCodeReject
abbrev pub op_login_rsp : ℕ
op_login_rsp = 0x23

abbrev pub op_reject : ℕ
op_reject = 0x3f

-- kiSCSIPDUTextReqContinueFlag, kiSCSIPDULoginTransitFlag
abbrev pub continue_flag : ℕ
continue_flag = 0x40

abbrev pub transit_flag : ℕ
transit_flag = 0x80

-- kiSCSILoginSuccess, kiSCSILoginInvalidReqDuringLogin
abbrev pub login_success : ℕ
login_success = 0

abbrev pub login_invalid_req : ℕ
login_invalid_req = 0x020b

-- EOPNOTSUPP
abbrev pub e_op_not_supp : ℕ
e_op_not_supp = 102

abbrev pub has_flag : ℕ → ℕ → Bool
has_flag byte flag = not (bit_and byte flag == 0)

-- CFSwapInt16HostToBig and CFSwapInt32HostToBig on a little-endian host
abbrev pub swap16 : ℕ → ℕ
swap16 n = n % 2 ^ 8 * 2 ^ 8 + n / 2 ^ 8 % 2 ^ 8

abbrev pub swap32 : ℕ → ℕ
swap32 n = swap16 (n % 2 ^ 16) * 2 ^ 16 + swap16 (n / 2 ^ 16 % 2 ^ 16)

-- struct iSCSILoginQueryContext, but for the HBA interface
pub record Context : Type 0 where
  pub session_id : ℕ
  pub connection_id : ℕ
  pub current_stage : Stage
  pub next_stage : Stage
  pub stat_sn : ℕ
  pub exp_cmd_sn : ℕ
  pub target_session_id : ℕ
  pub transit_next_stage : Bool

-- The results of a query, which the code leaves in its return value and behind its pointers.
-- `text_rsp` is `none` where the caller passed NULL.
pub record Query : Type 0 where
  pub error : ℕ
  pub status : ℕ
  pub context : Context
  pub text_rsp : Option (Dict Str)

-- The CID field has 16 bits, and is assigned the swapped 32-bit identifier.
unfoldable pub login_request : Context → LoginRequest
unfolding login_stage
login_request c = record {
  login_stage = login_stage c.current_stage c.next_stage;
  isid_d = swap16 c.session_id;
  tsih = swap16 c.target_session_id;
  cid = swap32 c.connection_id % 2 ^ 16;
}

-- What a successful login response changes in the context.
unfoldable pub update_context : Pdu → Context → Context
update_context p c = record c {
  target_session_id =
      if c.target_session_id == 0 && stage_eq c.next_stage full_feature
      then swap16 p.tsih
      else c.target_session_id;
  stat_sn = p.stat_sn;
  exp_cmd_sn = p.exp_cmd_sn;
  transit_next_stage = has_flag p.stage transit_flag;
}

abbrev pub status_of : Pdu → ℕ
status_of p = bit_or (p.status_class * 2 ^ 8) p.status_detail

-- The body of the receive loop, for a PDU that arrived.
unfoldable pub handle_pdu : Pdu → Query → Query
handle_pdu p q =
    if p.op_code == op_login_rsp
    then (if status_of p == login_success
        then record q {
          status = status_of p;
          context = update_context p q.context;
          text_rsp = parse_to_dict p.segment p.after q.text_rsp;
        }
        else record q { status = status_of p })
    else if p.op_code == op_reject
    then record q { error = e_op_not_supp }
    else q

-- The loop ends by one of its two `break`s, or by its condition.
unfoldable pub stops : Pdu → Bool
stops p =
    if p.op_code == op_login_rsp
    then (if status_of p == login_success then not (has_flag p.stage continue_flag) else true)
    else if p.op_code == op_reject
    then true
    else not (has_flag p.stage continue_flag)

unfoldable pub receive_loop : List Delivery → Query → Query × List Delivery
receive_loop [] q = (record q { error = connection_lost }, [])
receive_loop (failed e ∷ rest) q = (record q { error = suc e }, rest)
receive_loop (delivered p ∷ rest) q =
    let more = receive_loop rest (handle_pdu p q) in
    if stops p then (handle_pdu p q, rest) else more

-- iSCSIHBAInterfaceReceive refuses the invalid identifiers before it asks the kernel.
unfoldable pub receive : Query → World → Query × World
receive q w =
    if is_invalid q.context.session_id q.context.connection_id
    then (record q { error = bad_argument }, w)
    else let (q', rest) = receive_loop w.deliveries q in (q', record w { deliveries = rest })

-- iSCSISessionLoginSingleQuery; `status` is what the caller's variable held before.
unfoldable pub single_query :
    Platform → Context → ℕ → Option (Dict Str) → Option (Dict Str) → World → Query × World
single_query sys c status text_cmd text_rsp w =
    let segment = create_from_dict sys text_cmd in
    let (error, w') = send c.session_id c.connection_id (login (login_request c)) segment w in
    let q : Query = record { error = error; status = status; context = c; text_rsp = text_rsp } in
    if error == 0 then receive q w' else (q, w')

-- maxRetryCount
abbrev pub max_retry_count : ℕ
max_retry_count = 5

-- The retry loop with the rounds left: blank requests until the target transits. The caller's
-- dictionary stays as the first response left it.
unfoldable pub retry : Platform → ℕ → Query → World → Query × World
retry sys zero q w = (record q { status = login_invalid_req }, w)
retry sys (suc rounds) q w =
    let (r, w') = single_query sys q.context q.status none none w in
    let q' : Query = record r { text_rsp = q.text_rsp } in
    let more = retry sys rounds q' w' in if r.context.transit_next_stage then (q', w') else more

-- iSCSISessionLoginQuery
unfoldable pub login_query :
    Platform → Context → ℕ → Option (Dict Str) → Option (Dict Str) → World → Query × World
login_query sys c status text_cmd text_rsp w =
    let (q, w') = single_query sys c status text_cmd text_rsp w in
    if not (q.error == 0) || not (q.status == login_success)
    then (q, w')
    else if stage_eq q.context.current_stage q.context.next_stage || q.context.transit_next_stage
    then (q, w')
    else retry sys max_retry_count q w'
