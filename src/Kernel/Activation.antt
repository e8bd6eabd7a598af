-- ===== src/Kernel/Activation.antt =====
-- Source/Kernel/iSCSIVirtualHBA.cpp: ActivateConnection, ActivateAllConnections, DeactivateConnection and
-- DeactivateAllConnections.
use i_scsiinitiator.Base.{
  ℕ, zero, suc, ◌+◌, ◌-◌, ◌%◌, ◌^◌, ◌==◌, ◌||◌, ◌&&◌, ltb, not, min, Bool, true, false, Option,
  none, some, List, ◌∷◌, if◌then◌else◌,
}
use i_scsiinitiator.Hba.{invalid_session_id, invalid_connection_id}
use i_scsiinitiator.Kernel.TaskQueue.{enable, disable}
use i_scsiinitiator.Kernel.Slots.{slot}
use i_scsiinitiator.Kernel.State.{
  Env, Event, called_create_target, called_destroy_target, Connection, Session, Hba, Work,
  put_connection,
}
use i_scsiinitiator.Kernel.Completion.{reject_tasks}
use i_scsiinitiator.Kernel.Drain.{load}

-- EINVAL and EAGAIN
abbrev pub einval : ℕ
einval = 22

abbrev pub eagain : ℕ
eagain = 35

unfoldable pub stop_connection : Connection → Connection
stop_connection c = record c { recv_enabled = false; task_queue = disable c.task_queue }

-- Enough rounds are given to the loop, so that the first case does not occur.
unfoldable pub drained : Option Work → Work → Work
drained none w = w
drained (some result) w = result

-- The loop of DeactivateConnection, with the connection stopped.
unfoldable pub drain : Env → ℕ → Connection → List Event → Work
drain env sid c log =
    let w : Work = record { connection = stop_connection c; log = log } in
    drained (reject_tasks (suc (load (stop_connection c))) env sid w) w

-- OSDecrementAtomic and OSIncrementAtomic
unfoldable pub decremented : ℕ → ℕ
decremented n = (n + 2 ^ 32 - 1) % 2 ^ 32

unfoldable pub incremented : ℕ → ℕ
incremented n = (n + 1) % 2 ^ 32

-- DeactivateConnection behind its checks
unfoldable pub deactivated : Env → ℕ → ℕ → Session → Connection → Hba → Hba
deactivated env sid cid s c h =
    let w = drain env sid c h.log in
    let active = decremented s.num_active_connections in
    let h =
      put_connection sid cid (some w.connection) (record s { num_active_connections = active }) h in
    record h { log = if active == 0 then called_destroy_target sid ∷ w.log else w.log }

unfoldable pub deactivate_at : Env → ℕ → ℕ → Session → Option Connection → Hba → ℕ × Hba
deactivate_at env sid cid s none h = (einval, h)
deactivate_at env sid cid s (some c) h = (0, deactivated env sid cid s c h)

unfoldable pub deactivate_in : Env → ℕ → ℕ → Option Session → Hba → ℕ × Hba
deactivate_in env sid cid none h = (einval, h)
deactivate_in env sid cid (some s) h = deactivate_at env sid cid s (slot s.connections cid) h

-- DeactivateConnection
unfoldable pub deactivate_connection : Env → ℕ → ℕ → Hba → ℕ × Hba
deactivate_connection env sid cid h =
    if not (ltb sid env.max_sessions && ltb cid env.max_connections)
    then (einval, h)
    else deactivate_in env sid cid (slot h.sessions sid) h

unfoldable pub has_connection_in : Option Session → ℕ → Bool
has_connection_in none cid = false
has_connection_in (some s) cid = elim (slot s.connections cid) [ none ↦ false | some c ↦ true ]

unfoldable pub has_connection : ℕ → ℕ → Hba → Bool
has_connection sid cid h = has_connection_in (slot h.sessions sid) cid

-- The loop of DeactivateAllConnections over the `n` slots from `cid` on.
unfoldable pub deactivate_from : ℕ → Env → ℕ → ℕ → Hba → ℕ × Hba
deactivate_from zero env sid cid h = (0, h)
deactivate_from (suc n) env sid cid h =
    let one = if has_connection sid cid h then deactivate_connection env sid cid h else (0, h) in
    let rest = deactivate_from n env sid (suc cid) one.1 in if one.0 == 0 then rest else one

unfoldable pub is_present : Option Session → Bool
is_present none = false
is_present (some s) = true

-- DeactivateAllConnections
unfoldable pub deactivate_all_connections : Env → ℕ → Hba → ℕ × Hba
deactivate_all_connections env sid h =
    if not (ltb sid env.max_sessions)
    then (einval, h)
    else if not (is_present (slot h.sessions sid))
    then (einval, h)
    else deactivate_from env.max_connections env sid 0 h

unfoldable pub start_connection : Session → Connection → Connection
start_connection s c = record c {
  immediate_data_length = min c.max_send_data_segment_length s.first_burst_length;
  task_queue = enable c.task_queue;
  recv_enabled = true;
}

-- ActivateConnection behind its checks
unfoldable pub activated : Env → ℕ → ℕ → Session → Connection → Hba → ℕ × Hba
activated env sid cid s c h =
    let first = s.num_active_connections == 0 in
    let started = start_connection s c in
    let created = env.create_target h.log sid in
    let log = if first then called_create_target sid ∷ h.log else h.log in
    if first && not created
    then (
      eagain,
      record (put_connection sid cid (some (stop_connection started)) s h) { log = log },
    )
    else (
      0,
      record (put_connection sid cid (some started)
          (record s { num_active_connections = incremented s.num_active_connections }) h) {
            log = log;
          },
    )

unfoldable pub activate_at : Env → ℕ → ℕ → Session → Option Connection → Hba → ℕ × Hba
activate_at env sid cid s none h = (einval, h)
activate_at env sid cid s (some c) h = activated env sid cid s c h

unfoldable pub activate_in : Env → ℕ → ℕ → Option Session → Hba → Option (ℕ × Hba)
activate_in env sid cid none h = some (einval, h)
activate_in env sid cid (some s) h =
    if ltb cid env.max_connections
    then some (activate_at env sid cid s (slot s.connections cid) h)
    else none

-- ActivateConnection: none where it reads behind the end of an array, which its checks allow.
unfoldable pub activate_connection : Env → ℕ → ℕ → Hba → Option (ℕ × Hba)
activate_connection env sid cid h =
    if sid == invalid_session_id || cid == invalid_connection_id
    then some (einval, h)
    else if ltb sid env.max_sessions
    then activate_in env sid cid (slot h.sessions sid) h
    else none

unfoldable pub next_activation : Option (ℕ × Hba) → (Hba → Option (ℕ × Hba)) → Option (ℕ × Hba)
next_activation none rest = none
next_activation (some (error, h)) rest = if error == 0 then rest h else some (error, h)

-- The loop of ActivateAllConnections.
unfoldable pub activate_from : ℕ → Env → ℕ → ℕ → Hba → Option (ℕ × Hba)
activate_from zero env sid cid h = some (0, h)
activate_from (suc n) env sid cid h =
    next_activation (activate_connection env sid cid h) (activate_from n env sid (suc cid))

-- ActivateAllConnections
unfoldable pub activate_all_connections : Env → ℕ → Hba → Option (ℕ × Hba)
activate_all_connections env sid h =
    if sid == invalid_session_id
    then some (einval, h)
    else if not (ltb sid env.max_sessions)
    then none
    else if not (is_present (slot h.sessions sid))
    then some (einval, h)
    else activate_from env.max_connections env sid 0 h
