-- ===== src/Kernel/Operations.antt =====
-- Source/Kernel/iSCSIVirtualHBA.cpp as a whole: the operations that the daemon (through the user client),
-- the SCSI stack, the work loop and the sockets call, and the states that they lead to.
use i_scsiinitiator.Base.{
  Str, ℕ, Option, none, some, [], ◌≡◌, sym, ◌∙◌, replicate, length-replicate,
}
use i_scsiinitiator.Kernel.Slots.{slot}
use i_scsiinitiator.Kernel.State.{Env, Task, Incoming, Connection, Session, Hba}
use i_scsiinitiator.Kernel.Creation.{create_session, create_connection}
use i_scsiinitiator.Kernel.Release.{
  release_connection, release_session, release_all_sessions, handle_connection_timeout,
}
use i_scsiinitiator.Kernel.Activation.{
  activate_connection, activate_all_connections, deactivate_connection, deactivate_all_connections,
}
use i_scsiinitiator.Kernel.Commands.{begin_task}
use i_scsiinitiator.Kernel.Requests.{
  process_parallel_task, task_mgmt_request, abort_task_request, handle_timeout,
}
use i_scsiinitiator.Kernel.Dispatch.{process_task}
use i_scsiinitiator.Kernel.WellFormed.{IsSession, IsWellFormed}
use i_scsiinitiator.Kernel.Kept.{
  Kept, never, deactivate_connection-IsWellFormed, deactivate_all_connections-IsWellFormed,
  activate_connection-Kept, activate_all_connections-Kept, only,
}
use i_scsiinitiator.Kernel.Kept.Creations.{
  create_session-IsWellFormed, create_connection-IsWellFormed, slot-replicate,
}
use i_scsiinitiator.Kernel.Kept.Releases.{
  release_connection-IsWellFormed, release_session-IsWellFormed, release_all_sessions-IsWellFormed,
  handle_connection_timeout-IsWellFormed,
}
use i_scsiinitiator.Kernel.Kept.Sends.{Ended}
use i_scsiinitiator.Kernel.Kept.Commands.{
  begin_task-Ended, request_in-IsWellFormed, process_parallel_task-IsWellFormed,
  handle_timeout-IsWellFormed,
}
use i_scsiinitiator.Kernel.Kept.Dispatches.{process_task-Ended}

pub data Operation : Type 0 where
  create_new_session : Str → Operation
  create_new_connection release_one activate_one deactivate_one time_out : ℕ → ℕ → Operation
  release_whole activate_whole deactivate_whole : ℕ → Operation
  release_everything : Operation
  accept : Task → Operation
  begin : ℕ → ℕ → ℕ → Operation
  receive : ℕ → ℕ → Incoming → Operation
  manage abort : ℕ → ℕ → ℕ → Operation
  task_time_out : Task → ℕ → Operation

-- InitializeController
unfoldable pub initialize_controller : Env → Hba
initialize_controller env = record {
  sessions = replicate env.max_sessions none;
  targets = [];
  log = [];
}

-- The event sources of a connection call with their session and connection.
unfoldable pub with_connection : Option Connection → (Connection → Option Hba) → Hba → Option Hba
with_connection none f h = some h
with_connection (some c) f h = f c

unfoldable pub with_session :
    ℕ → Option Session → (Session → Connection → Option Hba) → Hba → Option Hba
with_session cid none f h = some h
with_session cid (some s) f h = with_connection (slot s.connections cid) (f s) h

unfoldable pub state_of : Option (ℕ × Hba) → Option Hba
state_of none = none
state_of (some (error, h)) = some h

-- The state behind an operation: none where the code reads outside an array, follows a NULL pointer or
-- does not end.
unfoldable pub perform : Env → Operation → Hba → Option Hba
perform env (create_new_session name) h = some (create_session env name h).hba
perform env (create_new_connection sid cid) h = some (create_connection env sid cid h).hba
perform env (release_one sid cid) h = some (release_connection env sid cid h)
perform env (activate_one sid cid) h = state_of (activate_connection env sid cid h)
perform env (deactivate_one sid cid) h = some (deactivate_connection env sid cid h).1
perform env (time_out sid cid) h = some (handle_connection_timeout env sid cid h)
perform env (release_whole sid) h = some (release_session env sid h)
perform env (activate_whole sid) h = state_of (activate_all_connections env sid h)
perform env (deactivate_whole sid) h = some (deactivate_all_connections env sid h).1
perform env release_everything h = some (release_all_sessions env h)
perform env (accept t) h = some (process_parallel_task env t h).1
perform env (begin sid cid tag) h =
    with_session cid (slot h.sessions sid) (λ s c. begin_task env sid cid tag s c h) h
perform env (receive sid cid b) h =
    with_session cid (slot h.sessions sid) (λ s c. process_task env sid cid c b h) h
perform env (manage function sid lun) h = some (task_mgmt_request env function sid lun h).1
perform env (abort sid lun task_id) h = some (abort_task_request env sid lun task_id h).1
perform env (task_time_out t cid) h = some (handle_timeout env t cid h)

-- The states that the adapter can be in.
pub data Reachable (env : Env) : Hba → Type 0 where
  initialized : Reachable env (initialize_controller env)
  performs :
      (op : Operation) (h k : Hba) → Reachable env h → perform env op h ≡ some k → Reachable env k

initialize_controller-IsWellFormed : (env : Env) → IsWellFormed env (initialize_controller env)
unfolding initialize_controller
initialize_controller-IsWellFormed env = record {
  slots = length-replicate env.max_sessions none;
  each = λ sid s e.
      never (λ (t : Session). IsSession env sid t) s
        (sym (slot-replicate env.max_sessions sid) ∙ e);
}

module _ (env : Env) where
  with_session-Ended :
      (cid : ℕ) (o : Option Session) (f : Session → Connection → Option Hba) (h : Hba)
      → IsWellFormed env h
      → ((s : Session) (c : Connection) → Ended env (f s c))
      → Ended env (with_session cid o f h)
  unfolding with_session with_connection
  with_session-Ended cid none f h w each = unfold Ended in w
  with_session-Ended cid (some s) f h w each = with_connection-Ended (slot s.connections cid)
    where
      with_connection-Ended : (o : Option Connection) → Ended env (with_connection o (f s) h)
      with_connection-Ended none = unfold Ended in w
      with_connection-Ended (some c) = each s c

  state_of-Ended : (o : Option (ℕ × Hba)) → Kept env o → Ended env (state_of o)
  unfolding state_of Kept Ended
  state_of-Ended none k = tt
  state_of-Ended (some (error, h)) k = k

  perform-Ended : (op : Operation) (h : Hba) → IsWellFormed env h → Ended env (perform env op h)
  unfolding perform Ended task_mgmt_request abort_task_request
  perform-Ended (create_new_session name) h w = create_session-IsWellFormed env name h w
  perform-Ended (create_new_connection sid cid) h w = create_connection-IsWellFormed env sid cid h w
  perform-Ended (release_one sid cid) h w = release_connection-IsWellFormed env sid cid h w
  perform-Ended (activate_one sid cid) h w =
      state_of-Ended _ (activate_connection-Kept env sid cid h w)
  perform-Ended (deactivate_one sid cid) h w = deactivate_connection-IsWellFormed env sid cid h w
  perform-Ended (time_out sid cid) h w = handle_connection_timeout-IsWellFormed env sid cid h w
  perform-Ended (release_whole sid) h w = release_session-IsWellFormed env sid h w
  perform-Ended (activate_whole sid) h w =
      state_of-Ended _ (activate_all_connections-Kept env sid h w)
  perform-Ended (deactivate_whole sid) h w = deactivate_all_connections-IsWellFormed env sid h w
  perform-Ended release_everything h w = release_all_sessions-IsWellFormed env h w
  perform-Ended (accept t) h w = process_parallel_task-IsWellFormed env t h w
  perform-Ended (begin sid cid tag) h w =
      with_session-Ended cid _ _ h w (λ s c. begin_task-Ended env sid cid tag s c h w)
  perform-Ended (receive sid cid b) h w =
      with_session-Ended cid _ _ h w (λ s c. process_task-Ended env sid cid c b h w)
  perform-Ended (manage function sid lun) h w = request_in-IsWellFormed env sid _ _ h w
  perform-Ended (abort sid lun task_id) h w = request_in-IsWellFormed env sid _ _ h w
  perform-Ended (task_time_out t cid) h w = handle_timeout-IsWellFormed env t cid h w

  -- In every state that the operations lead to, the arrays have their sizes, every session and every
  -- connection has the number of its slot as its identifier, and the index into the speed history of a
  -- connection is below 30.
  pub Reachable-IsWellFormed : (h : Hba) → Reachable env h → IsWellFormed env h
  Reachable-IsWellFormed _ initialized = initialize_controller-IsWellFormed env
  Reachable-IsWellFormed _ (performs op h k before after) =
      kept (perform env op h) (perform-Ended op h (Reachable-IsWellFormed h before)) k after
    where
      kept : (o : Option Hba) → Ended env o → (k : Hba) → o ≡ some k → IsWellFormed env k
      kept none e k h = never (λ (g : Hba). IsWellFormed env g) k h
      kept (some g) e k h = only (λ (g : Hba). IsWellFormed env g) g (unfold Ended in e) k h
