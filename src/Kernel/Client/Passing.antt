-- ===== src/Kernel/Client/Passing.antt =====
-- Source/Kernel/iSCSIHBAUserClient.cpp: ReleaseSession, ActivateConnection, ActivateAllConnections,
-- DeactivateConnection and DeactivateAllConnections, which pass their arguments on to the adapter. Each
-- but the first stores the adapter's error in scalarOutput, and succeeds whatever it is.
use i_scsiinitiator.Base.{ℕ, ◌%◌, ◌^◌, Option, none, some}
use i_scsiinitiator.Kernel.State.{Env, Hba}
use i_scsiinitiator.Kernel.Parameters.{Reply, answer, done}
use i_scsiinitiator.Kernel.Activation.{
  activate_connection, activate_all_connections, deactivate_connection, deactivate_all_connections,
}
use i_scsiinitiator.Kernel.Release.{release_session}

unfoldable pub client_release_session : Env → ℕ → Hba → Reply
client_release_session env session_input h = done (release_session env (session_input % 2 ^ 16) h)

-- The reply to a call that the adapter answers with an error number, none where that does not return.
unfoldable pub passed_on : Option (ℕ × Hba) → Option Reply
passed_on none = none
passed_on (some (error, h)) = some (answer error h)

unfoldable pub client_activate_connection : Env → ℕ → ℕ → Hba → Option Reply
client_activate_connection env session_input connection_input h =
    passed_on (activate_connection env (session_input % 2 ^ 16) (connection_input % 2 ^ 32) h)

unfoldable pub client_activate_all_connections : Env → ℕ → Hba → Option Reply
client_activate_all_connections env session_input h =
    passed_on (activate_all_connections env (session_input % 2 ^ 16) h)

unfoldable pub client_deactivate_connection : Env → ℕ → ℕ → Hba → Option Reply
client_deactivate_connection env session_input connection_input h =
    passed_on
      (some (deactivate_connection env (session_input % 2 ^ 16) (connection_input % 2 ^ 32) h))

unfoldable pub client_deactivate_all_connections : Env → ℕ → Hba → Option Reply
client_deactivate_all_connections env session_input h =
    passed_on (some (deactivate_all_connections env (session_input % 2 ^ 16) h))
