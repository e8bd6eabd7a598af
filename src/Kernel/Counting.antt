-- ===== src/Kernel/Counting.antt =====
-- Source/Kernel/iSCSIVirtualHBA.cpp: the number of active connections, which DeactivateConnection lowers
-- whether the connection was active or not.
use i_scsiinitiator.Base.{ℕ, ◌<◌, lt→ltb, some, ◌∷◌, ◌≡◌, ◌≢◌, refl, ◌∙◌}
use i_scsiinitiator.Kernel.Slots.{slot, slot-set_slot-some, slot-set_slot-other}
use i_scsiinitiator.Kernel.State.{
  Env, called_destroy_target, Connection, Session, Hba, put_session, put_connection,
}
use i_scsiinitiator.Kernel.Activation.{
  deactivate_connection, deactivate_in, deactivate_at, deactivated, drain, decremented,
}

-- The session behind a deactivation, and what it did.
pub record Deactivation (env : Env) (sid cid other : ℕ) (c d : Connection) (h k : Hba)
    : Type 0 where
  pub session : Session
  pub there : slot k.sessions sid ≡ some session
  pub others_stay : slot session.connections other ≡ some d
  pub none_active : session.num_active_connections ≡ 0
  pub target_destroyed : k.log ≡ called_destroy_target sid ∷ (drain env sid c h.log).log

deactivated-Deactivation :
    (env : Env) (sid cid other : ℕ) (s : Session) (c d : Connection) (h : Hba)
    → slot h.sessions sid ≡ some s
    → slot s.connections other ≡ some d
    → cid ≢ other
    → s.num_active_connections ≡ 1
    → Deactivation env sid cid other c d h (deactivated env sid cid s c h)
unfolding deactivated put_connection put_session decremented
deactivated-Deactivation env sid cid other s c d h there stays differ one = record {
  session = _;
  there = slot-set_slot-some sid _ h.sessions s there;
  others_stay = slot-set_slot-other cid other _ s.connections differ ∙ stays;
  none_active = rw one refl;
  target_destroyed = rw one refl;
}

-- A session has one active connection, and another of its connections is deactivated, be that one active
-- or not: the call succeeds, the session counts no active connection, and its target is destroyed, while
-- the other connections stay as they were.
pub deactivate_connection-counts :
    (env : Env) (sid cid other : ℕ) (s : Session) (c d : Connection) (h : Hba)
    → sid < env.max_sessions
    → cid < env.max_connections
    → slot h.sessions sid ≡ some s
    → slot s.connections cid ≡ some c
    → slot s.connections other ≡ some d
    → cid ≢ other
    → s.num_active_connections ≡ 1
    → ((deactivate_connection env sid cid h).0 ≡ 0)
      × Deactivation env sid cid other c d h (deactivate_connection env sid cid h).1
unfolding deactivate_connection deactivate_in deactivate_at
deactivate_connection-counts env sid cid other s c d h sid_fits cid_fits there is_c is_d differ
      one =
    rw (lt→ltb sid env.max_sessions sid_fits, lt→ltb cid env.max_connections cid_fits, there, is_c)
      (refl, deactivated-Deactivation env sid cid other s c d h there is_d differ one)
