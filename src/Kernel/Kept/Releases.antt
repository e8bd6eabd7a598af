-- ===== src/Kernel/Kept/Releases.antt =====
-- Source/Kernel/iSCSIVirtualHBA.cpp: releases and timeouts keep the session table well-formed.
use i_scsiinitiator.Base.{ℕ, zero, suc, ltb, Option, none, some, ◌≡◌, refl, if◌then◌else◌, chosen}
use i_scsiinitiator.Kernel.Slots.{slot, count}
use i_scsiinitiator.Kernel.State.{Env, Connection, Session, Hba, put_session}
use i_scsiinitiator.Kernel.Activation.{
  deactivate_connection, deactivate_all_connections, has_connection,
}
use i_scsiinitiator.Kernel.Release.{
  clear_in, clear_connection, released_connection, release_at, release_in, release_connection,
  release_from, released_session, release_session, release_sessions_from, release_all_sessions,
  timed_out, handle_connection_timeout,
}
use i_scsiinitiator.Kernel.WellFormed.{
  IsConnection, IsSession, IsWellFormed, put_session-IsWellFormed, put_connection-IsWellFormed,
}
use i_scsiinitiator.Kernel.Kept.{
  relabelled, never, deactivate_connection-IsWellFormed, deactivate_all_connections-IsWellFormed,
}

module _ (env : Env) where
  clear_in-IsWellFormed :
      (sid cid : ℕ) (o : Option Session) (h : Hba)
      → IsWellFormed env h
      → slot h.sessions sid ≡ o
      → IsWellFormed env (clear_in sid cid o h)
  unfolding clear_in
  clear_in-IsWellFormed sid cid none h w e = w
  clear_in-IsWellFormed sid cid (some s) h w e =
      put_connection-IsWellFormed env sid cid none s h w (w.each sid s e)
        (never (λ (c : Connection). IsConnection cid c))

  released_connection-IsWellFormed :
      (sid cid : ℕ) (c : Connection) (h : Hba)
      → IsWellFormed env h
      → IsWellFormed env (released_connection env sid cid c h)
  unfolding released_connection clear_connection
  released_connection-IsWellFormed sid cid c h w =
      relabelled env (clear_connection sid cid stopped) _ refl (
        clear_in-IsWellFormed sid cid _ stopped
          (chosen (λ (g : Hba). IsWellFormed env g) c.task_queue.enabled _ h
            (deactivate_connection-IsWellFormed env sid cid h w) w)
          refl)
    where
      stopped : Hba
      stopped = if c.task_queue.enabled then (deactivate_connection env sid cid h).1 else h

  release_at-IsWellFormed :
      (sid cid : ℕ) (o : Option Connection) (h : Hba)
      → IsWellFormed env h
      → IsWellFormed env (release_at env sid cid o h)
  unfolding release_at
  release_at-IsWellFormed sid cid none h w = w
  release_at-IsWellFormed sid cid (some c) h w = released_connection-IsWellFormed sid cid c h w

  release_in-IsWellFormed :
      (sid cid : ℕ) (o : Option Session) (h : Hba)
      → IsWellFormed env h
      → IsWellFormed env (release_in env sid cid o h)
  unfolding release_in
  release_in-IsWellFormed sid cid none h w = w
  release_in-IsWellFormed sid cid (some s) h w = release_at-IsWellFormed sid cid _ h w

  pub release_connection-IsWellFormed :
      (sid cid : ℕ) (h : Hba)
      → IsWellFormed env h
      → IsWellFormed env (release_connection env sid cid h)
  unfolding release_connection
  release_connection-IsWellFormed sid cid h w =
      chosen (λ (g : Hba). IsWellFormed env g) _ _ h
        (release_in-IsWellFormed sid cid (slot h.sessions sid) h w) w

  pub release_from-IsWellFormed :
      (n sid cid : ℕ) (h : Hba)
      → IsWellFormed env h
      → IsWellFormed env (release_from n env sid cid h)
  unfolding release_from
  release_from-IsWellFormed zero sid cid h w = w
  release_from-IsWellFormed (suc n) sid cid h w = release_from-IsWellFormed n sid (suc cid) _ (
      chosen (λ (g : Hba). IsWellFormed env g) (has_connection sid cid h) _ h
        (release_connection-IsWellFormed sid cid h w) w)

  released_session-IsWellFormed :
      (sid : ℕ) (o : Option Session) (h : Hba)
      → IsWellFormed env h
      → IsWellFormed env (released_session env sid o h)
  unfolding released_session
  released_session-IsWellFormed sid none h w = w
  released_session-IsWellFormed sid (some s) h w =
      relabelled env (put_session sid none (release_from env.max_connections env sid 0 h)) _ refl (
        put_session-IsWellFormed env sid none _
          (release_from-IsWellFormed env.max_connections sid 0 h w)
          (never (λ (t : Session). IsSession env sid t)))

  pub release_session-IsWellFormed :
      (sid : ℕ) (h : Hba) → IsWellFormed env h → IsWellFormed env (release_session env sid h)
  unfolding release_session
  release_session-IsWellFormed sid h w =
      chosen (λ (g : Hba). IsWellFormed env g) _ _ h
        (released_session-IsWellFormed sid (slot h.sessions sid) h w) w

  release_sessions_from-IsWellFormed :
      (n sid : ℕ) (h : Hba)
      → IsWellFormed env h
      → IsWellFormed env (release_sessions_from n env sid h)
  unfolding release_sessions_from
  release_sessions_from-IsWellFormed zero sid h w = w
  release_sessions_from-IsWellFormed (suc n) sid h w =
      release_sessions_from-IsWellFormed n (suc sid) _ (release_session-IsWellFormed sid h w)

  pub release_all_sessions-IsWellFormed :
      (h : Hba) → IsWellFormed env h → IsWellFormed env (release_all_sessions env h)
  unfolding release_all_sessions
  release_all_sessions-IsWellFormed h w = release_sessions_from-IsWellFormed env.max_sessions 0 h w

  timed_out-IsWellFormed :
      (sid cid : ℕ) (o : Option Session) (h : Hba)
      → IsWellFormed env h
      → IsWellFormed env (timed_out env sid cid o h)
  unfolding timed_out
  timed_out-IsWellFormed sid cid none h w = w
  timed_out-IsWellFormed sid cid (some s) h w =
      chosen kept (env.has_client stopped.log) _ _ (relabelled env stopped _ refl stopped_kept) (
        chosen kept (ltb 1 (count s.connections)) _ _
          (release_connection-IsWellFormed sid cid stopped stopped_kept)
          (release_session-IsWellFormed sid stopped stopped_kept))
    where
      kept : Hba → Type 0
      kept g = IsWellFormed env g

      stopped : Hba
      stopped =
          if ltb 1 (count s.connections)
          then (deactivate_connection env sid cid h).1
          else (deactivate_all_connections env sid h).1

      stopped_kept : IsWellFormed env stopped
      stopped_kept =
          chosen kept (ltb 1 (count s.connections)) _ _
            (deactivate_connection-IsWellFormed env sid cid h w)
            (deactivate_all_connections-IsWellFormed env sid h w)

  pub handle_connection_timeout-IsWellFormed :
      (sid cid : ℕ) (h : Hba)
      → IsWellFormed env h
      → IsWellFormed env (handle_connection_timeout env sid cid h)
  unfolding handle_connection_timeout
  handle_connection_timeout-IsWellFormed sid cid h w =
      timed_out-IsWellFormed sid cid (slot h.sessions sid) h w
