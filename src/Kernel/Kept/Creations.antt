-- ===== src/Kernel/Kept/Creations.antt =====
-- Source/Kernel/iSCSIVirtualHBA.cpp: CreateConnection and CreateSession keep the session table
-- well-formed, their clean-ups included.
use i_scsiinitiator.Base.{
  Str, ℕ, zero, suc, ◌==◌, not, ltb, Option, none, some, List, ◌≡◌, refl, sym, ◌∙◌, arith, chosen,
  replicate, length-replicate,
}
use i_scsiinitiator.Kernel.Slots.{slot, free_slot}
use i_scsiinitiator.Kernel.State.{
  Env, Event, Stage, Connection, Session, Hba, put_session, put_connection, alloc_connection,
  alloc_session, alloc_connection_list,
}
use i_scsiinitiator.Kernel.Creation.{
  Created, new_connection, finish_connection, create_connection_in, create_connection, new_session,
  finish_session, create_session,
}
use i_scsiinitiator.Kernel.WellFormed.{
  IsConnection, IsSession, IsWellFormed, put_session-IsWellFormed, put_connection-IsWellFormed,
}
use i_scsiinitiator.Kernel.Kept.{relabelled, only, never}

new_connection-IsConnection :
    (env : Env) (log : List Event) (index : ℕ) → IsConnection index (new_connection env log index)
unfolding new_connection
new_connection-IsConnection env log index = record { same_cid = refl; bounded = omega arith }

module _ {A : Type 0} where
  pub slot-replicate : (n m : ℕ) → slot (replicate {A = Option A} n none) m ≡ none
  unfolding slot
  slot-replicate zero m = refl
  slot-replicate (suc n) zero = refl
  slot-replicate (suc n) (suc m) = slot-replicate n m

new_session-IsSession : (env : Env) (index : ℕ) → IsSession env index (new_session env index)
unfolding new_session
new_session-IsSession env index = record {
  same_sid = refl;
  slots = length-replicate env.max_connections none;
  each = λ cid c e.
      never (λ (d : Connection). IsConnection cid d) c
        (sym (slot-replicate env.max_connections cid) ∙ e);
}

module _ (env : Env) where
  IsKept : Created → Type 0
  IsKept c = IsWellFormed env c.hba

  finish_connection-IsWellFormed :
      (sid index : ℕ) (s : Session) (o : Option (Stage × ℕ)) (h : Hba)
      → IsWellFormed env h
      → IsSession env sid s
      → IsWellFormed env (finish_connection env sid index s o h).1
  unfolding finish_connection
  finish_connection-IsWellFormed sid index s none h w is =
      put_connection-IsWellFormed env sid index _ s h w is (
        only (λ (c : Connection). IsConnection index c) _
          (new_connection-IsConnection env h.log index))
  finish_connection-IsWellFormed sid index s (some (stage, code)) h w is =
      relabelled env (put_connection sid index none s h) _ refl (
        put_connection-IsWellFormed env sid index none s h w is
          (never (λ (c : Connection). IsConnection index c)))

  create_connection_in-IsWellFormed :
      (sid cid : ℕ) (o : Option Session) (h : Hba)
      → IsWellFormed env h
      → slot h.sessions sid ≡ o
      → IsKept (create_connection_in env sid cid o h)
  unfolding create_connection_in IsKept
  create_connection_in-IsWellFormed sid cid none h w e = w
  create_connection_in-IsWellFormed sid cid (some s) h w e =
      chosen IsKept (free_slot s.connections == env.max_connections) _ _ w (
        chosen IsKept (not (env.stage_error h.log alloc_connection == 0)) _ _ w
          (finish_connection-IsWellFormed sid (free_slot s.connections) s _ h w (w.each sid s e)))

  pub create_connection-IsWellFormed :
      (sid cid : ℕ) (h : Hba)
      → IsWellFormed env h
      → IsWellFormed env (create_connection env sid cid h).hba
  unfolding create_connection IsKept
  create_connection-IsWellFormed sid cid h w =
      chosen IsKept (ltb sid env.max_sessions) _ _
        (create_connection_in-IsWellFormed sid cid (slot h.sessions sid) h w refl) w

  finish_session-IsWellFormed :
      (name : Str) (index : ℕ) (c : Created) → IsKept c → IsKept (finish_session name index c)
  unfolding finish_session IsKept
  finish_session-IsWellFormed name index c w = chosen IsKept (c.error == 0) c _ w (
      relabelled env (put_session index none c.hba) _ refl (
        put_session-IsWellFormed env index none c.hba w
          (never (λ (s : Session). IsSession env index s))))

  pub create_session-IsWellFormed :
      (name : Str) (h : Hba) → IsWellFormed env h → IsWellFormed env (create_session env name h).hba
  unfolding create_session IsKept
  create_session-IsWellFormed name h w = chosen IsKept (index == env.max_sessions) _ _ w (
      chosen IsKept (not (env.stage_error h.log alloc_session == 0)) _ _ w (
        chosen IsKept (not (env.stage_error h.log alloc_connection_list == 0)) _ _ w (
          finish_session-IsWellFormed name index _ (
            create_connection-IsWellFormed index _ _ (
              relabelled env (put_session index (some (new_session env index)) h) _ refl (
                put_session-IsWellFormed env index _ h w (
                  only (λ (s : Session). IsSession env index s) _
                    (new_session-IsSession env index))))))))
    where
      index : ℕ
      index = free_slot h.sessions
