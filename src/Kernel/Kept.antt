-- ===== src/Kernel/Kept.antt =====
-- Source/Kernel/iSCSIVirtualHBA.cpp: the operations on sessions and connections keep the session table
-- well-formed.
pub mod Commands
pub mod Dispatches
pub mod Pdus
pub mod Receives
pub mod Releases
pub mod Sends
pub mod Creations
use i_scsiinitiator.Base.{
  Str, ℕ, zero, suc, ◌<◌, ◌==◌, ◌&&◌, ◌||◌, not, ltb, Bool, true, false, Option, none, some, List,
  [], ◌∷◌, ◌≡◌, refl, subst, sym, ◌∙◌, ap, arith, inl, inr, if◌then◌else◌, Bool-cases, chosen,
}
use i_scsiinitiator.Hba.{invalid_session_id, invalid_connection_id}
use i_scsiinitiator.Kernel.Slots.{slot, set_slot, count}
use i_scsiinitiator.Kernel.State.{
  Env, Event, Connection, Session, Hba, Work, put_session, put_connection,
}
use i_scsiinitiator.Kernel.Completion.{window_size, reject_tasks}
use i_scsiinitiator.Kernel.Drain.{IsDrained, reject_tasks-IsDrained, load}
use i_scsiinitiator.Kernel.Activation.{
  drain, drained, stop_connection, deactivated, deactivate_at, deactivate_in, deactivate_connection,
  deactivate_from, deactivate_all_connections, has_connection, start_connection, activated,
  activate_at, activate_in, activate_connection, decremented, einval, is_present, next_activation,
  activate_from, activate_all_connections,
}
use i_scsiinitiator.Kernel.Release.{
  clear_in, clear_connection, released_connection, release_at, release_in, release_connection,
  release_from, released_session, release_session, release_sessions_from, release_all_sessions,
  timed_out, handle_connection_timeout,
}
use i_scsiinitiator.Kernel.WellFormed.{
  IsConnection, IsSession, IsWellFormed, put_session-IsWellFormed, put_connection-IsWellFormed,
}

-- The log and the target table do not matter.
pub relabelled :
    (env : Env) (h k : Hba) → k.sessions ≡ h.sessions → IsWellFormed env h → IsWellFormed env k
relabelled env h k same w = record {
  slots = rw same w.slots;
  each = λ sid s e. w.each sid s (sym (rw same at (sym e)));
}

module _ {A : Type 0} (P : A → Type 0) where
  pub only : (a : A) → P a → (b : A) → some a ≡ some b → P b
  only a is b e = subst P (ground (arith, e)) is

  pub never : (b : A) → none ≡ some b → P b
  never b e = absurd (ground (arith, e))

module _ (env : Env) where
  drained-IsConnection :
      (sid cid : ℕ) (c : Connection) (o : Option Work) (log : List Event)
      → IsConnection cid c
      → IsDrained (record { connection = stop_connection c; log = log }) o
      → IsConnection cid
          (drained o (record { connection = stop_connection c; log = log })).connection
  unfolding drained stop_connection
  drained-IsConnection sid cid c none log is d = record {
    same_cid = is.same_cid;
    bounded = is.bounded;
  }
  drained-IsConnection sid cid c (some r) log is d =
      only (λ (w : Work). IsConnection cid w.connection) d.result
        (record { same_cid = d.same_cid ∙ is.same_cid; bounded = d.bounded }) r (sym d.returns)

  pub drain-IsConnection :
      (sid cid : ℕ) (c : Connection) (log : List Event)
      → IsConnection cid c
      → IsConnection cid (drain env sid c log).connection
  unfolding drain
  drain-IsConnection sid cid c log is =
      drained-IsConnection sid cid c _ log is
        (reject_tasks-IsDrained _ env sid _ (unfold stop_connection in is.bounded) (omega arith))

  deactivated-IsWellFormed :
      (sid cid : ℕ) (s : Session) (c : Connection) (h : Hba)
      → IsWellFormed env h
      → IsSession env sid s
      → IsConnection cid c
      → IsWellFormed env (deactivated env sid cid s c h)
  unfolding deactivated
  deactivated-IsWellFormed sid cid s c h w is ic =
      relabelled env
        (put_connection sid cid (some (drain env sid c h.log).connection)
          (record s { num_active_connections = decremented s.num_active_connections }) h)
        _ refl
        (put_connection-IsWellFormed env sid cid _ _ h w
          (record { same_sid = is.same_sid; slots = is.slots; each = is.each })
          (only (λ (d : Connection). IsConnection cid d) _ (drain-IsConnection sid cid c h.log ic)))

  deactivate_at-IsWellFormed :
      (sid cid : ℕ) (s : Session) (o : Option Connection) (h : Hba)
      → IsWellFormed env h
      → IsSession env sid s
      → slot s.connections cid ≡ o
      → IsWellFormed env (deactivate_at env sid cid s o h).1
  unfolding deactivate_at
  deactivate_at-IsWellFormed sid cid s none h w is e = w
  deactivate_at-IsWellFormed sid cid s (some c) h w is e =
      deactivated-IsWellFormed sid cid s c h w is (is.each cid c e)

  deactivate_in-IsWellFormed :
      (sid cid : ℕ) (o : Option Session) (h : Hba)
      → IsWellFormed env h
      → slot h.sessions sid ≡ o
      → IsWellFormed env (deactivate_in env sid cid o h).1
  unfolding deactivate_in
  deactivate_in-IsWellFormed sid cid none h w e = w
  deactivate_in-IsWellFormed sid cid (some s) h w e =
      deactivate_at-IsWellFormed sid cid s _ h w (w.each sid s e) refl

  pub deactivate_connection-IsWellFormed :
      (sid cid : ℕ) (h : Hba)
      → IsWellFormed env h
      → IsWellFormed env (deactivate_connection env sid cid h).1
  unfolding deactivate_connection
  deactivate_connection-IsWellFormed sid cid h w =
      elim (Bool-cases (ltb sid env.max_sessions && ltb cid env.max_connections)) [
        | inl e ↦ rw e (deactivate_in-IsWellFormed sid cid _ h w refl)
        | inr e ↦ rw e w
      ]

  deactivate_from-IsWellFormed :
      (n sid cid : ℕ) (h : Hba)
      → IsWellFormed env h
      → IsWellFormed env (deactivate_from n env sid cid h).1
  unfolding deactivate_from
  deactivate_from-IsWellFormed zero sid cid h w = w
  deactivate_from-IsWellFormed (suc n) sid cid h w =
      chosen (λ (r : ℕ × Hba). IsWellFormed env r.1) (one.0 == 0) _ one
        (deactivate_from-IsWellFormed n sid (suc cid) one.1 one_kept) one_kept
    where
      one : ℕ × Hba
      one = if has_connection sid cid h then deactivate_connection env sid cid h else (0, h)

      one_kept : IsWellFormed env one.1
      one_kept =
          chosen (λ (r : ℕ × Hba). IsWellFormed env r.1) (has_connection sid cid h) _ (0, h)
            (deactivate_connection-IsWellFormed sid cid h w) w

  pub deactivate_all_connections-IsWellFormed :
      (sid : ℕ) (h : Hba)
      → IsWellFormed env h
      → IsWellFormed env (deactivate_all_connections env sid h).1
  unfolding deactivate_all_connections
  deactivate_all_connections-IsWellFormed sid h w =
      chosen kept (not (ltb sid env.max_sessions)) (einval, h) _ w
        (chosen kept (not (is_present (slot h.sessions sid))) (einval, h) _ w
          (deactivate_from-IsWellFormed env.max_connections sid 0 h w))
    where
      kept : ℕ × Hba → Type 0
      kept r = IsWellFormed env r.1

  activated-IsWellFormed :
      (sid cid : ℕ) (s : Session) (c : Connection) (h : Hba)
      → IsWellFormed env h
      → IsSession env sid s
      → IsConnection cid c
      → IsWellFormed env (activated env sid cid s c h).1
  unfolding activated stop_connection start_connection
  activated-IsWellFormed sid cid s c h w is ic =
      chosen (λ (r : ℕ × Hba). IsWellFormed env r.1) _ _ _
        (relabelled env (put_connection sid cid _ s h) _ refl (
          put_connection-IsWellFormed env sid cid _ s h w is (
            only (λ (d : Connection). IsConnection cid d) _
              (record { same_cid = ic.same_cid; bounded = ic.bounded }))))
        (relabelled env (put_connection sid cid _ _ h) _ refl (
          put_connection-IsWellFormed env sid cid _ _ h w
            (record { same_sid = is.same_sid; slots = is.slots; each = is.each })
            (only (λ (d : Connection). IsConnection cid d) _
              (record { same_cid = ic.same_cid; bounded = ic.bounded }))))

  -- Where an operation that may read outside an array ends, it has kept the table.
  unfoldable pub Kept : Option (ℕ × Hba) → Type 0
  Kept none = Unit
  Kept (some r) = IsWellFormed env r.1

  activate_at-IsWellFormed :
      (sid cid : ℕ) (s : Session) (o : Option Connection) (h : Hba)
      → IsWellFormed env h
      → IsSession env sid s
      → slot s.connections cid ≡ o
      → IsWellFormed env (activate_at env sid cid s o h).1
  unfolding activate_at
  activate_at-IsWellFormed sid cid s none h w is e = w
  activate_at-IsWellFormed sid cid s (some c) h w is e =
      activated-IsWellFormed sid cid s c h w is (is.each cid c e)

  activate_in-Kept :
      (sid cid : ℕ) (o : Option Session) (h : Hba)
      → IsWellFormed env h
      → slot h.sessions sid ≡ o
      → Kept (activate_in env sid cid o h)
  unfolding activate_in Kept
  activate_in-Kept sid cid none h w e = w
  activate_in-Kept sid cid (some s) h w e =
      chosen Kept (ltb cid env.max_connections) _ none
        (activate_at-IsWellFormed sid cid s _ h w (w.each sid s e) refl) tt

  pub activate_connection-Kept :
      (sid cid : ℕ) (h : Hba) → IsWellFormed env h → Kept (activate_connection env sid cid h)
  unfolding activate_connection Kept
  activate_connection-Kept sid cid h w =
      chosen Kept (sid == invalid_session_id || cid == invalid_connection_id) (some (einval, h)) _ w
        (chosen Kept (ltb sid env.max_sessions) _ none (activate_in-Kept sid cid _ h w refl) tt)

  next_activation-Kept :
      (o : Option (ℕ × Hba)) (rest : Hba → Option (ℕ × Hba))
      → Kept o
      → ((h : Hba) → IsWellFormed env h → Kept (rest h))
      → Kept (next_activation o rest)
  unfolding next_activation Kept
  next_activation-Kept none rest k h = tt
  next_activation-Kept (some (error, g)) rest k h =
      chosen Kept (error == 0) (rest g) (some (error, g)) (h g k) k

  activate_from-Kept :
      (n sid cid : ℕ) (h : Hba) → IsWellFormed env h → Kept (activate_from n env sid cid h)
  unfolding activate_from Kept
  activate_from-Kept zero sid cid h w = w
  activate_from-Kept (suc n) sid cid h w =
      next_activation-Kept _ _ (activate_connection-Kept sid cid h w)
        (λ g. activate_from-Kept n sid (suc cid) g)

  pub activate_all_connections-Kept :
      (sid : ℕ) (h : Hba) → IsWellFormed env h → Kept (activate_all_connections env sid h)
  unfolding activate_all_connections Kept
  activate_all_connections-Kept sid h w =
      chosen Kept (sid == invalid_session_id) (some (einval, h)) _ w (
        chosen Kept (not (ltb sid env.max_sessions)) none _ tt (
          chosen Kept (not (is_present (slot h.sessions sid))) (some (einval, h)) _ w
            (activate_from-Kept env.max_connections sid 0 h w)))
