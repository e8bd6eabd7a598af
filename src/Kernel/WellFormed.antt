-- ===== src/Kernel/WellFormed.antt =====
-- Source/Kernel/iSCSIVirtualHBA.cpp: what holds of the session table between two operations.
use i_scsiinitiator.Base.{ℕ, ◌<◌, Option, some, ◌≡◌, subst, ◌∙◌, arith, inl, inr, length}
use i_scsiinitiator.Kernel.Slots.{slot, set_slot, length-set_slot, slot-set_slot-cases}
use i_scsiinitiator.Kernel.State.{Env, Connection, Session, Hba, put_session, put_connection}
use i_scsiinitiator.Kernel.Completion.{window_size}

-- A connection in its slot.
pub record IsConnection (cid : ℕ) (c : Connection) : Type 0 where
  pub same_cid : c.cid ≡ cid
  pub bounded : c.history_idx < window_size

pub record IsSession (env : Env) (sid : ℕ) (s : Session) : Type 0 where
  pub same_sid : s.session_id ≡ sid
  pub slots : length s.connections ≡ env.max_connections
  pub each : (cid : ℕ) (c : Connection) → slot s.connections cid ≡ some c → IsConnection cid c

-- The arrays have their sizes, every session and every connection has the number of its slot as its
-- identifier, and the index into a connection's speed history is within it.
pub record IsWellFormed (env : Env) (h : Hba) : Type 0 where
  pub slots : length h.sessions ≡ env.max_sessions
  pub each : (sid : ℕ) (s : Session) → slot h.sessions sid ≡ some s → IsSession env sid s

module _ (env : Env) where
  pub put_session-IsWellFormed :
      (sid : ℕ) (o : Option Session) (h : Hba)
      → IsWellFormed env h
      → ((s : Session) → o ≡ some s → IsSession env sid s)
      → IsWellFormed env (put_session sid o h)
  unfolding put_session
  put_session-IsWellFormed sid o h w is = record {
    slots = length-set_slot sid o h.sessions ∙ w.slots;
    each = λ m s e. elim (slot-set_slot-cases sid m o h.sessions s e) [
      | inl (same, value) ↦ subst (λ (n : ℕ). IsSession env n s) same (is s value)
      | inr old ↦ w.each m s old
    ];
  }

  pub put_in-IsSession :
      (sid cid : ℕ) (o : Option Connection) (s : Session)
      → IsSession env sid s
      → ((c : Connection) → o ≡ some c → IsConnection cid c)
      → IsSession env sid (record s { connections = set_slot cid o s.connections })
  put_in-IsSession sid cid o s i is = record {
    same_sid = i.same_sid;
    slots = length-set_slot cid o s.connections ∙ i.slots;
    each = λ m c e. elim (slot-set_slot-cases cid m o s.connections c e) [
      | inl (same, value) ↦ subst (λ (n : ℕ). IsConnection n c) same (is c value)
      | inr old ↦ i.each m c old
    ];
  }

  pub put_connection-IsWellFormed :
      (sid cid : ℕ) (o : Option Connection) (s : Session) (h : Hba)
      → IsWellFormed env h
      → IsSession env sid s
      → ((c : Connection) → o ≡ some c → IsConnection cid c)
      → IsWellFormed env (put_connection sid cid o s h)
  unfolding put_connection
  put_connection-IsWellFormed sid cid o s h w i is = put_session-IsWellFormed sid _ h w (λ t e.
      subst (λ (x : Session). IsSession env sid x) (some_injective e)
        (put_in-IsSession sid cid o s i is))
    where
      some_injective : {t u : Session} → some t ≡ some u → t ≡ u
      some_injective e = ground (arith, e)
