-- ===== src/Kernel/Kept/Sends.antt =====
-- Source/Kernel/iSCSIVirtualHBA.cpp: sending and receiving PDUs keeps the session table well-formed.
use i_scsiinitiator.Base.{ℕ, zero, suc, ◌==◌, Option, none, some, List, ◌≡◌, refl, chosen}
use i_scsiinitiator.Kernel.Slots.{slot}
use i_scsiinitiator.Kernel.State.{Env, Header, Connection, Session, Hba, put_session}
use i_scsiinitiator.Kernel.Wire.{send_by, send_at, send_in, send_pdu, next_cmd_sn}
use i_scsiinitiator.Kernel.DataOut.{
  change_at, change_in, change_connection, transferred, Transfer, next_size, send_next, send_data,
  account,
}
use i_scsiinitiator.Kernel.WellFormed.{
  IsConnection, IsSession, IsWellFormed, put_session-IsWellFormed, put_connection-IsWellFormed,
}
use i_scsiinitiator.Kernel.Kept.{relabelled, only}
use i_scsiinitiator.Kernel.Kept.Releases.{handle_connection_timeout-IsWellFormed}

module _ (env : Env) where
  send_by-IsWellFormed :
      (sid cid : ℕ) (s : Session) (c : Connection) (b : Header) (segment : List ℕ) (h : Hba)
      → IsWellFormed env h
      → IsSession env sid s
      → IsWellFormed env (send_by env sid cid s c b segment h).1
  unfolding send_by
  send_by-IsWellFormed sid cid s c b segment h w is =
      chosen (λ (r : ℕ × Hba). IsWellFormed env r.1) (env.send_error h.log c.socket == 0) _ _
        (relabelled env advanced _ refl advanced_kept)
        (handle_connection_timeout-IsWellFormed env sid cid advanced advanced_kept)
    where
      advanced : Hba
      advanced = put_session sid (some (record s { cmd_sn = next_cmd_sn b s.cmd_sn })) h

      advanced_kept : IsWellFormed env advanced
      advanced_kept = put_session-IsWellFormed env sid _ h w (
          only (λ (t : Session). IsSession env sid t) _
            (record { same_sid = is.same_sid; slots = is.slots; each = is.each }))

  send_at-IsWellFormed :
      (sid cid : ℕ) (s : Session) (o : Option Connection) (b : Header) (segment : List ℕ) (h : Hba)
      → IsWellFormed env h
      → IsSession env sid s
      → IsWellFormed env (send_at env sid cid s o b segment h).1
  unfolding send_at
  send_at-IsWellFormed sid cid s none b segment h w is = w
  send_at-IsWellFormed sid cid s (some c) b segment h w is =
      send_by-IsWellFormed sid cid s c b segment h w is

  send_in-IsWellFormed :
      (sid cid : ℕ) (o : Option Session) (b : Header) (segment : List ℕ) (h : Hba)
      → IsWellFormed env h
      → slot h.sessions sid ≡ o
      → IsWellFormed env (send_in env sid cid o b segment h).1
  unfolding send_in
  send_in-IsWellFormed sid cid none b segment h w e = w
  send_in-IsWellFormed sid cid (some s) b segment h w e =
      send_at-IsWellFormed sid cid s (slot s.connections cid) b segment h w (w.each sid s e)

  pub send_pdu-IsWellFormed :
      (sid cid : ℕ) (b : Header) (segment : List ℕ) (h : Hba)
      → IsWellFormed env h
      → IsWellFormed env (send_pdu env sid cid b segment h).1
  unfolding send_pdu
  send_pdu-IsWellFormed sid cid b segment h w = send_in-IsWellFormed sid cid _ b segment h w refl

  -- A write to a connection that leaves its identifier and its index alone.
  change_at-IsWellFormed :
      (f : Connection → Connection) (sid cid : ℕ) (s : Session) (o : Option Connection) (h : Hba)
      → ((c : Connection) → IsConnection cid c → IsConnection cid (f c))
      → IsWellFormed env h
      → IsSession env sid s
      → slot s.connections cid ≡ o
      → IsWellFormed env (change_at f sid cid s o h)
  unfolding change_at
  change_at-IsWellFormed f sid cid s none h ok w is e = w
  change_at-IsWellFormed f sid cid s (some c) h ok w is e =
      put_connection-IsWellFormed env sid cid _ s h w is
        (only (λ (d : Connection). IsConnection cid d) _ (ok c (is.each cid c e)))

  change_in-IsWellFormed :
      (f : Connection → Connection) (sid cid : ℕ) (o : Option Session) (h : Hba)
      → ((c : Connection) → IsConnection cid c → IsConnection cid (f c))
      → IsWellFormed env h
      → slot h.sessions sid ≡ o
      → IsWellFormed env (change_in f sid cid o h)
  unfolding change_in
  change_in-IsWellFormed f sid cid none h ok w e = w
  change_in-IsWellFormed f sid cid (some s) h ok w e =
      change_at-IsWellFormed f sid cid s _ h ok w (w.each sid s e) refl

  pub change_connection-IsWellFormed :
      (f : Connection → Connection) (sid cid : ℕ) (h : Hba)
      → ((c : Connection) → IsConnection cid c → IsConnection cid (f c))
      → IsWellFormed env h
      → IsWellFormed env (change_connection f sid cid h)
  unfolding change_connection
  change_connection-IsWellFormed f sid cid h ok w = change_in-IsWellFormed f sid cid _ h ok w refl

  pub transferred-IsConnection :
      (n cid : ℕ) (c : Connection) → IsConnection cid c → IsConnection cid (transferred n c)
  unfolding transferred
  transferred-IsConnection n cid c is = record { same_cid = is.same_cid; bounded = is.bounded }

  -- Where a transfer ends, it has kept the table.
  unfoldable pub Ended : Option Hba → Type 0
  Ended none = Unit
  Ended (some h) = IsWellFormed env h

  pub send_data-Ended :
      (fuel : ℕ) (x : Transfer) (offset len data_sn : ℕ) (h : Hba)
      → IsWellFormed env h
      → Ended (send_data fuel env x offset len data_sn h)
  unfolding send_data Ended account send_next
  send_data-Ended zero x offset len data_sn h w = tt
  send_data-Ended (suc fuel) x offset len data_sn h w = chosen Ended (len == 0) (some h) _ w (
      chosen Ended (out.0 == 0) _ (some out.1)
        (send_data-Ended fuel x _ _ _ _ (
          change_connection-IsWellFormed (transferred (next_size x len)) x.sid x.cid _
            (transferred-IsConnection (next_size x len) x.cid)
            (relabelled env out.1 _ refl out_kept)))
        out_kept)
    where
      out : ℕ × Hba
      out = send_next env x offset len data_sn h

      out_kept : IsWellFormed env out.1
      out_kept = send_pdu-IsWellFormed x.sid x.cid _ _ h w
