-- ===== src/Kernel/Present.antt =====
-- Source/Kernel/iSCSIVirtualHBA.cpp: SendPDU, and a write by a connection's pointer, while the connection
-- is there.
use i_scsiinitiator.Base.{ℕ, some, List, ◌≡◌, refl}
use i_scsiinitiator.Kernel.Slots.{slot, slot-set_slot-some}
use i_scsiinitiator.Kernel.State.{
  Env, Header, Connection, Session, Hba, put_session, put_connection,
}
use i_scsiinitiator.Kernel.Wire.{send_pdu, send_in, send_at, send_by}
use i_scsiinitiator.Kernel.DataOut.{change_connection, change_in, change_at}

-- The session and the connection that stand in the slots.
pub record Present (sid cid : ℕ) (h : Hba) : Type 0 where
  pub session : Session
  pub connection : Connection
  pub session_there : slot h.sessions sid ≡ some session
  pub connection_there : slot session.connections cid ≡ some connection

module _ (sid cid : ℕ) where
  pub send_pdu-by :
      (env : Env) (header : Header) (segment : List ℕ) (h : Hba) (p : Present sid cid h)
      → send_pdu env sid cid header segment h
        ≡ send_by env sid cid p.session p.connection header segment h
  unfolding send_pdu send_in send_at
  send_pdu-by env header segment h p = rw (p.session_there, p.connection_there) refl

  pub change_connection-by :
      (f : Connection → Connection) (h : Hba) (p : Present sid cid h)
      → change_connection f sid cid h ≡ put_connection sid cid (some (f p.connection)) p.session h
  unfolding change_connection change_in change_at
  change_connection-by f h p = rw (p.session_there, p.connection_there) refl

  pub Present-put_connection :
      (c : Connection) (s : Session) (h : Hba) (p : Present sid cid h)
      → s.connections ≡ p.session.connections
      → Present sid cid (put_connection sid cid (some c) s h)
  unfolding put_connection put_session
  Present-put_connection c s h p same = record {
    session = _;
    connection = c;
    session_there = slot-set_slot-some sid _ h.sessions p.session p.session_there;
    connection_there =
        slot-set_slot-some cid (some c) s.connections p.connection (rw same p.connection_there);
  }

  pub Present-put_session :
      (s : Session) (h : Hba) (p : Present sid cid h)
      → s.connections ≡ p.session.connections
      → Present sid cid (put_session sid (some s) h)
  unfolding put_session
  Present-put_session s h p same = record {
    session = s;
    connection = p.connection;
    session_there = slot-set_slot-some sid _ h.sessions p.session p.session_there;
    connection_there = rw same p.connection_there;
  }

  pub Present-relabelled :
      (h k : Hba) → k.sessions ≡ h.sessions → Present sid cid h → Present sid cid k
  Present-relabelled h k same p = record {
    session = p.session;
    connection = p.connection;
    session_there = rw same p.session_there;
    connection_there = p.connection_there;
  }
