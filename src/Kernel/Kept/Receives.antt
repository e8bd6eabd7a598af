-- ===== src/Kernel/Kept/Receives.antt =====
-- Source/Kernel/iSCSIVirtualHBA.cpp: receiving PDUs keeps the session table well-formed.
use i_scsiinitiator.Base.{ℕ, ◌==◌, ◌&&◌, ltb, not, Option, none, some, List, ◌≡◌, refl, chosen}
use i_scsiinitiator.Kernel.Slots.{slot}
use i_scsiinitiator.Kernel.State.{Env, Incoming, HeaderRead, SegmentRead, Connection, Session, Hba}
use i_scsiinitiator.Kernel.Wire.{
  Received, recv_header_by, recv_header_at, recv_header_in, recv_pdu_header, recv_segment_by,
  recv_segment_at, recv_segment_in, recv_pdu_data, is_broken, fails_header_digest,
  is_data_without_status, counted_connection, counted_session,
}
use i_scsiinitiator.Kernel.WellFormed.{
  IsConnection, IsSession, IsWellFormed, put_connection-IsWellFormed,
}
use i_scsiinitiator.Kernel.Kept.{relabelled, only}
use i_scsiinitiator.Kernel.Kept.Releases.{handle_connection_timeout-IsWellFormed}

module _ (env : Env) where
  recv_header_by-IsWellFormed :
      (sid cid : ℕ) (s : Session) (c : Connection) (r : HeaderRead) (h : Hba)
      → IsWellFormed env h
      → IsSession env sid s
      → IsConnection cid c
      → IsWellFormed env (recv_header_by env sid cid s c r h).hba
  unfolding recv_header_by counted_session counted_connection
  recv_header_by-IsWellFormed sid cid s c r h w is ic =
      chosen kept (is_broken r.error) _ _ (handle_connection_timeout-IsWellFormed env sid cid h w) (
        chosen kept (ltb r.bytes 48) _ _ w (
          chosen kept (fails_header_digest env c r) _ _ w (
            chosen kept (is_data_without_status r.header) _ _ w (
              put_connection-IsWellFormed env sid cid _ _ h w
                (record { same_sid = is.same_sid; slots = is.slots; each = is.each })
                (only (λ (d : Connection). IsConnection cid d) _
                  (record { same_cid = ic.same_cid; bounded = ic.bounded }))))))
    where
      kept : Received Incoming → Type 0
      kept x = IsWellFormed env x.hba

  recv_header_at-IsWellFormed :
      (sid cid : ℕ) (s : Session) (o : Option Connection) (b : Incoming) (h : Hba)
      → IsWellFormed env h
      → IsSession env sid s
      → slot s.connections cid ≡ o
      → IsWellFormed env (recv_header_at env sid cid s o b h).hba
  unfolding recv_header_at
  recv_header_at-IsWellFormed sid cid s none b h w is e = w
  recv_header_at-IsWellFormed sid cid s (some c) b h w is e =
      recv_header_by-IsWellFormed sid cid s c _ _ (relabelled env h _ refl w) is (is.each cid c e)

  recv_header_in-IsWellFormed :
      (sid cid : ℕ) (o : Option Session) (b : Incoming) (h : Hba)
      → IsWellFormed env h
      → slot h.sessions sid ≡ o
      → IsWellFormed env (recv_header_in env sid cid o b h).hba
  unfolding recv_header_in
  recv_header_in-IsWellFormed sid cid none b h w e = w
  recv_header_in-IsWellFormed sid cid (some s) b h w e =
      recv_header_at-IsWellFormed sid cid s _ b h w (w.each sid s e) refl

  pub recv_pdu_header-IsWellFormed :
      (sid cid : ℕ) (b : Incoming) (h : Hba)
      → IsWellFormed env h
      → IsWellFormed env (recv_pdu_header env sid cid b h).hba
  unfolding recv_pdu_header
  recv_pdu_header-IsWellFormed sid cid b h w = recv_header_in-IsWellFormed sid cid _ b h w refl

  recv_segment_by-IsWellFormed :
      (sid cid : ℕ) (c : Connection) (r : SegmentRead) (h : Hba)
      → IsWellFormed env h
      → IsWellFormed env (recv_segment_by env sid cid c r h).hba
  unfolding recv_segment_by
  recv_segment_by-IsWellFormed sid cid c r h w =
      chosen kept (is_broken r.error) _ _ (handle_connection_timeout-IsWellFormed env sid cid h w)
        (chosen kept (c.use_data_digest && not (r.digest == env.segment_crc r.segment)) _ _ w w)
    where
      kept : Received (List ℕ) → Type 0
      kept x = IsWellFormed env x.hba

  recv_segment_at-IsWellFormed :
      (sid cid : ℕ) (o : Option Connection) (len : ℕ) (h : Hba)
      → IsWellFormed env h
      → IsWellFormed env (recv_segment_at env sid cid o len h).hba
  unfolding recv_segment_at
  recv_segment_at-IsWellFormed sid cid none len h w = w
  recv_segment_at-IsWellFormed sid cid (some c) len h w =
      recv_segment_by-IsWellFormed sid cid c _ _ (relabelled env h _ refl w)

  recv_segment_in-IsWellFormed :
      (sid cid : ℕ) (o : Option Session) (len : ℕ) (h : Hba)
      → IsWellFormed env h
      → IsWellFormed env (recv_segment_in env sid cid o len h).hba
  unfolding recv_segment_in
  recv_segment_in-IsWellFormed sid cid none len h w = w
  recv_segment_in-IsWellFormed sid cid (some s) len h w =
      recv_segment_at-IsWellFormed sid cid (slot s.connections cid) len h w

  pub recv_pdu_data-IsWellFormed :
      (sid cid len : ℕ) (h : Hba)
      → IsWellFormed env h
      → IsWellFormed env (recv_pdu_data env sid cid len h).hba
  unfolding recv_pdu_data
  recv_pdu_data-IsWellFormed sid cid len h w =
      recv_segment_in-IsWellFormed sid cid (slot h.sessions sid) len h w
