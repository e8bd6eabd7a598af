-- ===== src/Kernel/DataOut/Rounds.antt =====
-- Source/Kernel/iSCSIVirtualHBA.cpp: one round of the loop of ProcessDataOutForTask, where its PDU can be
-- sent.
use i_scsiinitiator.Base.{
  ℕ, zero, suc, ◌+◌, ◌%◌, ◌^◌, ◌≤◌, ◌<◌, ◌==◌, leb, Bool, true, false, some, List, [], ◌∷◌, ◌++◌,
  append-nil, ◌≡◌, refl, ap, sym, ◌∙◌, subst, arith, length, Bool-cases, inl, inr, if◌then◌else◌,
}
use i_scsiinitiator.Kernel.State.{
  Env, Event, sent, incremented_realized, Piece, basic_header, header_digest, data_segment, Header,
  Connection, Session, Hba, put_session, put_connection,
}
use i_scsiinitiator.Kernel.Wire.{
  send_by, pieces, segment_pieces, completed_header, next_cmd_sn, op_data_out,
}
use i_scsiinitiator.Kernel.DataOut.{
  Transfer, account, data_out_header, data_out_final_flag, next_size, send_next, transferred,
}
use i_scsiinitiator.Kernel.Present.{
  Present, send_pdu-by, change_connection-by, Present-put_connection, Present-put_session,
  Present-relabelled,
}

-- The `n` bytes of some data from `offset` on.
unfoldable pub part : (ℕ → ℕ) → ℕ → ℕ → List ℕ
part content offset zero = []
part content offset (suc n) = content offset ∷ part content (suc offset) n

-- A data-out PDU as the target sees it: its header and its data segment.
pub record Chunk : Type 0 where
  pub bytes : List ℕ
  pub offset : ℕ
  pub size : ℕ
  pub data_sn : ℕ
  pub final : Bool

unfoldable pub segment_of : List Piece → List ℕ
segment_of [] = []
segment_of (data_segment segment ∷ rest) = segment
segment_of (piece ∷ rest) = segment_of rest

unfoldable pub chunk_of_header : Header → List ℕ → List Chunk
chunk_of_header b segment =
    if b.op_code == op_data_out
    then record {
      bytes = segment;
      offset = b.buffer_offset;
      size = b.data_segment_length;
      data_sn = b.data_sn;
      final = b.flags == data_out_final_flag;
    }
      ∷ []
    else []

unfoldable pub chunk_of_pieces : List Piece → List Chunk
chunk_of_pieces (basic_header b ∷ rest) = chunk_of_header b (segment_of rest)
chunk_of_pieces _ = []

unfoldable pub chunk_of : Event → List Chunk
chunk_of (sent sid cid sent_pieces) = chunk_of_pieces sent_pieces
chunk_of _ = []

-- The data-out PDUs of a log, the oldest first.
unfoldable pub chunks_of : List Event → List Chunk
chunks_of [] = []
chunks_of (e ∷ log) = chunks_of log ++ chunk_of e

-- The PDUs carry the `len` bytes of the data from `offset` on, in order and without a gap, numbered from
-- `data_sn` on, none longer than `segment` or empty, and the last one alone is marked as final.
pub data Covers (content : ℕ → ℕ) (segment : ℕ) : ℕ → ℕ → ℕ → List Chunk → Type 0 where
  done : (offset data_sn : ℕ) → Covers content segment offset 0 data_sn []
  next :
      (offset size left data_sn : ℕ) (chunks : List Chunk)
      → 0 < size
      → size ≤ segment
      → Covers content segment (offset + size) left (suc data_sn) chunks
      → Covers content segment offset (size + left) data_sn (
          record {
            bytes = part content offset size;
            offset = offset;
            size = size;
            data_sn = data_sn;
            final = left == 0;
          }
          ∷ chunks)

-- The PDU of one round.
abbrev pub chunk_at : (ℕ → ℕ) → Transfer → ℕ → ℕ → ℕ → Chunk
chunk_at content x offset len data_sn = record {
  bytes = part content offset (next_size x len);
  offset = offset;
  size = next_size x len;
  data_sn = data_sn;
  final = leb len x.segment;
}

-- What one round of the loop does where its PDU can be sent.
pub record Round (content : ℕ → ℕ) (env : Env) (x : Transfer) (offset len data_sn : ℕ) (h : Hba)
    : Type 0 where
  pub sends : (send_next env x offset len data_sn h).0 ≡ 0
  pub there :
      Present x.sid x.cid (account x (next_size x len) (send_next env x offset len data_sn h).1)
  pub chunks :
      chunks_of (account x (next_size x len) (send_next env x offset len data_sn h).1).log
      ≡ chunks_of h.log ++ (chunk_at content x offset len data_sn ∷ [])

length-part : (content : ℕ → ℕ) (offset n : ℕ) → length (part content offset n) ≡ n
unfolding part
length-part content offset zero = refl
length-part content offset (suc n) = ap suc (length-part content (suc offset) n)

pub part-append :
    (content : ℕ → ℕ) (offset m n : ℕ)
    → part content offset m ++ part content (offset + m) n ≡ part content offset (m + n)
unfolding part
part-append content offset zero n =
    let here : offset + 0 ≡ offset = omega arith in
    let all : 0 + n ≡ n = omega arith in rw (here, all) refl
part-append content offset (suc m) n =
    let later : offset + suc m ≡ suc offset + m = omega arith in
    let all : suc m + n ≡ suc (m + n) = omega arith in
    rw (later, all) (ap (λ l. content offset ∷ l) (part-append content (suc offset) m n))

module _ (content : ℕ → ℕ) (env : Env) (x : Transfer)
    (sends_all : (log : List Event) (socket : ℕ) → env.send_error log socket ≡ 0)
    (reads : (log : List Event) (offset n : ℕ)
      → env.data_at log x.task offset n ≡ part content offset n)
    (segment_pos : 0 < x.segment) (segment_fits : x.segment < 2 ^ 24) where
  send_by-succeeds :
      (s : Session) (c : Connection) (b : Header) (segment : List ℕ) (h : Hba)
      → send_by env x.sid x.cid s c b segment h ≡ (
        0,
        record h {
          sessions =
              (put_session x.sid (some (record s { cmd_sn = next_cmd_sn b s.cmd_sn })) h).sessions;
          log = sent x.sid x.cid (pieces c (completed_header s c b segment) segment) ∷ h.log;
        },
      )
  unfolding send_by put_session
  send_by-succeeds s c b segment h = rw (sends_all h.log c.socket) refl

  next_size-fits : (len : ℕ) → next_size x len % 2 ^ 24 ≡ next_size x len
  unfolding next_size
  next_size-fits len = ground (arith, segment_fits)

  flag_round :
      (final : Bool) → ((if final then data_out_final_flag else 0) == data_out_final_flag) ≡ final
  flag_round true = refl
  flag_round false = refl

  chunk_of_round :
      (s : Session) (c : Connection) (offset len data_sn : ℕ) (log : List Event)
      → chunk_of_header
          (completed_header s c
            (data_out_header x (leb len x.segment) offset data_sn)
            (env.data_at log x.task offset (next_size x len)))
          (env.data_at log x.task offset (next_size x len))
        ≡ chunk_at content x offset len data_sn ∷ []
  unfolding chunk_of_header completed_header data_out_header
  chunk_of_round s c offset len data_sn log =
      rw
        (
          reads log offset (next_size x len),
          length-part content offset (next_size x len),
          next_size-fits len,
          flag_round (leb len x.segment),
        )
        refl

  segment_of-pieces :
      (c : Connection) (b : Header) (segment : List ℕ)
      → (length segment == 0) ≡ false
      → segment_of
          ((if c.use_header_digest then header_digest b ∷ [] else []) ++ segment_pieces c segment)
        ≡ segment
  unfolding segment_of segment_pieces
  segment_of-pieces c b segment filled = elim (Bool-cases c.use_header_digest) [
    | inl e ↦ rw (e, filled) refl
    | inr e ↦ rw (e, filled) refl
  ]

  module _ (offset len data_sn : ℕ) (h : Hba) (p : Present x.sid x.cid h)
      (left : (len == 0) ≡ false) where
    abbrev header : Header
    header = data_out_header x (leb len x.segment) offset data_sn

    abbrev bytes : List ℕ
    bytes = env.data_at h.log x.task offset (next_size x len)

    abbrev session : Session
    session = record (p.session) { cmd_sn = next_cmd_sn header p.session.cmd_sn }

    -- The adapter behind the send.
    abbrev sent_hba : Hba
    sent_hba = record h {
      sessions = (put_session x.sid (some session) h).sessions;
      log =
          sent x.sid x.cid
            (pieces p.connection (completed_header p.session p.connection header bytes) bytes)
          ∷ h.log;
    }

    -- The same with the transfer reported to the SCSI stack.
    abbrev reported_hba : Hba
    reported_hba = record sent_hba {
      log = incremented_realized x.task (next_size x len) ∷ sent_hba.log;
    }

    send_next-sent : send_next env x offset len data_sn h ≡ (0, sent_hba)
    unfolding send_next
    send_next-sent =
        send_pdu-by x.sid x.cid env header bytes h p
        ∙ send_by-succeeds p.session p.connection header bytes h

    Present-reported : Present x.sid x.cid reported_hba
    Present-reported =
        Present-relabelled x.sid x.cid (put_session x.sid (some session) h) reported_hba refl
          (Present-put_session x.sid x.cid session h p refl)

    account-sent :
        account x (next_size x len) (send_next env x offset len data_sn h).1
        ≡ put_connection x.sid x.cid
            (some (transferred (next_size x len) Present-reported.connection))
            Present-reported.session
            reported_hba
    unfolding account
    account-sent =
        ap (λ (g : Hba). account x (next_size x len) g) (ap (λ (r : ℕ × Hba). r.1) send_next-sent)
        ∙ change_connection-by x.sid x.cid (transferred (next_size x len)) reported_hba
            Present-reported

    abbrev completed : Header
    completed = completed_header p.session p.connection header bytes

    filled : (length bytes == 0) ≡ false
    unfolding next_size
    filled =
        let size : (next_size x len == 0) ≡ false = ground (arith, left, segment_pos) in
        rw (reads h.log offset (next_size x len), length-part content offset (next_size x len)) size

    chunks_of-reported :
        chunks_of reported_hba.log ≡ chunks_of h.log ++ (chunk_at content x offset len data_sn ∷ [])
    unfolding chunks_of chunk_of chunk_of_pieces pieces
    chunks_of-reported =
        append-nil _
        ∙ ap (λ (l : List ℕ). chunks_of h.log ++ chunk_of_header completed l)
            (segment_of-pieces p.connection completed bytes filled)
        ∙ ap (λ (l : List Chunk). chunks_of h.log ++ l)
            (chunk_of_round p.session p.connection offset len data_sn h.log)

    pub send_next-Round : Round content env x offset len data_sn h
    unfolding put_connection put_session
    send_next-Round = record {
      sends = ap (λ (r : ℕ × Hba). r.0) send_next-sent;
      there =
          subst (λ (g : Hba). Present x.sid x.cid g) (sym account-sent)
            (Present-put_connection x.sid x.cid _ Present-reported.session reported_hba
              Present-reported refl);
      chunks = ap (λ (g : Hba). chunks_of g.log) account-sent ∙ chunks_of-reported;
    }
