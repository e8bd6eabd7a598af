-- ===== src/Kernel/Wire.antt =====
-- Source/Kernel/iSCSIVirtualHBA.cpp: SendPDU, RecvPDUHeader and RecvPDUData; iSCSIVirtualHBA.h:
-- SetDataSegmentLength and GetDataSegmentLength. A connection that is not in its slot was freed, or never
-- was: SendPDU's check of the pointer stands for both.
use i_scsiinitiator.Base.{
  ℕ, ◌+◌, ◌-◌, ◌*◌, ◌/◌, ◌%◌, ◌^◌, ◌<◌, ◌==◌, ◌&&◌, ltb, not, Bool, Option, none, some, List, [],
  ◌∷◌, ◌≡◌, arith, ◌++◌, bit_and, length, if◌then◌else◌,
}
use i_scsiinitiator.Kernel.Slots.{slot}
use i_scsiinitiator.Kernel.State.{
  Env, sent, received_header, received_segment, Piece, basic_header, header_digest, data_segment,
  data_digest, padding, Header, Incoming, HeaderRead, SegmentRead, Connection, Session, Hba,
  put_session, put_connection,
}
use i_scsiinitiator.Kernel.Activation.{einval, eagain, incremented}
use i_scsiinitiator.Kernel.Release.{handle_connection_timeout}

-- EIO; EWOULDBLOCK is EAGAIN
abbrev pub eio : ℕ
eio = 5

abbrev pub op_data_out : ℕ
op_data_out = 0x05

abbrev pub op_data_in : ℕ
op_data_in = 0x25

abbrev pub op_r2t : ℕ
op_r2t = 0x31

-- kiSCSIPDUImmediateDeliveryFlag
abbrev pub immediate_delivery_flag : ℕ
immediate_delivery_flag = 0x40

abbrev pub data_in_status_flag : ℕ
data_in_status_flag = 0x01

-- The reserved value of task tags, transfer tags and sequence numbers
abbrev pub reserved_tag : ℕ
reserved_tag = 0xffff_ffff

unfoldable pub has_bit : ℕ → ℕ → Bool
has_bit byte flag = not (bit_and byte flag == 0)

-- SetDataSegmentLength: the three bytes of the field, on a little-endian host
unfoldable pub set_data_segment_length : ℕ → List ℕ
set_data_segment_length len = len / 2 ^ 16 % 2 ^ 8 ∷ len / 2 ^ 8 % 2 ^ 8 ∷ len % 2 ^ 8 ∷ []

-- GetDataSegmentLength
unfoldable pub get_data_segment_length : List ℕ → ℕ
get_data_segment_length (a ∷ b ∷ c ∷ []) = a * 2 ^ 16 + b * 2 ^ 8 + c
get_data_segment_length _ = 0

-- paddingLen where it is not 4
unfoldable pub padding_length : ℕ → ℕ
padding_length len = (4 - len % 4) % 4

unfoldable pub padding_pieces : ℕ → List Piece
padding_pieces n = if n == 0 then [] else padding n ∷ []

unfoldable pub segment_pieces : Connection → List ℕ → List Piece
segment_pieces c segment =
    if length segment == 0
    then []
    else data_segment segment ∷ padding_pieces (padding_length (length segment))
      ++ (if c.use_data_digest then data_digest segment ∷ [] else [])

-- The iovec of SendPDU.
unfoldable pub pieces : Connection → Header → List ℕ → List Piece
pieces c header segment =
    basic_header header ∷ (if c.use_header_digest then header_digest header ∷ [] else [])
    ++ segment_pieces c segment

-- The command sequence number: a data-out PDU takes none, and one for immediate delivery does not
-- advance it.
unfoldable pub takes_cmd_sn : Header → Bool
takes_cmd_sn header = not (header.op_code == op_data_out)

unfoldable pub next_cmd_sn : Header → ℕ → ℕ
next_cmd_sn header cmd_sn =
    if takes_cmd_sn header && not (has_bit header.op_code immediate_delivery_flag)
    then incremented cmd_sn
    else cmd_sn

-- The header as it is sent: the numbers of the session and the connection, and the segment's length.
unfoldable pub completed_header : Session → Connection → Header → List ℕ → Header
completed_header s c header segment = record header {
  cmd_sn = if takes_cmd_sn header then s.cmd_sn else header.cmd_sn;
  exp_stat_sn = c.exp_stat_sn;
  data_segment_length = length segment % 2 ^ 24;
}

-- SendPDU with its session and connection
unfoldable pub send_by : Env → ℕ → ℕ → Session → Connection → Header → List ℕ → Hba → ℕ × Hba
send_by env sid cid s c header segment h =
    let error = env.send_error h.log c.socket in
    let h = put_session sid (some (record s { cmd_sn = next_cmd_sn header s.cmd_sn })) h in
    if error == 0
    then (
      0,
      record h {
        log = sent sid cid (pieces c (completed_header s c header segment) segment) ∷ h.log;
      },
    )
    else (error, handle_connection_timeout env sid cid h)

unfoldable pub send_at : Env → ℕ → ℕ → Session → Option Connection → Header → List ℕ → Hba → ℕ × Hba
send_at env sid cid s none header segment h = (einval, h)
send_at env sid cid s (some c) header segment h = send_by env sid cid s c header segment h

unfoldable pub send_in : Env → ℕ → ℕ → Option Session → Header → List ℕ → Hba → ℕ × Hba
send_in env sid cid none header segment h = (einval, h)
send_in env sid cid (some s) header segment h =
    send_at env sid cid s (slot s.connections cid) header segment h

-- SendPDU
unfoldable pub send_pdu : Env → ℕ → ℕ → Header → List ℕ → Hba → ℕ × Hba
send_pdu env sid cid header segment h = send_in env sid cid (slot h.sessions sid) header segment h

-- What RecvPDUHeader leaves: its result, the header, the adapter.
pub record Received (A : Type 0) : Type 0 where
  pub error : ℕ
  pub value : A
  pub hba : Hba

abbrev left : {A : Type 0} → ℕ → A → Hba → Received A
left error a h = record { error = error; value = a; hba = h }

-- The counters that a header moves; sequence numbers are compared as plain numbers.
unfoldable pub counted_session : Incoming → Session → Session
counted_session b s = record s {
  max_cmd_sn = if ltb s.max_cmd_sn b.max_cmd_sn then b.max_cmd_sn else s.max_cmd_sn;
  exp_cmd_sn = if ltb s.exp_cmd_sn b.exp_cmd_sn then b.exp_cmd_sn else s.exp_cmd_sn;
}

unfoldable pub counts_status : Incoming → Bool
counts_status b =
    not (b.op_code == op_r2t)
    && not (b.stat_sn == reserved_tag)
    && not (b.initiator_task_tag == reserved_tag)

unfoldable pub counted_connection : Incoming → Connection → Connection
counted_connection b c = record c {
  exp_stat_sn = if counts_status b then incremented c.exp_stat_sn else c.exp_stat_sn;
}

-- A socket error other than EWOULDBLOCK
unfoldable pub is_broken : ℕ → Bool
is_broken error = not (error == 0) && not (error == eagain)

unfoldable pub is_data_without_status : Incoming → Bool
is_data_without_status b = b.op_code == op_data_in && not (has_bit b.flags data_in_status_flag)

-- The header digest that was received: 0 where none is used, which then counts as none.
unfoldable pub fails_header_digest : Env → Connection → HeaderRead → Bool
fails_header_digest env c r =
    let digest = if c.use_header_digest then r.digest else 0 in
    not (digest == 0) && not (digest == env.header_crc r.header)

unfoldable pub recv_header_by :
    Env → ℕ → ℕ → Session → Connection → HeaderRead → Hba → Received Incoming
recv_header_by env sid cid s c r h =
    if is_broken r.error
    then left r.error r.header (handle_connection_timeout env sid cid h)
    else if ltb r.bytes 48
    then left eio r.header h
    else if fails_header_digest env c r
    then left eio r.header h
    else if is_data_without_status r.header
    then left 0 r.header h
    else left 0 r.header (
        put_connection sid cid (some (counted_connection r.header c)) (counted_session r.header s)
          h)

unfoldable pub recv_segment_by : Env → ℕ → ℕ → Connection → SegmentRead → Hba → Received (List ℕ)
recv_segment_by env sid cid c r h =
    if is_broken r.error
    then left r.error r.segment (handle_connection_timeout env sid cid h)
    else if c.use_data_digest && not (r.digest == env.segment_crc r.segment)
    then left eio r.segment h
    else left 0 r.segment h

unfoldable pub recv_header_at :
    Env → ℕ → ℕ → Session → Option Connection → Incoming → Hba → Received Incoming
recv_header_at env sid cid s none b h = left einval b h
recv_header_at env sid cid s (some c) b h =
    recv_header_by env sid cid s c (env.read_header h.log c.socket)
      (record h { log = received_header sid cid ∷ h.log })

unfoldable pub recv_header_in : Env → ℕ → ℕ → Option Session → Incoming → Hba → Received Incoming
recv_header_in env sid cid none b h = left einval b h
recv_header_in env sid cid (some s) b h = recv_header_at env sid cid s (slot s.connections cid) b h

-- RecvPDUHeader; `b` is what the caller's variable holds.
unfoldable pub recv_pdu_header : Env → ℕ → ℕ → Incoming → Hba → Received Incoming
recv_pdu_header env sid cid b h = recv_header_in env sid cid (slot h.sessions sid) b h

unfoldable pub recv_segment_at : Env → ℕ → ℕ → Option Connection → ℕ → Hba → Received (List ℕ)
recv_segment_at env sid cid none len h = left einval [] h
recv_segment_at env sid cid (some c) len h =
    recv_segment_by env sid cid c (env.read_segment h.log c.socket len)
      (record h { log = received_segment sid cid len ∷ h.log })

unfoldable pub recv_segment_in : Env → ℕ → ℕ → Option Session → ℕ → Hba → Received (List ℕ)
recv_segment_in env sid cid none len h = left einval [] h
recv_segment_in env sid cid (some s) len h =
    recv_segment_at env sid cid (slot s.connections cid) len h

-- RecvPDUData; the value is the buffer of the caller.
unfoldable pub recv_pdu_data : Env → ℕ → ℕ → ℕ → Hba → Received (List ℕ)
recv_pdu_data env sid cid len h = recv_segment_in env sid cid (slot h.sessions sid) len h

get-set_data_segment_length :
    (len : ℕ) → len < 2 ^ 24 → get_data_segment_length (set_data_segment_length len) ≡ len
unfolding get_data_segment_length set_data_segment_length
get-set_data_segment_length len fits = omega arith
