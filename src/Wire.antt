-- ===== src/Wire.antt =====
-- `SendPacket`, `ReceivePacket` and `ReceivePacket_Select` of Packet.cpp over the system calls.
pub mod Receive
pub mod Quiet
pub mod Filled
pub mod Body
pub mod Accept
pub mod Deliver
pub mod Taken
pub mod Select
pub mod Send
pub mod Frame
pub mod Tests
use Prim.Native.String.{String}
use dummy_client.Common.{ℕ, zero, suc, ◌+◌, ◌-◌, ◌%◌, ◌^◌, Option, none, some, List, [], ◌∷◌, ◌++◌}
use dummy_client.Common.{
  Bool, true, false, ◌||◌, not, if◌then◌else◌, ◌==◌, ltb, length, drop, replicate,
}
use dummy_client.Common.Int.{
  ℤ, pos, negsuc, pos_part, ltb_ℤ, eqb_ℤ, sub_int, bits8, signed8, signed32,
}
use dummy_client.Bytes.{load32, store32, swap32}
use dummy_client.Trace.{error, info, no_param, int_param, text_param}
use dummy_client.Outcome.{Outcome, ok, fault, out_of_bounds, out_of_fuel}
use dummy_client.Packet.State.{
  Cell, Packet, Session, M, ◌>>=◌, ◌>>◌, pure, lift, this, set_this, advance, write_log, cells,
  load,
}
use dummy_client.Packet.Reads.{first_byte}
use dummy_client.Packet.Writes.{poke}
use dummy_client.Os.{Os, in_set}

abbrev pub protocol_ver : ℕ
protocol_ver = 1

abbrev pub packet_size : ℕ
packet_size = 4096

abbrev pub byte_at : ℕ → List ℕ → ℕ
byte_at i h = first_byte (drop i h)

-- The result of `read` as the C++ variable `nread`.
abbrev pub count_read : Option (List ℕ) → ℤ
count_read none = negsuc 0
count_read (some bs) = pos (length bs)

abbrev pub bytes_read : Option (List ℕ) → List ℕ
bytes_read none = []
bytes_read (some bs) = bs

-- An error line with a text, and FALSE.
abbrev pub fail : {N : Type 0} → String → String → M N Bool
fail name text = write_log error name (text_param text) >> pure false

-- `m_nDataLength = (int)packetlength - 10`.
unfoldable pub body_length : List ℕ → ℤ
body_length h = sub_int (signed32 (swap32 (load32 (drop 3 h)))) (pos 10)

module _ {N : Type 0} (os : Os N) where
  unfoldable pub read_some : ℕ → M N (Option (List ℕ))
  read_some n s =
      let (got, w) = os.read s.packet.client_sockfd n s.net in ok (got, record s { net = w })

  unfoldable pub write_some : List ℕ → M N ℤ
  write_some bs s =
      let (nsend, w) = os.write s.packet.client_sockfd bs s.net in ok (nsend, record s { net = w })

  -- One `read` of the body, to `m_strData + m_nDataPointer`: whether the loop goes on.
  unfoldable pub receive_some : String → M N Bool
  receive_some name = do
    p ← this
    got ← read_some (pos_part p.data_length - p.data_pointer)
    if ltb_ℤ (count_read got) (pos 1)
        then fail name "read()"
        else poke (bytes_read got) >> (advance (length (bytes_read got)) >> pure true)

  -- `while (m_nDataPointer < m_nDataLength)`, on fuel.
  unfoldable pub receive_loop : String → ℕ → M N Bool
  receive_loop name zero = lift (fault out_of_fuel)
  receive_loop name (suc fuel) = this >>= λ p. elim (ltb_ℤ (pos p.data_pointer) p.data_length) [
    | true ↦ receive_some name >>= λ more. elim more [
      | true ↦ receive_loop name fuel
      | false ↦ pure false
    ]
    | false ↦ pure true
  ]

  -- `m_strData = new char[m_nDataLength]`, the loop, and the pointer back to 0. Every round
  -- reads a byte at least, so as many rounds as bytes and the last test are enough.
  unfoldable pub receive_data : String → M N Bool → M N Bool
  receive_data name report = do
    p ← this
    set_this
        (record p { str_data = some (replicate (pos_part p.data_length) none); data_pointer = 0 })
    whole ← receive_loop name (suc (pos_part p.data_length))
    if whole then report else pure false

  -- The fields of the header, and the test of the length.
  unfoldable pub receive_body : String → M N Bool → List ℕ → M N Bool
  receive_body name report header = do
    p ← this
    set_this (record p {
      category = signed8 (byte_at 7 header);
      command = signed8 (byte_at 8 header);
      data_length = body_length header;
    })
    if ltb_ℤ (body_length header) (pos 0)
        then fail name "length 체크 오류"
        else receive_data name report

  -- `m_nDataPointer = 0; return TRUE;`
  unfoldable pub rewind : M N Bool
  rewind = do p ← this; set_this (record p { data_pointer = 0 }); pure true

  -- The last lines of `ReceivePacket` log the command always.
  unfoldable pub report_always : M N Bool
  report_always = do p ← this; write_log info "CPacket::ReceivePacket" (int_param p.command); rewind

  unfoldable pub receive_header : List ℕ → M N Bool
  receive_header header =
      if not (byte_at 0 header == 0xff) || not (byte_at 1 header == 0xff)
      then fail "CPacket::ReceivePacket" "header 체크 오류"
      else if not (byte_at 2 header == protocol_ver)
      then fail "CPacket::ReceivePacket" "version 체크 오류"
      else receive_body "CPacket::ReceivePacket" report_always header

  unfoldable pub receive_packet : M N Bool
  receive_packet = do
    got ← read_some 10
    if not (eqb_ℤ (count_read got) (pos 10))
        then fail "CPacket::ReceivePacket" "header read()"
        else receive_header (bytes_read got)

  -- `ReceivePacket_Select` logs the command only if `m_logflag` is set.
  unfoldable pub report_flagged : M N Bool
  report_flagged = do
    p ← this
    if eqb_ℤ p.logflag (pos 0)
        then rewind
        else write_log info "CPacket::ReceivePacket_Select()" (int_param p.command) >> rewind

  -- A wrong start of the header is logged here, and the packet is received all the same.
  unfoldable pub select_header : List ℕ → M N Bool
  select_header header = do
    p ← this
    if not (byte_at 0 header == 0xff) || not (byte_at 1 header == 0xff)
        then write_log error "CPacket::ReceivePacket_Select" (text_param "header 체크 오류")
        else pure tt
    if not (byte_at 2 header == protocol_ver)
        then fail "CPacket::ReceivePacket_Select()" "version 체크 오류"
        else receive_body "CPacket::ReceivePacket_Select()" report_flagged header

  unfoldable pub call_select : ℕ → M N ℤ
  call_select seconds s =
      let (result, w) = os.select s.packet.client_sockfd seconds s.net in
      ok (result, record s { net = w })

  -- `FD_SET` writes outside of the set for a descriptor that has no place in it.
  unfoldable pub wait_readable : ℕ → M N ℤ
  wait_readable seconds = do
    p ← this
    if in_set p.client_sockfd then call_select seconds else lift (fault out_of_bounds)

  unfoldable pub select_read : M N Bool
  select_read = do
    got ← read_some 10
    if not (eqb_ℤ (count_read got) (pos 10))
        then fail "CPacket::ReceivePacket_Select()" "header read()"
        else select_header (bytes_read got)

  unfoldable pub receive_packet_select : M N Bool
  receive_packet_select = do
    result ← wait_readable 2
    if eqb_ℤ result (pos 0)
        then write_log error "CPacket::ReceivePacket_Select() - RECEIVE TIMEOUT" no_param
          >> pure false
        else if eqb_ℤ result (negsuc 0)
        then write_log error "CPacket::ReceivePacket_Select() - SOCKET CLOSE" no_param >> pure false
        else select_read

-- The ten bytes that `SendPacket` puts before the data.
unfoldable pub send_header : Packet → List ℕ
send_header p =
    0xff ∷ 0xff ∷ protocol_ver ∷ store32 (swap32 ((p.data_pointer + 10) % 2 ^ 32))
    ++ (bits8 p.category ∷ bits8 p.command ∷ 0 ∷ [])

-- The size of the next chunk: `PACKET_SIZE`, or what is left.
unfoldable pub chunk_size : ℕ → ℕ
chunk_size left = if ltb packet_size left then packet_size else left

module _ {N : Type 0} (os : Os N) where
  -- One `write` of the loop, of `PACKET_SIZE` bytes or what is left: the bytes that it took, or
  -- `none` where the method returns FALSE.
  unfoldable pub send_some : ℕ → M N (Option ℕ)
  send_some totalsend = do
    p ← this
    let left = p.data_pointer - totalsend
    chunk ← lift (load totalsend (chunk_size left) (cells p.str_data))
    nsend ← write_some os chunk
    if ltb_ℤ nsend (pos 1)
        then write_log error "CPacket::SendPacket" (text_param "write()") >> pure none
        else pure (some (pos_part nsend))

  -- `while (totalsend < m_nDataPointer)`, on fuel.
  unfoldable pub send_loop : ℕ → ℕ → M N Bool
  send_loop zero totalsend = lift (fault out_of_fuel)
  send_loop (suc fuel) totalsend = this >>= λ p. elim (ltb totalsend p.data_pointer) [
    | true ↦ send_some totalsend >>= λ nsend. elim nsend [
      | some k ↦ send_loop fuel (totalsend + k)
      | none ↦ pure false
    ]
    | false ↦ pure true
  ]

  unfoldable pub send_frame : M N Bool
  send_frame = do
    p ← this
    nsend ← write_some os (send_header p)
    if not (eqb_ℤ nsend (pos 10))
        then write_log error "CPacket::SendPacket header length " (int_param nsend)
          >> fail "CPacket::SendPacket" "header write()"
        else send_loop (suc p.data_pointer) 0

  unfoldable pub send_packet : M N Bool
  send_packet = do
    p ← this
    if eqb_ℤ p.category (pos 0) || eqb_ℤ p.command (pos 0) then pure false else send_frame
