-- ===== src/Message/Channel.antt =====
-- From the fields of a sender to the values of a receiver: writes, `SendPacket`, the wire,
-- `ReceivePacket` and reads.
use dummy_client.Common.{
  ℕ, ◌^◌, ◌≤◌, ◌≡◌, ◌≢◌, ◌∙◌, sym, ap, arith, none, some, List, [], ◌++◌, map,
}
use dummy_client.Common.{Bool, true, false, if◌then◌else◌, length, take_all, Option}
use mathlib.Core.Path.{subst, subst₂}
use dummy_client.Common.Int.{ℤ, pos, FitsAt}
use dummy_client.Outcome.{Outcome, ok}
use dummy_client.Packet.State.{Cell, Session, M, ◌>>=◌, pure}
use dummy_client.Packet.Build.{Built, with_packet}
use dummy_client.Packet.Appends.{Appended}
use dummy_client.Os.{Os, ReadLaws, WriteLaws}
use dummy_client.Wire.{send_packet, receive_packet}
use dummy_client.Wire.Send.{after}
use dummy_client.Wire.Frame.{frame, frame_header, SentFrame, send_packet-SentFrame}
use dummy_client.Wire.Taken.{Taking, send_packet-takes}
use dummy_client.Wire.Deliver.{Prompt, Delivered, receive_packet-Delivered, true_run}
use dummy_client.Commands.{write_fields}
use dummy_client.Commands.Fields.{write_fields-Appended}
use dummy_client.Message.{Field, Slot, Value, write_field, read_message, message_bytes, AllCarry}
use dummy_client.Message.Written.{fields-AllWrite}
use dummy_client.Message.Back.{read_message-back}

module _ {N : Type 0} (os : Os N) where
  abbrev pub send_message : List Field → M N Bool
  send_message fields = write_fields (map write_field fields) >>= λ written.
      if written then send_packet os else pure false

  abbrev pub receive_message : List Slot → M N (Option (List Value))
  receive_message slots = receive_packet os >>= λ got. if got then read_message slots else pure none

-- A send that returned TRUE, with `out` behind what had been sent on the socket.
pub record Sent {N : Type 0} (sent : ℤ → N → List ℕ) (s : Session N) (out : List ℕ)
    (r : Outcome (Bool × Session N)) : Type 0 where
  pub session : Session N
  pub runs : r ≡ ok (true, session)
  pub sent_is : sent s.packet.client_sockfd session.net ≡ sent s.packet.client_sockfd s.net ++ out

-- A receive that gave the values, with `rest` left of the stream.
pub record Got {N : Type 0} (incoming : ℤ → N → List ℕ) (s : Session N) (values : List Value)
    (rest : List ℕ) (r : Outcome (Option (List Value) × Session N)) : Type 0 where
  pub session : Session N
  pub runs : r ≡ ok (some values, session)
  pub left : incoming s.packet.client_sockfd session.net ≡ rest

module _ {N : Type 0} (os : Os N) (sent : ℤ → N → List ℕ) (laws : WriteLaws os sent)
    (taking : Taking os) (s : Session N) (slack : List Cell) (h : Built s.packet [] slack)
    (category_set : s.packet.category ≢ pos 0) (command_set : s.packet.command ≢ pos 0)
    (fields : List Field) (small : length (message_bytes fields) ≤ 2 ^ 30) (w : N)
    (header_taken : os.write s.packet.client_sockfd
        (frame_header s.packet.category s.packet.command (length (message_bytes fields)))
        s.net
      ≡ (pos 10, w)) where
  written : Appended s [] (message_bytes fields) (write_fields (map write_field fields) s)
  written = write_fields-Appended s [] slack (fields-AllWrite fields) h (omega (arith, small))

  -- The packet behind the fields, and what `SendPacket` makes of it.
  abbrev filled : Session N
  filled = with_packet s written.packet

  abbrev out : List ℕ
  out = frame s.packet.category s.packet.command (message_bytes fields)

  filled_category : filled.packet.category ≢ pos 0
  filled_category e = category_set (sym written.head.category ∙ e)

  filled_command : filled.packet.command ≢ pos 0
  filled_command e = command_set (sym written.head.command ∙ e)

  filled-SentFrame : SentFrame os sent laws filled out (send_packet os filled)
  filled-SentFrame =
      subst₂
        (λ category command.
          SentFrame os sent laws filled (frame category command (message_bytes fields))
            (send_packet os filled))
        written.head.category written.head.command
        (send_packet-SentFrame os sent laws filled (message_bytes fields) written.slack
          written.built filled_category filled_command)

  filled_done : filled-SentFrame.done ≡ true
  filled_done =
      let (s', runs, _) =
        send_packet-takes os sent laws taking (λ n. Unit {0}) filled (message_bytes fields)
          written.slack w (λ xs n n' k e p. tt) tt written.built filled_category filled_command
          (rw (written.head.client_sockfd, written.head.category, written.head.command)
            header_taken) in
      true_run s' (after filled filled-SentFrame.net filled-SentFrame.trace) filled-SentFrame.done
        runs filled-SentFrame.runs

  message-Sent : Sent sent s out (send_message os fields s)
  message-Sent =
      let f : SentFrame os sent laws filled out (send_packet os filled) = filled-SentFrame in
      record {
        session = after filled f.net f.trace;
        runs = ground (arith, written.runs, f.runs, filled_done);
        sent_is =
            subst (λ fd. sent fd f.net ≡ sent fd s.net ++ out) written.head.client_sockfd
              (f.sent_is
                ∙ ap (λ xs. sent filled.packet.client_sockfd s.net ++ xs)
                    (take_all f.count out (omega (arith, f.whole filled_done))));
      }

module _ {N : Type 0} (os : Os N) (incoming : ℤ → N → List ℕ) (laws : ReadLaws os incoming)
    (prompt : Prompt os incoming) (s : Session N) (category command : ℤ)
    (category_fits : FitsAt (2 ^ 8) category) (command_fits : FitsAt (2 ^ 8) command)
    {fields : List Field} {slots : List Slot} {values : List Value}
    (carries : AllCarry fields slots values) (small : length (message_bytes fields) ≤ 2 ^ 30)
    (rest : List ℕ) (w : N)
    (arrives : incoming s.packet.client_sockfd s.net
      ≡ frame category command (message_bytes fields) ++ rest)
    (header_read : os.read s.packet.client_sockfd 10 s.net
      ≡ (some (frame_header category command (length (message_bytes fields))), w)) where
  message-Got : Got incoming s values rest (receive_message os slots s)
  message-Got =
      let d : Delivered incoming s.packet.client_sockfd category command (message_bytes fields) rest
          (receive_packet os s) =
        receive_packet-Delivered os incoming laws prompt s category command (message_bytes fields)
          rest w small arrives header_read category_fits command_fits in
      let (s', runs, quiet) =
        read_message-back (record { packet = d.packet; net = d.net; trace = d.trace }) carries
          d.holds in
      record {
        session = s';
        runs = ground (arith, d.runs, runs);
        left = ap (incoming s.packet.client_sockfd) quiet.0 ∙ d.left;
      }

-- Where the sender's socket takes a byte at least of what it is given and the header whole, and the
-- receiver's `read` gives some bytes while any are to come and the header whole: fields of at most
-- 2 ^ 30 bytes, each with a value that its kind can carry, are written to a fresh packet, with a
-- category and a command of one byte that are not 0, and sent whole as one frame. Where this frame
-- is next on the stream of the receiver, and it reads fields of the same kinds in this order, it gets
-- the value of each, finds nothing behind the last, and takes nothing behind the frame. A number can
-- be carried if it is in the range of its type, and a short also not negative; a text if it is not
-- longer than `maxsize`, shorter than the array that it is read into, and, with a short length,
-- shorter than 2 ^ 16.
pub message-conveyed :
    {N N' : Type 0} (os : Os N) (sent : ℤ → N → List ℕ) (writes : WriteLaws os sent)
    (taking : Taking os) (s : Session N) (slack : List Cell) (w : N) (os' : Os N')
    (incoming : ℤ → N' → List ℕ) (reads : ReadLaws os' incoming) (prompt : Prompt os' incoming)
    (r : Session N') (rest : List ℕ) (w' : N') {fields : List Field} {slots : List Slot}
    {values : List Value}
    → AllCarry fields slots values
    → length (message_bytes fields) ≤ 2 ^ 30
    → Built s.packet [] slack
    → s.packet.category ≢ pos 0
    → s.packet.command ≢ pos 0
    → FitsAt (2 ^ 8) s.packet.category
    → FitsAt (2 ^ 8) s.packet.command
    → os.write s.packet.client_sockfd
        (frame_header s.packet.category s.packet.command (length (message_bytes fields)))
        s.net
      ≡ (pos 10, w)
    → incoming r.packet.client_sockfd r.net
      ≡ frame s.packet.category s.packet.command (message_bytes fields) ++ rest
    → os'.read r.packet.client_sockfd 10 r.net
      ≡ (some (frame_header s.packet.category s.packet.command (length (message_bytes fields))), w')
    → Sent sent s
        (frame s.packet.category s.packet.command (message_bytes fields))
        (send_message os fields s)
      × Got incoming r values rest (receive_message os' slots r)
message-conveyed os sent writes taking s slack w os' incoming reads prompt r rest w'
      {fields = fields} carries small h ca co ca_fits co_fits header_taken arrives header_read =
    (
      message-Sent os sent writes taking s slack h ca co fields small w header_taken,
      message-Got os' incoming reads prompt r s.packet.category s.packet.command ca_fits co_fits
          carries small rest w' arrives header_read,
    )
