-- ===== src/Message/Tests.antt =====
-- A message through a pipe.
use dummy_client.Common.{refl, ap, arith, none, List, [], ◌∷◌, ◌++◌, replicate}
use dummy_client.Common.Int.{pos, negsuc, pos_part}
use dummy_client.Packet.State.{Session}
use dummy_client.Packet.Reads.{new_packet, init_socket, init_command}
use dummy_client.Packet.Writes.{until_nul, strlen}
use dummy_client.Packet.Texts.{text_over}
use dummy_client.Wire.Frame.{frame}
use dummy_client.Wire.Tests.{
  Pipe, pipe_os, pipe_sent, pipe_incoming, pipe-ReadLaws, pipe-WriteLaws, pipe-Prompt, pipe-Taking,
  to_send, to_send-Built,
}
use dummy_client.Message.{
  Field, tiny_field, big_field, text_field, Slot, tiny_slot, big_slot, text_slot, Value, a_number,
  an_array, AllCarry, no_more, one_more, tiny_carries, big_carries, text_carries, message_bytes,
}
use dummy_client.Message.Channel.{send_message, receive_message, Sent, Got, message-conveyed}

-- A byte, a long number and a text.
abbrev fields : List Field
fields = tiny_field (pos 5) ∷ big_field (negsuc 1) ∷ text_field (b'h' ∷ b'i' ∷ []) ∷ []

abbrev slots : List Slot
slots = tiny_slot ∷ big_slot ∷ text_slot (replicate 4 none) 3 ∷ []

abbrev values : List Value
values =
    a_number (pos 5)
    ∷ a_number (negsuc 1)
    ∷ an_array (text_over (until_nul (b'h' ∷ b'i' ∷ [])) (replicate 4 none))
    ∷ []

fields_carry : AllCarry fields slots values
unfolding strlen until_nul
fields_carry = one_more (tiny_carries (pos 5) (omega arith)) (
    one_more (big_carries (negsuc 1) (omega arith)) (
      one_more
        (text_carries (b'h' ∷ b'i' ∷ []) (replicate 4 none) 3 (omega arith) (omega arith)
          (omega arith))
        no_more))

abbrev peer : Session Pipe
peer = record {
  packet = init_socket (pos 3) (new_packet (pos 0));
  net = record { inbox = frame (pos 1) (pos 4) (message_bytes fields) ++ (7 ∷ []); outbox = [] };
  trace = [];
}

message-conveyed_example :
    Sent pipe_sent to_send
      (frame to_send.packet.category to_send.packet.command (message_bytes fields))
      (send_message pipe_os fields to_send)
    × Got pipe_incoming peer values (7 ∷ []) (receive_message pipe_os slots peer)
unfolding init_command init_socket new_packet message_bytes until_nul strlen
message-conveyed_example =
    message-conveyed pipe_os pipe_sent pipe-WriteLaws pipe-Taking to_send [] _ pipe_os pipe_incoming
      pipe-ReadLaws pipe-Prompt peer (7 ∷ []) _ fields_carry (omega arith) to_send-Built
      (λ e. absurd (omega (arith, ap pos_part e))) (λ e. absurd (omega (arith, ap pos_part e)))
      (omega arith) (omega arith) refl refl refl
