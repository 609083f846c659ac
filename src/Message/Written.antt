-- ===== src/Message/Written.antt =====
-- A message is written to a packet.
use dummy_client.Common.{arith, List, [], ◌∷◌, map}
use dummy_client.Packet.Writes.{strlen}
use dummy_client.Packet.Appends.{
  write_tiny_int-Appended, write_short_int-Appended, write_big_int-Appended,
}
use dummy_client.Packet.Strings.{write_short_string-Appended}
use dummy_client.Commands.Fields.{
  Writes, AllWrite, nothing, also, write_string-Writes, write_int-Writes,
}
use dummy_client.Message.{
  Field, tiny_field, short_field, int_field, big_field, short_text_field, text_field, write_field,
  field_bytes, message_bytes,
}

field-Writes : {N : Type 0} (field : Field) → Writes {N = N} (field_bytes field) (write_field field)
unfolding strlen
field-Writes (tiny_field z) = record {
  appends = λ s bs slack h small. write_tiny_int-Appended s bs slack h z (omega arith);
}
field-Writes (short_field z) = record {
  appends = λ s bs slack h small. write_short_int-Appended s bs slack h z (omega arith);
}
field-Writes (int_field z) = write_int-Writes z
field-Writes (big_field z) = record {
  appends = λ s bs slack h small. write_big_int-Appended s bs slack h z (omega arith);
}
field-Writes (short_text_field text) = record {
  appends = λ s bs slack h small. write_short_string-Appended s bs slack h text (omega arith);
}
field-Writes (text_field text) = write_string-Writes text

pub fields-AllWrite :
    {N : Type 0} (fields : List Field)
    → AllWrite {N = N} (map write_field fields) (message_bytes fields)
unfolding message_bytes
fields-AllWrite [] = nothing
fields-AllWrite (field ∷ fields) = also (field-Writes field) (fields-AllWrite fields)
