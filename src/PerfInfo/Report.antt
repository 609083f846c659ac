-- ===== src/PerfInfo/Report.antt =====
-- The exchange of CPerfInfo returns, and leaves its socket open.
use dummy_client.Common.{
  ℕ, ◌^◌, ◌≤◌, ◌<◌, ◌≡◌, ◌≢◌, ◌∙◌, refl, sym, ap, arith, Bool, true, false, inl,
}
use dummy_client.Common.{none, some, List, [], ◌∷◌, length}
use dummy_client.Common.Int.{ℤ, pos, pos_part, signed32}
use dummy_client.Bytes.{load32, swap32}
use dummy_client.Outcome.{Outcome, ok}
use dummy_client.Trace.{Trace}
use dummy_client.Trace.Logs.{OnlyLogs, OnlyLogs-trans, none_more, one_more}
use dummy_client.Packet.State.{Packet, Session, M}
use dummy_client.Packet.Reads.{new_packet, init_command_log, init_socket_log, read_int}
use dummy_client.Packet.Build.{Built}
use dummy_client.Packet.Appends.{Appended}
use dummy_client.Packet.Reading.{Holds, moved, with_error, read_int-Holds, read_int-short}
use dummy_client.Packet.Quiet.{quiet_run}
use dummy_client.Os.{Os, ReadLaws, WriteLaws, SelectLaws, Descriptors, Usable, in_set}
use dummy_client.Common.{inr}
use dummy_client.Common.Int.{negsuc}
use dummy_client.Packet.State.{Cell}
use dummy_client.Wire.Frame.{frame_header, send_packet-fails}
use dummy_client.Wire.{send_packet, receive_packet_select}
use dummy_client.Wire.Frame.{SentFrame, frame, send_packet-SentFrame}
use dummy_client.Wire.Body.{Returned}
use dummy_client.Wire.Select.{LooseStart, receive_packet_select-Returned}
use dummy_client.Wire.Quiet.{send_packet-Quiet, receive_packet_select-Quiet}
use dummy_client.Connect.{World, on}
use dummy_client.Commands.{cat_request, write_fields}
use dummy_client.Commands.Fields.{AllWrite, write_fields-Appended}
use dummy_client.PerfInfo.{report}

abbrev report_packet : ℤ → ℤ → Packet
report_packet command sock = init_command_log cat_request command sock (pos 0) (new_packet (pos 0))

report_packet-Built : (command sock : ℤ) → Built (report_packet command sock) [] []
unfolding init_command_log new_packet
report_packet-Built command sock = record {
  is_data = refl;
  is_length = refl;
  is_pointer = refl;
  bounded = omega arith;
  roomy = inl refl;
}

abbrev session_of : {N : Type 0} → Packet → World N → Session N
session_of p w = record { packet = p; net = w.net; trace = w.trace }

-- A run that returned, and only logged.
pub record Logged {N A : Type 0} (w : World N) (r : Outcome (A × World N)) : Type 0 where
  pub value : A
  pub world : World N
  pub runs : r ≡ ok (value, world)
  pub quiet : OnlyLogs w.trace world.trace

module _ {N : Type 0} (w : World N) (p : Packet) where
  number_short : (body : List ℕ) → Holds p [] body → length body < 4 → Logged w (on p read_int w)
  number_short body h short =
      let s : Session N = with_error (session_of p w) "CPacket::CheckDataExists" (pos 4) in
      record {
        value = (none, p);
        world = record { net = w.net; trace = s.trace };
        runs = ground (arith, read_int-short (session_of p w) [] body h short);
        quiet = one_more _ none_more;
      }

  -- Reading a number from any received packet returns.
  read_number : (body : List ℕ) → Holds p [] body → Logged w (on p read_int w)
  read_number [] h = number_short [] h (omega arith)
  read_number (a ∷ []) h = number_short (a ∷ []) h (omega arith)
  read_number (a ∷ b ∷ []) h = number_short (a ∷ b ∷ []) h (omega arith)
  read_number (a ∷ b ∷ c ∷ []) h = number_short (a ∷ b ∷ c ∷ []) h (omega arith)
  read_number (a ∷ b ∷ c ∷ d ∷ rest) h = record {
    value =
        (some (signed32 (swap32 (load32 (a ∷ b ∷ c ∷ d ∷ [])))), (moved (session_of p w) 4).packet);
    world = w;
    runs = ground (arith, read_int-Holds (session_of p w) [] rest a b c d h);
    quiet = none_more;
  }

module _ {N : Type 0} (os : Os N) (command sock : ℤ) (fields : List (M N Bool)) (w : World N)
    (p : Packet)
    (written : write_fields fields (session_of (report_packet command sock) w)
      ≡ ok (true, session_of p w))
    (net : N) (trace : Trace) (quiet : OnlyLogs w.trace trace) where
  abbrev reply_session : Session N
  reply_session = record {
    packet = init_socket_log sock (pos 0) (new_packet (pos 0));
    net = net;
    trace = trace;
  }

  not_sent :
      send_packet os (session_of p w) ≡ ok (false, record { packet = p; net = net; trace = trace })
      → Logged w (report os command sock fields w)
  unfolding report
  not_sent e = record {
    value = none;
    world = record { net = net; trace = trace };
    runs = ground (arith, written, e);
    quiet = quiet;
  }

  module _
      (e : send_packet os (session_of p w)
        ≡ ok (true, record { packet = p; net = net; trace = trace })) where
    received_by :
        (done : Bool) (q : Packet) (net' : N) (trace' : Trace)
        → receive_packet_select os reply_session
          ≡ ok (done, record { packet = q; net = net'; trace = trace' })
        → OnlyLogs trace trace'
        → (done ≡ true → (body : List ℕ) × Holds q [] body)
        → Logged w (report os command sock fields w)
    unfolding report
    received_by false q net' trace' f quiet' held = record {
      value = none;
      world = record { net = net'; trace = trace' };
      runs = ground (arith, written, e, f);
      quiet = OnlyLogs-trans quiet quiet';
    }
    received_by true q net' trace' f quiet' held =
        let (body, h) = held refl in
        let w' : World N = record { net = net'; trace = trace' } in
        let n : Logged w' (on q read_int w') = read_number w' q body h in
        record {
          value = n.value.0;
          world = n.world;
          runs = ground (arith, written, e, f, n.runs);
          quiet = OnlyLogs-trans quiet (OnlyLogs-trans quiet' n.quiet);
        }

some_category : (p : Packet) → p.category ≡ cat_request → p.category ≢ pos 0
some_category p e f = absurd (omega (arith, ap pos_part (sym e ∙ f)))

not_both :
    {A : Type 0} {r : Outcome (Bool × A)} {done : Bool} {a b : A}
    → r ≡ ok (done, a)
    → r ≡ ok (false, b)
    → ¬ (done ≡ true)
not_both e f d = cc

module _ {N : Type 0} (os : Os N) (incoming sent : ℤ → N → List ℕ) (reads : ReadLaws os incoming)
    (writes : WriteLaws os sent) (selects : SelectLaws os incoming) (descriptors : Descriptors os)
    (command sock : ℤ) (fields : List (M N Bool)) where
  sent_by :
      (w : World N) (p : Packet)
      (written : write_fields fields (session_of (report_packet command sock) w)
        ≡ ok (true, session_of p w))
      (done : Bool) (net : N) (trace : Trace)
      → send_packet os (session_of p w) ≡ ok (done, record { packet = p; net = net; trace = trace })
      → OnlyLogs w.trace trace
      → (done ≡ true → in_set sock ≡ true)
      → Logged w (report os command sock fields w)
  unfolding init_socket_log
  sent_by w p written false net trace e quiet placed =
      not_sent os command sock fields w p written net trace quiet e
  sent_by w p written true net trace e quiet placed =
      let s : Session N = reply_session os command sock fields w p written net trace quiet in
      let r : Returned os incoming reads LooseStart s.packet.client_sockfd
          (incoming s.packet.client_sockfd s.net) (receive_packet_select os s) =
        receive_packet_select-Returned os incoming reads selects s (placed refl) in
      received_by os command sock fields w p written net trace quiet e r.done r.packet r.net r.trace
        r.runs
        (quiet_run trace (receive_packet_select os s) r.done _ r.runs
          ((receive_packet_select-Quiet os).quiet s))
        (λ d. ((r.good d).body, (r.good d).holds))

  -- Nothing is sent to -1.
  sent_placed :
      (s : Session N) (bs : List ℕ) (slack : List Cell) (done : Bool) (s' : Session N)
      → Built s.packet bs slack
      → s.packet.category ≢ pos 0
      → s.packet.command ≢ pos 0
      → s.packet.client_sockfd ≡ sock
      → Usable sock
      → send_packet os s ≡ ok (done, s')
      → done ≡ true
      → in_set sock ≡ true
  sent_placed s bs slack done s' h ca co on (inl placed) runs d = placed
  sent_placed s bs slack done s' h ca co on (inr none_open) runs d =
      let (n', fails) =
        descriptors.no_write (frame_header s.packet.category s.packet.command (length bs)) s.net in
      let (t, stops) =
        send_packet-fails os sent writes s bs slack (negsuc 0) n' h ca co (rw (on, none_open) fails)
          (λ e. cc) in
      absurd (not_both runs stops d)

  -- Over stream sockets, the exchange with a command that is not 0 and fields that fit a packet
  -- returns, and only logs.
  pub report-Logged :
      (xs : List ℕ) (w : World N)
      → command ≢ pos 0
      → AllWrite fields xs
      → length xs ≤ 2 ^ 30
      → Usable sock
      → Logged w (report os command sock fields w)
  unfolding init_command_log
  report-Logged xs w proper ws small usable =
      let s : Session N = session_of (report_packet command sock) w in
      let a : Appended s [] xs (write_fields fields s) =
        write_fields-Appended s [] [] ws (report_packet-Built command sock) (omega arith) in
      let f : SentFrame os sent writes (session_of a.packet w)
          (frame a.packet.category a.packet.command xs) (send_packet os (session_of a.packet w)) =
        send_packet-SentFrame os sent writes (session_of a.packet w) xs a.slack a.built
          (some_category a.packet a.head.category) (λ e. proper (sym a.head.command ∙ e)) in
      sent_by w a.packet a.runs f.done f.net f.trace f.runs
        (quiet_run w.trace (send_packet os (session_of a.packet w)) f.done _ f.runs
          ((send_packet-Quiet os).quiet (session_of a.packet w)))
        (sent_placed (session_of a.packet w) xs a.slack f.done _ a.built
          (some_category a.packet a.head.category) (λ e. proper (sym a.head.command ∙ e))
          a.head.client_sockfd usable f.runs)
