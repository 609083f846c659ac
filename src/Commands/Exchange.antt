-- ===== src/Commands/Exchange.antt =====
-- A whole exchange: the fields are written and sent, and the reply is awaited.
use dummy_client.Common.{ℕ, ◌^◌, ◌≤◌, ◌≡◌, ◌≢◌, ◌∙◌, refl, sym, ap, arith, Bool, true, false, inl}
use dummy_client.Common.{Option, none, some, List, [], ◌∷◌, ◌++◌, length, take}
use mathlib.Core.Path.{subst, subst₂}
use dummy_client.Common.Int.{ℤ, pos, pos_part}
use dummy_client.Outcome.{Outcome, ok}
use dummy_client.Trace.{Trace, closed}
use dummy_client.Trace.Logs.{OnlyLogs}
use dummy_client.Packet.State.{Packet, Session, M}
use dummy_client.Packet.Reads.{new_packet, init_command}
use dummy_client.Packet.Build.{Built}
use dummy_client.Packet.Appends.{Appended}
use dummy_client.Packet.Quiet.{quiet_run}
use dummy_client.Os.{Os, ReadLaws, WriteLaws}
use dummy_client.Wire.{send_packet}
use dummy_client.Wire.Frame.{SentFrame, frame, send_packet-SentFrame}
use dummy_client.Wire.Quiet.{send_packet-Quiet}
use dummy_client.Connect.{World, close_to_server}
use dummy_client.Connect.Count.{
  ClosedOnce, OnlyLogs-Unclosed, Unclosed-ClosedOnce, closed-ClosedOnce,
}
use dummy_client.Commands.{cat_request, write_fields, await_reply, exchange}
use dummy_client.Commands.Fields.{AllWrite, write_fields-Appended}
use dummy_client.Commands.Reply.{Settled}
use dummy_client.Commands.Answer.{Reply, await_reply-Settled}

-- The packet of a report before its first field.
abbrev pub report_packet : ℤ → ℤ → Packet
report_packet command sock = init_command cat_request command sock (new_packet (pos 0))

pub report_packet-Built : (command sock : ℤ) → Built (report_packet command sock) [] []
unfolding init_command new_packet
report_packet-Built command sock = record {
  is_data = refl;
  is_length = refl;
  is_pointer = refl;
  bounded = omega arith;
  roomy = inl refl;
}

module _ {N : Type 0} (os : Os N) (incoming sent : ℤ → N → List ℕ) (reads : ReadLaws os incoming)
    (writes : WriteLaws os sent) (command sock : ℤ) where
  -- A run that returned and closed the socket once: `count` bytes of `out` were sent, and a number
  -- comes back only if all were, and a reply with this number was accepted.
  pub record Exchanged (out : List ℕ) (w : World N) (r : Outcome (Option ℤ × World N))
      : Type 0 where
    pub value : Option ℤ
    pub world : World N
    pub runs : r ≡ ok (value, world)
    pub once : ClosedOnce sock w.trace world.trace
    pub count : ℕ
    pub middle : N
    pub within : count ≤ length out
    pub sent_is : sent sock middle ≡ sent sock w.net ++ take count out
    pub packet : Packet
    pub trace : Trace
    pub done : Bool
    pub sends :
        send_packet os (record { packet = packet; net = w.net; trace = w.trace })
        ≡ ok (done, record { packet = packet; net = middle; trace = trace })
    pub means :
        (errorcode : ℤ)
        → value ≡ some errorcode
        → (done ≡ true)
          × (count ≡ length out)
          × Reply os incoming reads sock middle world.net errorcode

  abbrev session_of : Packet → World N → Session N
  session_of p w = record { packet = p; net = w.net; trace = w.trace }

  module _ (fields : List (M N Bool)) (xs : List ℕ) (w : World N) (p : Packet)
      (written : write_fields fields (session_of (report_packet command sock) w)
        ≡ ok (true, session_of p w))
      (on_sock : p.client_sockfd ≡ sock) where
    sent_on :
        (out : List ℕ)
        (f : SentFrame os sent writes (session_of p w) out (send_packet os (session_of p w)))
        → sent sock f.net ≡ sent sock w.net ++ take f.count out
    sent_on out f =
        subst (λ fd. sent fd f.net ≡ sent fd w.net ++ take f.count out) on_sock f.sent_is

    sent_quiet :
        (out : List ℕ)
        (f : SentFrame os sent writes (session_of p w) out (send_packet os (session_of p w)))
        → OnlyLogs w.trace f.trace
    sent_quiet out f =
        quiet_run w.trace (send_packet os (session_of p w)) f.done _ f.runs
          ((send_packet-Quiet os).quiet (session_of p w))

    after_send :
        (out : List ℕ)
        (f : SentFrame os sent writes (session_of p w) out (send_packet os (session_of p w)))
        (done : Bool)
        → f.done ≡ done
        → Exchanged out w (exchange os command sock fields w)
    unfolding exchange close_to_server
    after_send out f false d = record {
      value = none;
      world = record { net = (os.close sock f.net).1; trace = closed sock ∷ f.trace };
      runs = ground (arith, written, f.runs, d);
      once =
          Unclosed-ClosedOnce (OnlyLogs-Unclosed (sent_quiet out f))
            (closed-ClosedOnce sock f.trace);
      count = f.count;
      middle = f.net;
      packet = p;
      trace = f.trace;
      done = f.done;
      sends = f.runs;
      within = f.within;
      sent_is = sent_on out f;
      means = λ k e. cc;
    }
    after_send out f true d =
        let w' : World N = record { net = f.net; trace = f.trace } in
        let a : Settled os sock (Reply os incoming reads sock f.net) w' (await_reply os sock w') =
          await_reply-Settled os incoming reads sock w' in
        record {
          value = a.value;
          world = a.world;
          runs = ground (arith, written, f.runs, d, a.runs);
          once = Unclosed-ClosedOnce (OnlyLogs-Unclosed (sent_quiet out f)) a.once;
          count = f.count;
          middle = f.net;
          packet = p;
          trace = f.trace;
          done = f.done;
          sends = f.runs;
          within = f.within;
          sent_is = sent_on out f;
          means = λ k e. (d, f.whole d, a.means k e);
        }

  -- Over a stream socket, an exchange with a command that is not 0 and fields that fit a packet
  -- returns and closes its socket once. What it has sent is a front of the frame of its fields, and
  -- if it returns a number, it has sent the whole frame and then received a reply that is accepted.
  pub exchange-Exchanged :
      (fields : List (M N Bool)) (xs : List ℕ) (w : World N)
      → command ≢ pos 0
      → AllWrite fields xs
      → length xs ≤ 2 ^ 30
      → Exchanged (frame cat_request command xs) w (exchange os command sock fields w)
  unfolding init_command
  exchange-Exchanged fields xs w proper ws small =
      let s : Session N = session_of (report_packet command sock) w in
      let a : Appended s [] xs (write_fields fields s) =
        write_fields-Appended s [] [] ws (report_packet-Built command sock) (omega arith) in
      let f : SentFrame os sent writes (session_of a.packet w) (frame cat_request command xs)
          (send_packet os (session_of a.packet w)) =
        subst₂
          (λ category c.
            SentFrame os sent writes (session_of a.packet w) (frame category c xs)
              (send_packet os (session_of a.packet w)))
          a.head.category a.head.command
          (send_packet-SentFrame os sent writes (session_of a.packet w) xs a.slack a.built
            (λ e. absurd (omega (arith, ap pos_part (sym a.head.category ∙ e))))
            (λ e. proper (sym a.head.command ∙ e))) in
      after_send fields xs w a.packet a.runs a.head.client_sockfd (frame cat_request command xs) f
        f.done refl
