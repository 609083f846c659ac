-- ===== src/Commands/Answer.antt =====
-- Waiting for the reply to a report, from the empty packet to the return.
use dummy_client.Common.{ℕ, ◌≡◌, ◌≢◌, refl, ap, arith, Bool, true, false, Bool-cases, inl, inr}
use dummy_client.Common.{Option, none, some, List, ◌∷◌, ◌++◌, length}
use mathlib.Core.Path.{subst}
use dummy_client.Common.Int.{ℤ, pos, eqb_ℤ}
use dummy_client.Outcome.{Outcome, ok}
use dummy_client.Trace.{Trace, closed}
use dummy_client.Trace.Logs.{OnlyLogs}
use dummy_client.Packet.State.{Packet, Session}
use dummy_client.Packet.Reads.{new_packet, init_socket}
use dummy_client.Packet.Quiet.{quiet_run}
use dummy_client.Os.{Os, ReadLaws}
use dummy_client.Wire.{receive_packet, body_length}
use dummy_client.Wire.Body.{Accepts, Returned}
use dummy_client.Wire.Accept.{StrictStart, receive_packet-Returned}
use dummy_client.Wire.Quiet.{receive_packet-Quiet}
use dummy_client.Connect.{World, close_to_server}
use dummy_client.Connect.Count.{
  ClosedOnce, OnlyLogs-Unclosed, Unclosed-ClosedOnce, closed-ClosedOnce,
}
use dummy_client.Commands.{give_up, judge, read_reply, await_reply, err_failed}
use dummy_client.Commands.Reply.{Settled, Number, Read, refused, number, read_reply-Read}

module _ {N : Type 0} (os : Os N) (incoming : ℤ → N → List ℕ) (laws : ReadLaws os incoming)
    (sock : ℤ) where
  -- A reply that lets a report return TRUE: a whole frame whose data is one number, which is not
  -- `ERR_FAILED`. `ReceivePacket` read it in the network `before`, and the close behind it left `final`.
  pub record Reply (before final : N) (errorcode : ℤ) : Type 0 where
    pub start_trace : Trace
    pub packet : Packet
    pub trace : Trace
    pub header : List ℕ
    pub body : List ℕ
    pub received : N
    pub receives :
        receive_packet os (record {
          packet = init_socket sock (new_packet (pos 0));
          net = before;
          trace = start_trace;
        })
        ≡ ok (true, record { packet = packet; net = received; trace = trace })
    pub closes_to : final ≡ (os.close sock received).1
    pub consumed : incoming sock before ≡ header ++ (body ++ incoming sock received)
    pub ten : length header ≡ 10
    pub starts : StrictStart header
    pub length_is : body_length header ≡ pos (length body)
    pub is_number : Number os sock body errorcode
    pub accepted : errorcode ≢ err_failed

  abbrev fresh : World N → Session N
  fresh w = record { packet = init_socket sock (new_packet (pos 0)); net = w.net; trace = w.trace }

  some-injective : (a b : ℤ) → ◌≡◌ {A = Option ℤ} (some a) (some b) → a ≡ b
  some-injective a b e = cc

  not_failed : (errorcode : ℤ) → eqb_ℤ errorcode err_failed ≡ false → errorcode ≢ err_failed
  not_failed errorcode e failed =
      let same : eqb_ℤ errorcode err_failed ≡ eqb_ℤ err_failed err_failed =
        ap (λ z. eqb_ℤ z err_failed) failed in
      absurd (cc)

  -- The world behind a receive, and behind the close that follows.
  abbrev behind : N → Trace → World N
  behind net trace = record { net = net; trace = trace }

  abbrev closed_behind : N → Trace → World N
  closed_behind net trace = behind (os.close sock net).1 (closed sock ∷ trace)

  module _ (w : World N) (net : N) (trace : Trace) (quiet : OnlyLogs w.trace trace) where
    closed_once : ClosedOnce sock w.trace (closed sock ∷ trace)
    closed_once = Unclosed-ClosedOnce (OnlyLogs-Unclosed quiet) (closed-ClosedOnce sock trace)

    no_reply :
        {good : N → ℤ → Type 0} {r : Outcome (Option ℤ × World N)} (w' : World N)
        → r ≡ ok (none, w')
        → ClosedOnce sock w.trace w'.trace
        → Settled os sock good w r
    no_reply w' e once = record {
      value = none;
      world = w';
      runs = e;
      once = once;
      means = λ k p. cc;
    }

    not_received :
        (p : Packet)
        → receive_packet os (fresh w) ≡ ok (false, record { packet = p; net = net; trace = trace })
        → Settled os sock (Reply w.net) w (await_reply os sock w)
    unfolding await_reply close_to_server
    not_received p e = no_reply (closed_behind net trace) (ground (arith, e)) closed_once

    module _ (p : Packet)
        (e : receive_packet os (fresh w)
          ≡ ok (true, record { packet = p; net = net; trace = trace })) where
      refused_by :
          (w' : World N)
          → read_reply os sock p (behind net trace) ≡ ok (none, w')
          → ClosedOnce sock trace w'.trace
          → Settled os sock (Reply w.net) w (await_reply os sock w)
      unfolding await_reply
      refused_by w' read once =
          no_reply w' (ground (arith, e, read)) (Unclosed-ClosedOnce (OnlyLogs-Unclosed quiet) once)

      judged_by :
          (a : Accepts os incoming laws StrictStart sock (incoming sock w.net) p net)
          → (errorcode : ℤ)
          → read_reply os sock p (behind net trace) ≡ ok (some errorcode, behind net trace)
          → Number os sock a.body errorcode
          → Settled os sock (Reply w.net) w (await_reply os sock w)
      unfolding await_reply judge give_up close_to_server
      judged_by a errorcode read is_number = elim (Bool-cases (eqb_ℤ errorcode err_failed)) [
        | inl bad ↦ no_reply (closed_behind net trace) (ground (arith, e, read, bad)) closed_once
        | inr good ↦ record {
          value = some errorcode;
          world = closed_behind net trace;
          runs = ground (arith, e, read, good);
          once = closed_once;
          means = λ k same.
              subst (Reply w.net (os.close sock net).1) (some-injective errorcode k same) (record {
                start_trace = w.trace;
                packet = p;
                trace = trace;
                receives = e;
                closes_to = refl;
                header = a.header;
                body = a.body;
                received = net;
                consumed = a.consumed;
                ten = a.ten;
                starts = a.starts;
                length_is = a.length_is;
                is_number = is_number;
                accepted = not_failed errorcode good;
              });
        }
      ]

      once_taken :
          (a : Accepts os incoming laws StrictStart sock (incoming sock w.net) p net)
          → Read os sock a.body (behind net trace) (read_reply os sock p (behind net trace))
          → Settled os sock (Reply w.net) w (await_reply os sock w)
      once_taken a (refused w' read once) = refused_by w' read once
      once_taken a (number errorcode read n) = judged_by a errorcode read n

  received_by :
      (w : World N) (done : Bool) (p : Packet) (net : N) (trace : Trace)
      → receive_packet os (fresh w) ≡ ok (done, record { packet = p; net = net; trace = trace })
      → (done ≡ true → Accepts os incoming laws StrictStart sock (incoming sock w.net) p net)
      → OnlyLogs w.trace trace
      → Settled os sock (Reply w.net) w (await_reply os sock w)
  received_by w false p net trace e good quiet = not_received w net trace quiet p e
  received_by w true p net trace e good quiet =
      let a : Accepts os incoming laws StrictStart sock (incoming sock w.net) p net = good refl in
      once_taken w net trace quiet p e a
        (read_reply-Read os sock p a.body (behind net trace) a.holds)

  -- The wait for a reply always returns and closes the socket, and gives a number only for a reply
  -- that is accepted.
  pub await_reply-Settled : (w : World N) → Settled os sock (Reply w.net) w (await_reply os sock w)
  unfolding init_socket
  await_reply-Settled w =
      let r : Returned os incoming laws StrictStart sock (incoming sock w.net)
          (receive_packet os (fresh w)) =
        receive_packet-Returned os incoming laws (fresh w) in
      received_by w r.done r.packet r.net r.trace r.runs r.good (
        quiet_run w.trace (receive_packet os (fresh w)) r.done _ r.runs
          ((receive_packet-Quiet os).quiet (fresh w)))
