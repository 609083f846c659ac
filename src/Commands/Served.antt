-- ===== src/Commands/Served.antt =====
-- A manager that answers: a report to it succeeds.
pub mod Tests
use dummy_client.Common.{
  ℕ, ◌+◌, ◌^◌, ◌≤◌, ◌≡◌, ◌≢◌, ◌∙◌, refl, sym, ap, arith, Option, none, some, List, [], ◌∷◌, ◌++◌,
  Bool, true, false, length, length-append, take_all, take,
}
use mathlib.Core.Path.{subst, subst₂}
use dummy_client.Common.Int.{ℤ, pos, FitsAt, bits32, eqb_ℤ-ne, pos_part}
use dummy_client.Bytes.Order.{big_endian32}
use dummy_client.Outcome.{Outcome, ok}
use dummy_client.Trace.{Trace, closed}
use dummy_client.Packet.State.{Packet, Session, M}
use dummy_client.Packet.Reads.{new_packet, init_socket, init_command, read_int, is_eod}
use dummy_client.Packet.Build.{Built, with_packet}
use dummy_client.Packet.Appends.{Appended}
use dummy_client.Packet.Reading.{Holds, moved, moved-Holds, is_eod-Holds}
use dummy_client.Packet.RoundTrip.{read_int-back}
use dummy_client.Os.{Os, ReadLaws, WriteLaws}
use dummy_client.Wire.{send_packet, receive_packet}
use dummy_client.Wire.Send.{after}
use dummy_client.Wire.Frame.{frame, frame_header, SentFrame, send_packet-SentFrame}
use dummy_client.Wire.Taken.{Taking, send_packet-takes}
use dummy_client.Wire.Deliver.{Prompt, Delivered, receive_packet-Delivered, append_split, true_run}
use dummy_client.Connect.{C, World, ◌>>=◌, ◌>>◌, pure, on, close_to_server}
use dummy_client.Commands.{
  cat_request, err_failed, write_fields, judge, read_reply, await_reply, exchange,
}
use dummy_client.Packet.Writes.{write_string}
use dummy_client.Connect.{connect_loop}
use dummy_client.Connect.Reached.{Reaches, connect_loop-Reaches}
use dummy_client.Commands.{ConnInfo, exceed, req_alive_status, is_answered, command_alive_report}
use dummy_client.Commands.Reports.{alive_bytes}
use dummy_client.Commands.Fields.{
  AllWrite, nothing, also, write_string-Writes, write_fields-Appended,
}
use dummy_client.Commands.Exchange.{report_packet, report_packet-Built}

-- The other end of a socket: `reply` gives all that it has put on the stream once it has got so many
-- bytes. Ten bytes are taken whole, and given whole if they are to come.
pub record Manager {N : Type 0} (os : Os N) (incoming sent : ℤ → N → List ℕ)
    (reply : List ℕ → List ℕ) (sock : ℤ) : Type 0 where
  pub answers :
      (bs : List ℕ) (n n' : N) (k : ℕ)
      → os.write sock bs n ≡ (pos k, n')
      → incoming sock n ≡ reply (sent sock n)
      → incoming sock n' ≡ reply (sent sock n')
  pub takes_header :
      (bs : List ℕ) (n : N) → length bs ≡ 10 → (n' : N) × (os.write sock bs n ≡ (pos 10, n'))
  pub gives_header :
      (n : N)
      → 10 ≤ length (incoming sock n)
      → (header : List ℕ) × (n' : N) × (os.read sock 10 n ≡ (some header, n'))
        × (length header ≡ 10)

-- One run has one end.
same_end :
    {N : Type 0} {r : Outcome (Bool × Session N)} (s s' : Session N) (done : Bool)
    → r ≡ ok (true, s)
    → r ≡ ok (done, s')
    → s.net ≡ s'.net
same_end s s' done e f = cc

module _ {N : Type 0} (os : Os N) (incoming sent : ℤ → N → List ℕ) (reads : ReadLaws os incoming)
    (writes : WriteLaws os sent) (prompt : Prompt os incoming) (taking : Taking os)
    (reply : List ℕ → List ℕ) (sock : ℤ) (manager : Manager os incoming sent reply sock)
    (category command' : ℤ) (category_fits : FitsAt (2 ^ 8) category)
    (command_fits : FitsAt (2 ^ 8) command') (z : ℤ) (z_fits : FitsAt (2 ^ 32) z)
    (accepted : z ≢ err_failed) where
  -- The frame that the manager answers.
  abbrev answer : List ℕ
  answer = frame category command' (big_endian32 (bits32 z))

  header_comes :
      (n : N) (rest : List ℕ)
      → incoming sock n ≡ answer ++ rest
      → (n' : N) × (os.read sock 10 n ≡ (some (frame_header category command' 4), n'))
  header_comes n rest e =
      let (header, n', got, ten) = manager.gives_header n (omega (arith, ap length e)) in
      let same : header ≡ frame_header category command' 4 =
        (append_split header (frame_header category command' 4) _ _ ten
          (sym (reads.read_some _ _ _ _ _ got).1 ∙ e)).0 in
      (n', got ∙ ap (λ h. (some h, n')) same)

  -- A reply that has been received is read, judged, and the socket closed.
  judged :
      (w : World N) (p : Packet) (net : N) (trace : Trace)
      → receive_packet os
          (record { packet = init_socket sock (new_packet (pos 0)); net = w.net; trace = w.trace })
        ≡ ok (true, record { packet = p; net = net; trace = trace })
      → Holds p [] (big_endian32 (bits32 z))
      → await_reply os sock w
        ≡ ok (some z, record { net = (os.close sock net).1; trace = closed sock ∷ trace })
  unfolding await_reply read_reply judge close_to_server
  judged w p net trace e h =
      let s : Session N = record { packet = p; net = net; trace = trace } in
      ground (
        arith,
        e,
        read_int-back s [] [] z z_fits h,
        is_eod-Holds (moved s 4) (big_endian32 (bits32 z)) []
            (moved-Holds s [] (big_endian32 (bits32 z)) [] h),
        eqb_ℤ-ne z err_failed accepted,
      )

  await_reply-answers :
      (w : World N) (rest : List ℕ)
      → incoming sock w.net ≡ answer ++ rest
      → (w' : World N) × (await_reply os sock w ≡ ok (some z, w'))
  unfolding init_socket
  await_reply-answers w rest arrives =
      let (n', header_read) = header_comes w.net rest arrives in
      let s : Session N = record {
        packet = init_socket sock (new_packet (pos 0));
        net = w.net;
        trace = w.trace;
      } in
      let d : Delivered incoming sock category command' (big_endian32 (bits32 z)) rest
          (receive_packet os s) =
        receive_packet-Delivered os incoming reads prompt s category command'
          (big_endian32 (bits32 z)) rest n' (omega arith) arrives header_read category_fits
          command_fits in
      (_, judged w d.packet d.net d.trace d.runs d.holds)

  module _ (fields : List (M N Bool)) (xs : List ℕ) (ws : AllWrite fields xs)
      (small : length xs ≤ 2 ^ 30) (command : ℤ) (proper : command ≢ pos 0) (w : World N) where
    abbrev start : Session N
    start = record { packet = report_packet command sock; net = w.net; trace = w.trace }

    written : Appended start [] xs (write_fields fields start)
    written =
        write_fields-Appended start [] [] ws (report_packet-Built command sock)
          (omega (arith, small))

    abbrev filled : Session N
    filled = with_packet start written.packet

    abbrev request : List ℕ
    request = frame cat_request command xs

    filled_category : filled.packet.category ≡ cat_request
    unfolding init_command
    filled_category = written.head.category

    filled_command : filled.packet.command ≡ command
    unfolding init_command
    filled_command = written.head.command

    filled_socket : filled.packet.client_sockfd ≡ sock
    unfolding init_command
    filled_socket = written.head.client_sockfd

    some_category : filled.packet.category ≢ pos 0
    some_category e = absurd (omega (arith, ap pos_part (sym filled_category ∙ e)))

    some_command : filled.packet.command ≢ pos 0
    some_command e = proper (sym filled_command ∙ e)

    sent_request : SentFrame os sent writes filled request (send_packet os filled)
    sent_request =
        subst₂
          (λ category c.
            SentFrame os sent writes filled (frame category c xs) (send_packet os filled))
          filled_category filled_command
          (send_packet-SentFrame os sent writes filled xs written.slack written.built some_category
            some_command)

    -- What the manager gives, at the start of the exchange, is its reply to what it has got.
    module _ (rest : List ℕ) (before : incoming sock w.net ≡ reply (sent sock w.net))
        (replies : reply (sent sock w.net ++ request) ≡ answer ++ rest) where
      request_goes :
          (s' : Session N) × (send_packet os filled ≡ ok (true, s'))
          × (incoming sock s'.net ≡ reply (sent sock s'.net))
      request_goes =
          let (n', header_taken) =
            manager.takes_header (frame_header cat_request command (length xs)) w.net refl in
          send_packet-takes os sent writes taking (λ n. incoming sock n ≡ reply (sent sock n))
            filled xs written.slack n'
            (λ bs n m k e.
              manager.answers bs n m k
                (subst (λ fd. os.write fd bs n ≡ (pos k, m)) filled_socket e))
            before written.built some_category some_command
            (rw (filled_socket, filled_category, filled_command) header_taken)

      request_gone : sent_request.done ≡ true
      request_gone =
          true_run request_goes.0 (after filled sent_request.net sent_request.trace)
            sent_request.done request_goes.1 sent_request.runs

      same_net : request_goes.0.net ≡ sent_request.net
      same_net =
          same_end request_goes.0 (after filled sent_request.net sent_request.trace)
            sent_request.done request_goes.1 sent_request.runs

      reply_comes : incoming sock sent_request.net ≡ answer ++ rest
      reply_comes =
          subst (λ n. incoming sock n ≡ reply (sent sock n)) same_net request_goes.2
          ∙ ap reply (
              subst (λ fd. sent fd sent_request.net ≡ sent fd w.net ++ request) filled_socket
                (sent_request.sent_is
                  ∙ ap (λ ys. sent filled.packet.client_sockfd w.net ++ ys)
                      (take_all sent_request.count request
                        (omega (arith, sent_request.whole request_gone)))))
          ∙ replies

      exchange-answers : (w' : World N) × (exchange os command sock fields w ≡ ok (some z, w'))
      unfolding exchange
      exchange-answers =
          let (w', runs) =
            await_reply-answers (record { net = sent_request.net; trace = sent_request.trace }) rest
              reply_comes in
          (w', ground (arith, written.runs, sent_request.runs, request_gone, runs))

  -- Over stream sockets where each `write` takes a byte at least and a header whole, and each `read`
  -- gives bytes while any are to come and a header whole: at most 98 tries fail to connect and then
  -- one gets `sock`, the name and the uuid fit a packet, and the manager's end of `sock` puts on the
  -- stream what `reply` says of all that it has got, which for the whole request is a frame with a
  -- category and a command of one byte and a number of 32 bits that is not `ERR_FAILED`, with
  -- anything behind it. Then `command_alive_report` returns TRUE.
  pub command_alive_report-answers :
      (conninfo : ConnInfo) (w : World N) (j : ℕ) (n : N) (rest : List ℕ)
      → Reaches os conninfo.ip conninfo.port sock n j w.net
      → j ≤ 98
      → length (alive_bytes conninfo) ≤ 2 ^ 30
      → incoming sock n ≡ reply (sent sock n)
      → reply (sent sock n ++ frame cat_request req_alive_status (alive_bytes conninfo))
        ≡ answer ++ rest
      → (w' : World N) × (command_alive_report os conninfo w ≡ ok (true, w'))
  unfolding command_alive_report is_answered
  command_alive_report-answers conninfo w j n rest reaches within small before replies =
      let (t, connects) =
        connect_loop-Reaches os conninfo.ip conninfo.port (exceed os "Connect try count exceed") 98
          w.trace reaches within in
      let (w', runs) =
        exchange-answers (write_string conninfo.metaname ∷ write_string conninfo.uuid ∷ [])
          (alive_bytes conninfo)
          (also (write_string-Writes conninfo.metaname)
            (also (write_string-Writes conninfo.uuid) nothing))
          small req_alive_status (λ e. absurd (omega (arith, ap pos_part e)))
          (record { net = n; trace = t }) rest before replies in
      (w', ground (arith, connects, runs))
