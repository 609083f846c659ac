-- ===== src/Commands/Reports.antt =====
-- The commands as wholes: what they send, what they accept, and the descriptors they leave open.
use dummy_client.Common.{ℕ, ◌^◌, ◌≤◌, ◌≡◌, ◌∙◌, refl, ap, arith, Bool, true, false}
use dummy_client.Common.{Option, none, some, List, [], ◌∷◌, ◌++◌, length, take_all}
use dummy_client.Common.Int.{ℤ, pos, pos_part, bits32}
use dummy_client.Bytes.Order.{big_endian32}
use dummy_client.Outcome.{Outcome, ok}
use dummy_client.Trace.{Trace}
use dummy_client.Packet.State.{M, Packet}
use dummy_client.Packet.Writes.{write_string}
use dummy_client.Packet.Strings.{string_bytes}
use dummy_client.Os.{Os, ReadLaws, WriteLaws}
use dummy_client.Wire.{send_packet}
use dummy_client.Wire.Frame.{frame}
use dummy_client.Connect.{World, ◌>>=◌, pure, connect_loop, connect_tries}
use dummy_client.Commands.{
  ConnInfo, cat_request, req_alive_status, exchange, exceed, is_answered, command_alive_report,
}
use dummy_client.Commands.Tries.{exceed-Closing}
use dummy_client.Commands.Fields.{nothing, also, write_string-Writes}
use dummy_client.Commands.Answer.{Reply}
use dummy_client.Commands.Exchange.{Exchanged, exchange-Exchanged}
use dummy_client.Commands.Connected.{Done, Reported, connected-Reported}

-- What the alive report sends.
abbrev pub alive_bytes : ConnInfo → List ℕ
alive_bytes conninfo = string_bytes conninfo.metaname ++ (string_bytes conninfo.uuid ++ [])

-- What the heartbeat sends.
abbrev pub heartbeat_bytes : ConnInfo → List ℕ → List ℕ
heartbeat_bytes conninfo ips =
    string_bytes conninfo.metaname
    ++ (string_bytes conninfo.host
        ++ (big_endian32 (bits32 conninfo.server_type)
            ++ (string_bytes conninfo.uuid
                ++ (string_bytes ips
                    ++ (string_bytes conninfo.availability_zone
                        ++ (string_bytes conninfo.external_ip ++ []))))))

module _ {N : Type 0} (os : Os N) (incoming sent : ℤ → N → List ℕ) (reads : ReadLaws os incoming)
    (writes : WriteLaws os sent) where
  -- `SendPacket` sent the whole frame on the socket, then `ReceivePacket` read a reply from it that
  -- was accepted, and the close behind it left `final`.
  pub record Answered (command : ℤ) (xs : List ℕ) (sock : ℤ) (start : World N) (final : N)
      : Type 0 where
    pub errorcode : ℤ
    pub middle : N
    pub packet : Packet
    pub trace : Trace
    pub sends :
        send_packet os (record { packet = packet; net = start.net; trace = start.trace })
        ≡ ok (true, record { packet = packet; net = middle; trace = trace })
    pub sent_is : sent sock middle ≡ sent sock start.net ++ frame cat_request command xs
    pub reply : Reply os incoming reads sock middle final errorcode

  pub Exchanged-Answered :
      {command sock : ℤ} {xs : List ℕ} {w : World N} {r : Outcome (Option ℤ × World N)}
      → (x : Exchanged os incoming sent reads writes command sock
          (frame cat_request command xs)
          w
          r)
      → (errorcode : ℤ) → x.value ≡ some errorcode
      → Answered command xs sock w x.world.net
  Exchanged-Answered {command = command} {sock = sock} {xs = xs} {w = w} x errorcode e =
      let (done, whole, reply) = x.means errorcode e in
      record {
        errorcode = errorcode;
        middle = x.middle;
        packet = x.packet;
        trace = x.trace;
        sends =
            x.sends
            ∙ ap (λ b. ok (b, record { packet = x.packet; net = x.middle; trace = x.trace })) done;
        sent_is =
            x.sent_is
            ∙ ap (λ ys. sent sock w.net ++ ys)
                (take_all x.count (frame cat_request command xs) (omega (arith, whole)));
        reply = reply;
      }

  -- The end of the alive and the metadata report.
  module _ (command sock : ℤ) (fields : List (M N Bool)) (xs : List ℕ) (w : World N)
      (x : Exchanged os incoming sent reads writes command sock
        (frame cat_request command xs)
        w
        (exchange os command sock fields w)) where
    pub finished :
        (value : Option ℤ)
        → x.value ≡ value
        → Done sock
            (Answered command xs sock w)
            w
            ((exchange os command sock fields >>= λ reply. pure (is_answered reply)) w)
    unfolding is_answered
    finished none e = record {
      done = false;
      world = x.world;
      runs = ground (arith, x.runs, e);
      once = x.once;
      means = λ p. cc;
    }
    finished (some k) e = record {
      done = true;
      world = x.world;
      runs = ground (arith, x.runs, e);
      once = x.once;
      means = λ p. Exchanged-Answered x k e;
    }

  module _ (fd : ℤ) (h : ¬ (fd ≡ pos 0)) where
    -- Over stream sockets, and for every descriptor but 0: `command_alive_report` of texts that
    -- fit a packet returns and closes the descriptor as often as it opens it. If it returns
    -- TRUE, it sent the frame with the name and the uuid on the socket of its tries and then received a whole
    -- frame from it whose data is one number, which is not `ERR_FAILED`.
    pub command_alive_report-Reported :
        (conninfo : ConnInfo) (w : World N)
        → length (alive_bytes conninfo) ≤ 2 ^ 30
        → Reported fd
            (connect_loop os
              (exceed os "Connect try count exceed")
              conninfo.ip
              conninfo.port
              connect_tries
              (pos 0))
            (Answered req_alive_status (alive_bytes conninfo))
            w
            (command_alive_report os conninfo w)
    unfolding command_alive_report
    command_alive_report-Reported conninfo w small =
        connected-Reported os fd h (exceed os "Connect try count exceed")
          (exceed-Closing os fd "Connect try count exceed") conninfo.ip conninfo.port
          (λ sock.
            exchange os req_alive_status sock
              (write_string conninfo.metaname ∷ write_string conninfo.uuid ∷ [])
            >>= λ reply. pure (is_answered reply))
          (Answered req_alive_status (alive_bytes conninfo)) w
          (λ sock w' _.
            finished req_alive_status sock _ (alive_bytes conninfo) w'
              (exchange-Exchanged os incoming sent reads writes req_alive_status sock _
                (alive_bytes conninfo) w' (λ e. absurd (omega (arith, ap pos_part e)))
                (also (write_string-Writes conninfo.metaname)
                  (also (write_string-Writes conninfo.uuid) nothing))
                small)
              _ refl)
