-- ===== src/Wire/Body.antt =====
-- Behind a header that was read: the length and the data.
use Prim.Native.String.{String}
use dummy_client.Common.{ℕ, ◌^◌, ◌<◌, ◌≡◌, ◌∙◌, sym, ap, arith}
use dummy_client.Common.{List, [], ◌++◌, Bool, true, false, length}
use dummy_client.Common.Int.{ℤ, pos, negsuc, ltb_ℤ, signed8}
use dummy_client.Trace.{Trace}
use dummy_client.Outcome.{Outcome, ok}
use dummy_client.Packet.State.{Packet, Session, M}
use dummy_client.Packet.Reading.{Holds}
use dummy_client.Os.{Os, ReadLaws}
use dummy_client.Wire.{byte_at, body_length, receive_data, receive_body}
use dummy_client.Wire.Filled.{
  renewed, Rewinds, body_length_small, text_error, Filled, receive_data-Filled,
}

module _ {N : Type 0} (os : Os N) (incoming : ℤ → N → List ℕ) (laws : ReadLaws os incoming) where
  -- The stream `before` began with a frame, which the packet now holds; `w` is behind it.
  pub record Accepts (Starts : List ℕ → Type 0) (fd : ℤ) (before : List ℕ) (p : Packet) (w : N)
      : Type 0 where
    pub header : List ℕ
    pub body : List ℕ
    pub consumed : before ≡ header ++ (body ++ incoming fd w)
    pub ten : length header ≡ 10
    pub starts : Starts header
    pub length_is : body_length header ≡ pos (length body)
    pub category_is : p.category ≡ signed8 (byte_at 7 header)
    pub command_is : p.command ≡ signed8 (byte_at 8 header)
    pub socket_is : p.client_sockfd ≡ fd
    pub holds : Holds p [] body

  -- A run that returned, and what it means if it returned TRUE.
  pub record Returned (Starts : List ℕ → Type 0) (fd : ℤ) (before : List ℕ)
      (r : Outcome (Bool × Session N)) : Type 0 where
    pub done : Bool
    pub packet : Packet
    pub net : N
    pub trace : Trace
    pub runs : r ≡ ok (done, record { packet = packet; net = net; trace = trace })
    pub good : done ≡ true → Accepts Starts fd before packet net

  module _ (name : String) (report : M N Bool) (rewinds : Rewinds report) (s : Session N)
      (header before : List ℕ) where
    -- The session with the fields of the header.
    abbrev pub headed : Session N
    headed = record s {
      packet = record s.packet {
        category = signed8 (byte_at 7 header);
        command = signed8 (byte_at 8 header);
        data_length = body_length header;
      };
    }

    receive_body-refuses :
        (k : ℕ)
        → body_length header ≡ negsuc k
        → receive_body os name report header s
          ≡ ok (false, renewed s headed.packet s.net (text_error s name "length 체크 오류"))
    unfolding receive_body
    receive_body-refuses k e = ground (arith, negative)
      where
        negative : ltb_ℤ (body_length header) (pos 0) ≡ true
        negative = rw e (ground arith)

    pub receive_body-goes :
        (n : ℕ)
        → body_length header ≡ pos n
        → receive_body os name report header s ≡ receive_data os name report headed
    unfolding receive_body
    receive_body-goes n e = ground (arith, positive)
      where
        positive : ltb_ℤ (body_length header) (pos 0) ≡ false
        positive = rw e (ground arith)

    -- Behind a header that was read whole and whose version is right.
    pub receive_body-Returned :
        (z : ℤ)
        → body_length header ≡ z
        → length header ≡ 10
        → {Starts : List ℕ → Type 0} → Starts header
        → before ≡ header ++ incoming s.packet.client_sockfd s.net
        → Returned Starts s.packet.client_sockfd before (receive_body os name report header s)
    receive_body-Returned (negsuc k) e ten starts came = record {
      done = false;
      packet = headed.packet;
      net = s.net;
      trace = text_error s name "length 체크 오류";
      runs = receive_body-refuses k e;
      good = λ p. cc;
    }
    receive_body-Returned (pos n) e ten starts came =
        let small : n < 2 ^ 31 = body_length_small header n e in
        let f : Filled os incoming laws headed n (receive_data os name report headed) =
          receive_data-Filled os incoming laws name report rewinds headed n e small in
        record {
          done = f.done;
          packet = f.packet;
          net = f.net;
          trace = f.trace;
          runs = receive_body-goes n e ∙ f.runs;
          good = λ p. record {
            header = header;
            body = f.body;
            consumed = came ∙ ap (λ xs. header ++ xs) f.consumed;
            ten = ten;
            starts = starts;
            length_is = e ∙ ap pos (sym (f.whole p).0);
            category_is = f.head.category;
            command_is = f.head.command;
            socket_is = f.head.client_sockfd;
            holds = (f.whole p).1;
          };
        }

  pub Returned-no :
      {r : Outcome (Bool × Session N)} {Starts : List ℕ → Type 0} {fd : ℤ} {before : List ℕ}
      (p : Packet) (w : N) (t : Trace)
      → r ≡ ok (false, record { packet = p; net = w; trace = t })
      → Returned Starts fd before r
  Returned-no p w t e = record {
    done = false;
    packet = p;
    net = w;
    trace = t;
    runs = e;
    good = λ p. cc;
  }
