-- ===== src/Wire/Deliver.antt =====
-- A frame that arrives is received: what `SendPacket` puts on the wire, `ReceivePacket` accepts.
use Prim.Native.String.{String}
use dummy_client.Common.{ℕ, zero, suc, ◌+◌, ◌^◌, ◌≤◌, ◌<◌, ◌≡◌, ◌∙◌, refl, sym, ap, arith}
use dummy_client.Common.{none, some, List, [], ◌∷◌, ◌++◌, Bool, true, length, drop, replicate}
use dummy_client.Common.{length-replicate, length-append, length-drop}
use mathlib.Core.Path.{subst}
use dummy_client.Common.Int.{ℤ, pos, FitsAt, signed8, signed8-bits8, signed32, sub_int-pos}
use dummy_client.Bytes.{load32}
use dummy_client.Bytes.Order.{big_endian32, swap32-load32}
use dummy_client.Trace.{Trace}
use dummy_client.Outcome.{Outcome, ok}
use dummy_client.Packet.State.{Cell, Packet, Session, M}
use dummy_client.Packet.Reading.{Holds}
use dummy_client.Os.{Os, ReadLaws}
use dummy_client.Wire.{
  byte_at, body_length, receive_loop, receive_data, receive_packet, report_always,
}
use dummy_client.Wire.Receive.{
  Filling, receive_some-goes, filled-Filling, receive_loop-ends, receive_loop-goes, filled,
}
use dummy_client.Wire.Body.{headed, receive_body-goes, Accepts}
use dummy_client.Wire.Filled.{
  fresh, fresh-Filling, Rewinds, renewed, report_always-Rewinds, pos-injective,
}
use dummy_client.Wire.Accept.{StrictStart, receive_packet-Returned, packet_header, header_goes}
use dummy_client.Wire.Frame.{frame, frame_header}

-- While bytes are to come, `read` of at least one gives some of them.
pub record Prompt {N : Type 0} (os : Os N) (incoming : ℤ → N → List ℕ) : Type 0 where
  pub gives :
      (fd : ℤ) (n : ℕ) (w : N)
      → 1 ≤ n
      → 1 ≤ length (incoming fd w)
      → (b : ℕ) × (bs : List ℕ) × (w' : N) × (os.read fd n w ≡ (some (b ∷ bs), w'))

pub append_split :
    (as' bs cs ds : List ℕ) → length as' ≡ length bs → as' ++ cs ≡ bs ++ ds → (as' ≡ bs) × (cs ≡ ds)
append_split [] [] cs ds e h = (refl, h)
append_split [] (b ∷ bs) cs ds e h = absurd (omega arith)
append_split (a ∷ as') [] cs ds e h = absurd (omega arith)
append_split (a ∷ as') (b ∷ bs) cs ds e h =
    let (same, rest) = append_split as' bs cs ds (omega arith) (cc) in (cc, rest)

load32-frame_header :
    (category command : ℤ) (n : ℕ)
    → load32 (drop 3 (frame_header category command n)) ≡ load32 (big_endian32 (n + 10))
unfolding load32
load32-frame_header category command n = refl

signed32_small : (n : ℕ) → n < 2 ^ 31 → signed32 n ≡ pos n
unfolding signed32
signed32_small n h = ground arith

frame_header-body_length :
    (category command : ℤ) (n : ℕ)
    → n ≤ 2 ^ 30
    → body_length (frame_header category command n) ≡ pos n
unfolding body_length
frame_header-body_length category command n small =
    rw
      (
        load32-frame_header category command n,
        swap32-load32 (n + 10) (omega arith),
        signed32_small (n + 10) (omega arith),
        sub_int-pos (n + 10) 10 (omega arith) (omega arith),
      )
      (ap pos (omega arith))

-- A receive that returned TRUE: the packet has the category, the command and the data, its pointer is
-- at the start, and `rest` is what is left of the stream.
pub record Delivered {N : Type 0} (incoming : ℤ → N → List ℕ) (fd category command : ℤ)
    (xs rest : List ℕ) (r : Outcome (Bool × Session N)) : Type 0 where
  pub packet : Packet
  pub net : N
  pub trace : Trace
  pub runs : r ≡ ok (true, record { packet = packet; net = net; trace = trace })
  pub category_is : packet.category ≡ category
  pub command_is : packet.command ≡ command
  pub holds : Holds packet [] xs
  pub left : incoming fd net ≡ rest

pub true_run :
    {N : Type 0} {r : Outcome (Bool × Session N)} (s s' : Session N) (done : Bool)
    → r ≡ ok (true, s)
    → r ≡ ok (done, s')
    → done ≡ true
true_run s s' done e f = cc

module _ {N : Type 0} (os : Os N) (incoming : ℤ → N → List ℕ) (laws : ReadLaws os incoming)
    (prompt : Prompt os incoming) where
  -- The loop comes to its end if the bytes that it misses are to come.
  receive_loop-delivers :
      (name : String) (fuel : ℕ) (s : Session N) (got : List ℕ) (slack : List Cell)
      → Filling s.packet got slack
      → length slack < fuel
      → length slack ≤ length (incoming s.packet.client_sockfd s.net)
      → (s' : Session N) × (receive_loop os name fuel s ≡ ok (true, s'))
  receive_loop-delivers name zero s got slack h enough come = absurd (omega arith)
  receive_loop-delivers name (suc fuel) s got [] h enough come =
      (s, receive_loop-ends os name fuel s got [] h refl)
  receive_loop-delivers name (suc fuel) s got (c ∷ slack) h enough come =
      let (b, bs, w, e) =
        prompt.gives s.packet.client_sockfd (length (c ∷ slack)) s.net (omega arith)
          (omega (arith, come)) in
      let (fits, came) = laws.read_some _ _ _ _ _ e in
      let s1 : Session N = filled os name s got (c ∷ slack) h (b ∷ bs) w in
      let (s', runs) =
        receive_loop-delivers name fuel s1 (got ++ (b ∷ bs)) (drop (length (b ∷ bs)) (c ∷ slack))
          (filled-Filling os name s got (c ∷ slack) h (b ∷ bs) w fits)
          (omega (arith, enough, length-drop (length (b ∷ bs)) (c ∷ slack)))
          (omega (
            arith,
            come,
            length-drop (length (b ∷ bs)) (c ∷ slack),
            ap length came,
            length-append (b ∷ bs) (incoming s.packet.client_sockfd w),
          )) in
      (
        s',
        receive_loop-goes os name fuel s s1 got (c ∷ slack) h (omega arith)
              (receive_some-goes os name s got (c ∷ slack) h b bs w e fits)
            ∙ runs,
      )

  -- So does the receive behind the header.
  receive_data-delivers :
      (name : String) (report : M N Bool) (rewinds : Rewinds report) (s : Session N) (n : ℕ)
      → s.packet.data_length ≡ pos n
      → n ≤ length (incoming s.packet.client_sockfd s.net)
      → (s' : Session N) × (receive_data os name report s ≡ ok (true, s'))
  unfolding receive_data
  receive_data-delivers name report rewinds s n e come =
      let (s', runs) =
        receive_loop-delivers name (suc n) (fresh os incoming laws name report rewinds s n) []
          (replicate n none) (fresh-Filling os incoming laws name report rewinds s n e)
          (omega (arith, length-replicate {A = Cell} n none))
          (omega (arith, come, length-replicate {A = Cell} n none)) in
      (
        renewed s' (record s'.packet { data_pointer = 0 }) s'.net (rewinds s').0,
        ground (arith, e, runs, (rewinds s').1),
      )

  module _ (s : Session N) (category command : ℤ) (xs rest : List ℕ) (w : N)
      (small : length xs ≤ 2 ^ 30)
      (arrives : incoming s.packet.client_sockfd s.net ≡ frame category command xs ++ rest)
      (header_read : os.read s.packet.client_sockfd 10 s.net
        ≡ (some (frame_header category command (length xs)), w)) where
    abbrev header : List ℕ
    header = frame_header category command (length xs)

    length_is : body_length header ≡ pos (length xs)
    length_is = frame_header-body_length category command (length xs) small

    -- What is left behind the header.
    behind_header : incoming s.packet.client_sockfd w ≡ xs ++ rest
    behind_header =
        let came = (laws.read_some _ _ _ _ _ header_read).1 in
        (append_split header header _ _ refl (sym came ∙ arrives)).1

    receives : (s' : Session N) × (receive_packet os s ≡ ok (true, s'))
    receives =
        let s1 : Session N = record s { net = w } in
        let (s', runs) =
          receive_data-delivers "CPacket::ReceivePacket" (report_always os)
            (report_always-Rewinds os)
            (headed os incoming laws "CPacket::ReceivePacket" (report_always os)
              (report_always-Rewinds os) s1 header header)
            (length xs) length_is (omega (arith, ap length behind_header, length-append xs rest)) in
        (
          s',
          packet_header os incoming laws s header w header_read refl
              ∙ header_goes os incoming laws s1 header header refl refl
              ∙ receive_body-goes os incoming laws "CPacket::ReceivePacket" (report_always os)
                  (report_always-Rewinds os) s1 header header (length xs) length_is
              ∙ runs,
        )

    -- What the accepted frame is.
    accepted :
        (p : Packet) (net : N)
        → Accepts os incoming laws StrictStart s.packet.client_sockfd
            (incoming s.packet.client_sockfd s.net)
            p
            net
        → FitsAt (2 ^ 8) category
        → FitsAt (2 ^ 8) command
        → ((p.category ≡ category) × (p.command ≡ command))
          × Holds p [] xs
          × (incoming s.packet.client_sockfd net ≡ rest)
    accepted p net a category_fits command_fits =
        let (same, after) =
          append_split header a.header (xs ++ rest) _ (omega (arith, a.ten))
            (sym arrives ∙ a.consumed) in
        let size : length xs ≡ length a.body =
          pos-injective _ _ (sym length_is ∙ ap body_length same ∙ a.length_is) in
        let (body, left) = append_split xs a.body rest _ size after in
        (
          (
            a.category_is
                ∙ ap (λ h. signed8 (byte_at 7 h)) (sym same)
                ∙ signed8-bits8 category category_fits,
            a.command_is
                ∙ ap (λ h. signed8 (byte_at 8 h)) (sym same)
                ∙ signed8-bits8 command command_fits,
          ),
          subst (Holds p []) (sym body) a.holds,
          sym left,
        )

    -- Over a stream socket whose `read` gives some bytes while any are to come: where the stream goes
    -- on with the frame of a category and a command of one byte and of at most 2 ^ 30 bytes, and the
    -- first `read` gives the header whole, `ReceivePacket` returns TRUE; the packet then has the
    -- category, the command and the bytes of the frame, and the stream goes on behind it.
    pub receive_packet-Delivered :
        FitsAt (2 ^ 8) category
        → FitsAt (2 ^ 8) command
        → Delivered incoming s.packet.client_sockfd category command xs rest (receive_packet os s)
    receive_packet-Delivered category_fits command_fits =
        let (s', runs) = receives in
        let r = receive_packet-Returned os incoming laws s in
        let done =
          true_run s' (record { packet = r.packet; net = r.net; trace = r.trace }) r.done runs
            r.runs in
        let (kinds, holds, left) =
          accepted r.packet r.net (r.good done) category_fits command_fits in
        record {
          packet = r.packet;
          net = r.net;
          trace = r.trace;
          runs =
              r.runs
              ∙ ap (λ b. ok (b, record { packet = r.packet; net = r.net; trace = r.trace })) done;
          category_is = kinds.0;
          command_is = kinds.1;
          holds = holds;
          left = left;
        }
