-- ===== src/Wire/Tests.antt =====
-- The wire theorems over a pipe that takes and gives everything at once.
use dummy_client.Common.{
  ℕ, zero, suc, ◌≤◌, ◌≡◌, refl, inl, arith, ◌∙◌, ap, sym, Option, none, some, List, [], ◌∷◌, ◌++◌,
}
use dummy_client.Common.{true, take, drop, length, take-append-drop, length-take, take_all}
use mathlib.Core.Path.{ap₂}
use dummy_client.Common.Int.{ℤ, pos, negsuc}
use dummy_client.Packet.State.{Session}
use dummy_client.Packet.Reads.{new_packet, init_command, init_socket}
use dummy_client.Packet.Build.{Built}
use dummy_client.Os.{in_set, Descriptors, Os, ReadLaws, WriteLaws, SelectLaws}
use dummy_client.Wire.{send_packet, receive_packet, receive_packet_select}
use dummy_client.Wire.Select.{LooseStart, receive_packet_select-Returned}
use dummy_client.Wire.Frame.{SentFrame, frame, send_packet-SentFrame}
use dummy_client.Wire.Body.{Returned}
use dummy_client.Wire.Taken.{Taking}
use dummy_client.Wire.Deliver.{Prompt, Delivered, receive_packet-Delivered}
use dummy_client.Wire.Accept.{StrictStart, receive_packet-Returned}

pub record Pipe : Type 0 where
  pub inbox : List ℕ
  pub outbox : List ℕ

abbrev pub pipe_os : Os Pipe
pipe_os = record {
  socket = λ w. (pos 3, w);
  connect = λ fd host port w. (true, w);
  set_option = λ fd option w. w;
  read = λ fd n w. (some (take n w.inbox), record w { inbox = drop n w.inbox });
  write = λ fd bs w. (pos (length bs), record w { outbox = w.outbox ++ bs });
  select = λ fd seconds w. (pos 1, w);
  close = λ fd w. (true, w);
}

abbrev pub pipe_sent : ℤ → Pipe → List ℕ
pipe_sent fd w = w.outbox

abbrev pub pipe_incoming : ℤ → Pipe → List ℕ
pipe_incoming fd w = w.inbox

value : ℤ → ℕ
value (pos n) = n
value (negsuc n) = 0

bytes : Option (List ℕ) → List ℕ
bytes none = []
bytes (some bs) = bs

pipe-write :
    (fd : ℤ) (bs : List ℕ) (w w' : Pipe) (k : ℕ)
    → pipe_os.write fd bs w ≡ (pos k, w')
    → (k ≤ length bs) × (w'.outbox ≡ w.outbox ++ take k bs)
unfolding value
pipe-write fd bs w w' k e =
    let same : length bs ≡ k = ap (λ (r : ℤ × Pipe). value r.0) e in
    let out : w.outbox ++ bs ≡ w'.outbox = ap (λ (r : ℤ × Pipe). r.1.outbox) e in
    (omega arith, sym out ∙ ap (λ xs. w.outbox ++ xs) (sym (take_all k bs (omega arith))))

pipe-read :
    (fd : ℤ) (n : ℕ) (w w' : Pipe) (bs : List ℕ)
    → pipe_os.read fd n w ≡ (some bs, w')
    → (length bs ≤ n) × (w.inbox ≡ bs ++ w'.inbox)
unfolding bytes
pipe-read fd n w w' bs e =
    let front : take n w.inbox ≡ bs = ap (λ (r : Option (List ℕ) × Pipe). bytes r.0) e in
    let back : drop n w.inbox ≡ w'.inbox = ap (λ (r : Option (List ℕ) × Pipe). r.1.inbox) e in
    (
      omega (arith, ap length front, length-take n w.inbox),
      sym (take-append-drop n w.inbox) ∙ ap₂ ◌++◌ front back,
    )

pub pipe-WriteLaws : WriteLaws pipe_os pipe_sent
pipe-WriteLaws = record { write_some = pipe-write; write_none = λ fd bs w w' k e. cc }

pub pipe-ReadLaws : ReadLaws pipe_os pipe_incoming
pipe-ReadLaws = record { read_some = pipe-read; read_none = λ fd n w w' e. cc }

pub pipe-SelectLaws : SelectLaws pipe_os pipe_incoming
pipe-SelectLaws = record { select_keeps = λ fd seconds w. refl }

-- A packet with a category, a command, a socket and no data yet.
abbrev pub to_send : Session Pipe
to_send = record {
  packet = init_command (pos 1) (pos 4) (pos 3) (new_packet (pos 0));
  net = record { inbox = []; outbox = [] };
  trace = [];
}

pub to_send-Built : Built to_send.packet [] []
unfolding init_command new_packet
to_send-Built = record {
  is_data = refl;
  is_length = refl;
  is_pointer = refl;
  bounded = omega arith;
  roomy = inl refl;
}

send_packet-SentFrame_example :
    SentFrame pipe_os pipe_sent pipe-WriteLaws to_send
      (frame to_send.packet.category to_send.packet.command [])
      (send_packet pipe_os to_send)
unfolding init_command new_packet value
send_packet-SentFrame_example =
    send_packet-SentFrame pipe_os pipe_sent pipe-WriteLaws to_send [] [] to_send-Built
      (λ e. absurd (omega (arith, ap value e))) (λ e. absurd (omega (arith, ap value e)))

-- A reply of category 2 with the number 0, and 7 behind it.
abbrev to_receive : Session Pipe
to_receive = record {
  packet = init_socket (pos 3) (new_packet (pos 0));
  net = record { inbox = frame (pos 2) (pos 4) (0 ∷ 0 ∷ 0 ∷ 0 ∷ []) ++ (7 ∷ []); outbox = [] };
  trace = [];
}

receive_packet-Returned_example :
    Returned pipe_os pipe_incoming pipe-ReadLaws StrictStart to_receive.packet.client_sockfd
      (pipe_incoming to_receive.packet.client_sockfd to_receive.net)
      (receive_packet pipe_os to_receive)
receive_packet-Returned_example =
    receive_packet-Returned pipe_os pipe_incoming pipe-ReadLaws to_receive

receive_packet_select-Returned_example :
    Returned pipe_os pipe_incoming pipe-ReadLaws LooseStart to_receive.packet.client_sockfd
      (pipe_incoming to_receive.packet.client_sockfd to_receive.net)
      (receive_packet_select pipe_os to_receive)
unfolding in_set init_socket
receive_packet_select-Returned_example =
    receive_packet_select-Returned pipe_os pipe_incoming pipe-ReadLaws pipe-SelectLaws to_receive
      refl

taken :
    (n : ℕ) (bs : List ℕ) → 1 ≤ n → 1 ≤ length bs → (c : ℕ) × (cs : List ℕ) × (take n bs ≡ c ∷ cs)
taken zero bs h come = absurd (omega arith)
taken (suc n) [] h come = absurd (omega arith)
taken (suc n) (b ∷ bs) h come = (b, take n bs, refl)

pub pipe-Prompt : Prompt pipe_os pipe_incoming
pipe-Prompt = record {
  gives = λ fd n w h come.
      let (c, cs, e) = taken n w.inbox h come in
      (
        c,
        cs,
        record w { inbox = drop n w.inbox },
        ap (λ bs. (some bs, record w { inbox = drop n w.inbox })) e,
      );
}

abbrev header_taken : Pipe
header_taken = record to_receive.net { inbox = 0 ∷ 0 ∷ 0 ∷ 0 ∷ 7 ∷ [] }

receive_packet-Delivered_example :
    Delivered pipe_incoming to_receive.packet.client_sockfd
      (pos 2)
      (pos 4)
      (0 ∷ 0 ∷ 0 ∷ 0 ∷ [])
      (7 ∷ [])
      (receive_packet pipe_os to_receive)
receive_packet-Delivered_example =
    receive_packet-Delivered pipe_os pipe_incoming pipe-ReadLaws pipe-Prompt to_receive (pos 2)
      (pos 4) (0 ∷ 0 ∷ 0 ∷ 0 ∷ []) (7 ∷ []) header_taken (omega arith) refl refl (omega arith)
      (omega arith)

pipe_takes :
    (fd : ℤ) (bs : List ℕ) (w : Pipe)
    → 1 ≤ length bs
    → (k : ℕ) × (w' : Pipe) × (pipe_os.write fd bs w ≡ (pos (suc k), w'))
pipe_takes fd [] w h = absurd (omega arith)
pipe_takes fd (b ∷ bs) w h = (length bs, record w { outbox = w.outbox ++ (b ∷ bs) }, refl)

pub pipe-Taking : Taking pipe_os
pipe-Taking = record { takes = pipe_takes }

-- A pipe that takes nothing for a negative descriptor.
abbrev guarded_write : ℤ → List ℕ → Pipe → ℤ × Pipe
guarded_write (pos n) bs w = pipe_os.write (pos n) bs w
guarded_write (negsuc n) bs w = (negsuc 0, w)

abbrev pub guarded_os : Os Pipe
guarded_os = record pipe_os { write = guarded_write }

pub guarded-Descriptors : Descriptors guarded_os
unfolding in_set
guarded-Descriptors = record { numbered = λ n. inl refl; no_write = λ bs n. (n, refl) }

guarded_some :
    (fd : ℤ) (bs : List ℕ) (w w' : Pipe) (k : ℕ)
    → guarded_write fd bs w ≡ (pos k, w')
    → (k ≤ length bs) × (w'.outbox ≡ w.outbox ++ take k bs)
guarded_some (pos n) bs w w' k e = pipe-write (pos n) bs w w' k e
guarded_some (negsuc n) bs w w' k e = absurd (cc)

guarded_none :
    (fd : ℤ) (bs : List ℕ) (w w' : Pipe) (k : ℕ)
    → guarded_write fd bs w ≡ (negsuc k, w')
    → w'.outbox ≡ w.outbox
guarded_none (pos n) bs w w' k e = absurd (cc)
guarded_none (negsuc n) bs w w' k e =
    ap (λ (v : Pipe). v.outbox) (sym (ap (λ (r : ℤ × Pipe). r.1) e))

pub guarded-WriteLaws : WriteLaws guarded_os pipe_sent
guarded-WriteLaws = record { write_some = guarded_some; write_none = guarded_none }

pub guarded-ReadLaws : ReadLaws guarded_os pipe_incoming
guarded-ReadLaws = record { read_some = pipe-read; read_none = λ fd n w w' e. cc }

pub guarded-SelectLaws : SelectLaws guarded_os pipe_incoming
guarded-SelectLaws = record { select_keeps = λ fd seconds w. refl }
