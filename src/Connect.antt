-- ===== src/Connect.antt =====
-- Connecting to the manager: `ConnectToServer`, `CloseToServer` and the loop of up to a hundred
-- tries with which each command begins (main_alive.cpp).
pub mod Balance
pub mod Count
pub mod Even
pub mod Reached
use Prim.Native.String.{String}
use dummy_client.Common.{ℕ, zero, suc, Option, none, some, List, [], ◌∷◌, Bool, true, false}
use dummy_client.Common.{if◌then◌else◌, ◌==◌, not}
use dummy_client.Common.Int.{ℤ, pos, negsuc, eqb_ℤ}
use dummy_client.Trace.{
  Trace, Event, Entry, logged, opened, closed, Level, error, info, Param, no_param,
}
use dummy_client.Outcome.{Outcome, ok, fault, Fault}
use dummy_client.Packet.State.{Packet, Session, M}
use dummy_client.Os.{Os, keep_alive, no_delay, receive_buffer, send_buffer, linger}

-- What a command works on: the network and the trace.
pub record World (N : Type 0) : Type 0 where
  pub net : N
  pub trace : Trace

abbrev pub C : Type 0 → Type 0 → Type 0
C N A = World N → Outcome (A × World N)

infixl 5 ◌>>=◌ ◌>>◌
abbrev pub ◌>>=◌ : {N A B : Type 0} → C N A → (A → C N B) → C N B
◌>>=◌ m f w = elim (m w) [ ok (a, w') ↦ f a w' | fault e ↦ fault e ]

abbrev pub ◌>>◌ : {N A B : Type 0} → C N A → C N B → C N B
m >> k = m >>= λ _. k

abbrev pub pure : {N A : Type 0} → A → C N A
pure a w = ok (a, w)

-- A method call on a packet, which comes back with its result.
abbrev pub on : {N A : Type 0} → Packet → M N A → C N (A × Packet)
on p m w = elim (m (record { packet = p; net = w.net; trace = w.trace })) [
  | ok (a, s) ↦ ok ((a, s.packet), record { net = s.net; trace = s.trace })
  | fault e ↦ fault e
]

-- A log line with a descriptor of the caller's choice.
abbrev pub log_line : {N : Type 0} → Level → String → ℤ → Param → C N (Unit {0})
log_line level message fd param w =
    let entry : Entry = record { level = level; message = message; sockfd = fd; param = param } in
    ok (tt, record w { trace = logged entry ∷ w.trace })

abbrev pub note : {N : Type 0} → Event → C N (Unit {0})
note event w = ok (tt, record w { trace = event ∷ w.trace })

abbrev pub socket_buffer_size : ℤ
socket_buffer_size = pos 65536

module _ {N : Type 0} (os : Os N) where
  -- `socket`; a descriptor that it returns is noted.
  unfoldable pub open_socket : C N ℤ
  open_socket w =
      let (fd, net) = os.socket w.net in
      ok (
        fd,
        record { net = net; trace = if eqb_ℤ fd (negsuc 0) then w.trace else opened fd ∷ w.trace },
      )

  -- `CloseToServer`, whose result no caller reads, and each other call of `close`.
  unfoldable pub close_to_server : ℤ → C N Bool
  close_to_server sock w =
      let (done, net) = os.close sock w.net in
      ok (done, record { net = net; trace = closed sock ∷ w.trace })

  -- `connect` to the host and port.
  unfoldable pub connect_socket : ℤ → List ℕ → ℤ → C N Bool
  connect_socket sock ip port w =
      let (done, net) = os.connect sock ip port w.net in ok (done, record w { net = net })

  -- The five `setsockopt` calls, whose results are not read.
  unfoldable pub set_options : ℤ → C N (Unit {0})
  set_options sock w =
      let a = os.set_option sock (keep_alive (pos 1)) w.net in
      let b = os.set_option sock (no_delay (pos 1)) a in
      let c = os.set_option sock (receive_buffer socket_buffer_size) b in
      let d = os.set_option sock (send_buffer socket_buffer_size) c in
      ok (tt, record w { net = os.set_option sock (linger (pos 1) (pos 0)) d })

  -- `ConnectToServer`: its result, and what it leaves in `*sock`.
  unfoldable pub connect_to_server : List ℕ → ℤ → C N (Bool × ℤ)
  connect_to_server ip port = open_socket >>= λ sock.
      if eqb_ℤ sock (negsuc 0)
      then pure (false, sock)
      else (connect_socket sock ip port >>= λ done.
          if not done
          then (do
            log_line error "ConnectToServer() - NOT CONNECT" sock no_param
            close_to_server sock
            pure (false, sock))
          else (do
            set_options sock
            log_line info "ConnectToServer() SUCCESS" sock no_param
            pure (true, sock)))

  -- One try: the socket, or 0 where it failed.
  unfoldable pub try_connect : List ℕ → ℤ → C N ℤ
  try_connect ip port = connect_to_server ip port >>= λ result.
      if result.0
      then pure result.1
      else (log_line error "Connect Error" result.1 no_param >> pure (pos 0))

  -- `for (int i=0; i<100; i++)` with the rounds left; the socket is 0 until a try succeeds.
  -- The last round gives up even if its own try succeeded: `none` is the return of FALSE.
  unfoldable pub connect_loop : (ℤ → C N (Unit {0})) → List ℕ → ℤ → ℕ → ℤ → C N (Option ℤ)
  connect_loop give_up ip port zero sock = pure (some sock)
  connect_loop give_up ip port (suc n) sock = elim (eqb_ℤ sock (pos 0)) [
    | false ↦ pure (some sock)
    | true ↦ try_connect ip port >>= λ sock'. elim (n == 0) [
      | true ↦ give_up sock' >> pure none
      | false ↦ connect_loop give_up ip port n sock'
    ]
  ]

abbrev pub connect_tries : ℕ
connect_tries = 100
