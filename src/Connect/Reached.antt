-- ===== src/Connect/Reached.antt =====
-- The tries to connect: some fail, and then one succeeds.
use dummy_client.Common.{
  ℕ, zero, suc, ◌≤◌, ◌≡◌, ◌≢◌, ◌∙◌, refl, sym, ap, arith, some, List, ◌∷◌, Bool, true, false,
}
use dummy_client.Common.Int.{ℤ, pos, negsuc, eqb_ℤ-ne}
use Prim.Native.String.{String}
use dummy_client.Trace.{Trace, logged, opened, closed, Level, error, info, no_param}
use dummy_client.Outcome.{ok}
use dummy_client.Os.{Os, keep_alive, no_delay, receive_buffer, send_buffer, linger}
use dummy_client.Connect.{
  C, World, open_socket, close_to_server, connect_socket, set_options, connect_to_server,
  try_connect, connect_loop, socket_buffer_size,
}

module _ {N : Type 0} (os : Os N) (ip : List ℕ) (port : ℤ) where
  -- The network behind the five `setsockopt` calls.
  abbrev pub with_options : ℤ → N → N
  with_options sock n = os.set_option sock (linger (pos 1) (pos 0)) (
      os.set_option sock (send_buffer socket_buffer_size) (
        os.set_option sock (receive_buffer socket_buffer_size)
          (os.set_option sock (no_delay (pos 1)) (os.set_option sock (keep_alive (pos 1)) n))))

  -- So many tries that fail, for want of a socket or of a connection, and then one whose `socket`
  -- and `connect` succeed.
  pub data Reaches (sock : ℤ) (end : N) : ℕ → N → Type 0 where
    reached :
        {n a b : N}
        → os.socket n ≡ (sock, a)
        → sock ≢ pos 0
        → sock ≢ negsuc 0
        → os.connect sock ip port a ≡ (true, b)
        → end ≡ with_options sock b
        → Reaches sock end zero n
    no_socket :
        {j : ℕ} {n a : N}
        → os.socket n ≡ (negsuc 0, a)
        → Reaches sock end j a
        → Reaches sock end (suc j) n
    refused :
        {j : ℕ} {n a b c : N} (fd : ℤ) (done : Bool)
        → os.socket n ≡ (fd, a)
        → fd ≢ negsuc 0
        → os.connect fd ip port a ≡ (false, b)
        → os.close fd b ≡ (done, c)
        → Reaches sock end j c
        → Reaches sock end (suc j) n

  module _ (n : N) (trace : Trace) where
    abbrev at : World N
    at = record { net = n; trace = trace }

    abbrev line : Level → String → ℤ → Trace → Trace
    line level message fd t =
        logged (record { level = level; message = message; sockfd = fd; param = no_param }) ∷ t

    abbrev reached_trace : ℤ → Trace
    reached_trace sock = line info "ConnectToServer() SUCCESS" sock (opened sock ∷ trace)

    abbrev refused_trace : ℤ → Trace
    refused_trace fd =
        line error "Connect Error" fd
          (closed fd ∷ line error "ConnectToServer() - NOT CONNECT" fd (opened fd ∷ trace))

    try-reached :
        (sock : ℤ) (a b : N)
        → os.socket n ≡ (sock, a)
        → sock ≢ negsuc 0
        → os.connect sock ip port a ≡ (true, b)
        → try_connect os ip port at
          ≡ ok (sock, record { net = with_options sock b; trace = reached_trace sock })
    unfolding try_connect connect_to_server open_socket connect_socket set_options
    try-reached sock a b e h c = ground (arith, e, c, eqb_ℤ-ne sock (negsuc 0) h)

    try-no_socket :
        (a : N)
        → os.socket n ≡ (negsuc 0, a)
        → try_connect os ip port at
          ≡ ok (pos 0, record { net = a; trace = line error "Connect Error" (negsuc 0) trace })
    unfolding try_connect connect_to_server open_socket
    try-no_socket a e = ground (arith, e)

    try-refused :
        (fd : ℤ) (done : Bool) (a b c : N)
        → os.socket n ≡ (fd, a)
        → fd ≢ negsuc 0
        → os.connect fd ip port a ≡ (false, b)
        → os.close fd b ≡ (done, c)
        → try_connect os ip port at ≡ ok (pos 0, record { net = c; trace = refused_trace fd })
    unfolding try_connect connect_to_server open_socket connect_socket close_to_server
    try-refused fd done a b c e h f k = ground (arith, e, f, k, eqb_ℤ-ne fd (negsuc 0) h)

  -- A round that is not the last.
  module _ (give_up : ℤ → C N (Unit {0})) where
    round :
        (m : ℕ) (sock : ℤ) (w w' : World N)
        → try_connect os ip port w ≡ ok (sock, w')
        → connect_loop os give_up ip port (suc (suc m)) (pos 0) w
          ≡ connect_loop os give_up ip port (suc m) sock w'
    unfolding connect_loop
    round m sock w w' e = ground (arith, e)

    -- A socket that is not 0 is kept.
    kept :
        (m : ℕ) (sock : ℤ) (w : World N)
        → sock ≢ pos 0
        → connect_loop os give_up ip port m sock w ≡ ok (some sock, w)
    unfolding connect_loop
    kept zero sock w h = refl
    kept (suc m) sock w h = ground (arith, eqb_ℤ-ne sock (pos 0) h)

    -- With more rounds left than failing tries and one, the loop ends with the socket that is
    -- reached.
    pub connect_loop-Reaches :
        {sock : ℤ} {end : N} {j : ℕ} {n : N} (m : ℕ) (trace : Trace)
        → Reaches sock end j n
        → j ≤ m
        → (t : Trace) × (connect_loop os give_up ip port
              (suc (suc m))
              (pos 0)
              (record { net = n; trace = trace })
            ≡ ok (some sock, record { net = end; trace = t }))
    connect_loop-Reaches {sock = sock} {n = n} m trace (reached {a = a} {b = b} e h k c same)
          within =
        (
          reached_trace n trace sock,
          round m sock (at n trace) _ (try-reached n trace sock a b e k c)
              ∙ kept (suc m) sock _ h
              ∙ ap (λ e. ok (some sock, record { net = e; trace = reached_trace n trace sock }))
                  (sym same),
        )
    connect_loop-Reaches zero trace (no_socket e r) within = absurd (omega (arith, within))
    connect_loop-Reaches {n = n} (suc m) trace (no_socket {a = a} e r) within =
        let (t, runs) =
          connect_loop-Reaches m (line n trace error "Connect Error" (negsuc 0) trace) r
            (omega (arith, within)) in
        (t, round (suc m) (pos 0) (at n trace) _ (try-no_socket n trace a e) ∙ runs)
    connect_loop-Reaches zero trace (refused fd done e h c k r) within =
        absurd (omega (arith, within))
    connect_loop-Reaches {n = n} (suc m) trace (refused {a = a} {b = b} {c = c} fd done e h f k r)
          within =
        let (t, runs) =
          connect_loop-Reaches m (refused_trace n trace fd) r (omega (arith, within)) in
        (t, round (suc m) (pos 0) (at n trace) _ (try-refused n trace fd done a b c e h f k) ∙ runs)
