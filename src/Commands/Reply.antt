-- ===== src/Commands/Reply.antt =====
-- The reply to a report: what is accepted, and that the socket is closed whatever it is.
use dummy_client.Common.{ℕ, ◌<◌, ◌≡◌, refl, arith}
use dummy_client.Common.{Option, none, some, List, [], ◌∷◌, length}
use dummy_client.Common.Int.{ℤ, pos, signed32}
use dummy_client.Bytes.{load32, swap32}
use dummy_client.Outcome.{Outcome, ok}
use dummy_client.Trace.{closed}
use dummy_client.Trace.Logs.{none_more, one_more}
use dummy_client.Packet.State.{Packet, Session}
use dummy_client.Packet.Reading.{
  Holds, moved, with_error, read_int-Holds, read_int-short, is_eod-Holds, moved-Holds,
}
use dummy_client.Os.{Os}
use dummy_client.Connect.{World, close_to_server}
use dummy_client.Connect.Count.{
  ClosedOnce, OnlyLogs-Unclosed, Unclosed-ClosedOnce, closed-ClosedOnce,
}
use dummy_client.Commands.{read_reply}

module _ {N : Type 0} (os : Os N) (sock : ℤ) where
  -- A run that returned and closed the socket once.
  pub record Settled (good : N → ℤ → Type 0) (w : World N) (r : Outcome (Option ℤ × World N))
      : Type 0 where
    pub value : Option ℤ
    pub world : World N
    pub runs : r ≡ ok (value, world)
    pub once : ClosedOnce sock w.trace world.trace
    pub means : (errorcode : ℤ) → value ≡ some errorcode → good world.net errorcode

  -- The body of a reply: one number.
  pub record Number (body : List ℕ) (errorcode : ℤ) : Type 0 where
    pub four : length body ≡ 4
    pub number_is : errorcode ≡ signed32 (swap32 (load32 body))

  -- What `read_reply` leaves behind: the number with the socket still open, or nothing.
  pub data Read (body : List ℕ) (w : World N) (r : Outcome (Option ℤ × World N)) : Type 0 where
    refused : (w' : World N) → r ≡ ok (none, w') → ClosedOnce sock w.trace w'.trace → Read body w r
    number : (errorcode : ℤ) → r ≡ ok (some errorcode, w) → Number body errorcode → Read body w r

  session_of : Packet → World N → Session N
  session_of p w = record { packet = p; net = w.net; trace = w.trace }

  too_short :
      (p : Packet) (body : List ℕ) (w : World N)
      → Holds p [] body
      → length body < 4
      → Read body w (read_reply os sock p w)
  unfolding read_reply close_to_server session_of
  too_short p body w h short =
      let s : Session N = session_of p w in
      refused
        (record {
          net = (os.close sock w.net).1;
          trace = closed sock ∷ (with_error s "CPacket::CheckDataExists" (pos 4)).trace;
        })
        (ground (arith, read_int-short s [] body h short))
        (Unclosed-ClosedOnce (OnlyLogs-Unclosed (one_more _ none_more)) (closed-ClosedOnce sock _))

  number_or_more :
      (p : Packet) (a b c d : ℕ) (rest : List ℕ) (w : World N)
      → Holds p [] (a ∷ b ∷ c ∷ d ∷ rest)
      → Read (a ∷ b ∷ c ∷ d ∷ rest) w (read_reply os sock p w)
  unfolding read_reply close_to_server session_of
  number_or_more p a b c d [] w h =
      let s : Session N = session_of p w in
      number _
        (ground (
          arith,
          read_int-Holds s [] [] a b c d h,
          is_eod-Holds (moved s 4) (a ∷ b ∷ c ∷ d ∷ []) []
              (moved-Holds s [] (a ∷ b ∷ c ∷ d ∷ []) [] h),
        ))
        (record { four = omega arith; number_is = refl })
  number_or_more p a b c d (e ∷ rest) w h =
      let s : Session N = session_of p w in
      refused (record { net = (os.close sock w.net).1; trace = closed sock ∷ w.trace })
        (ground (
          arith,
          read_int-Holds s [] (e ∷ rest) a b c d h,
          is_eod-Holds (moved s 4) (a ∷ b ∷ c ∷ d ∷ []) (e ∷ rest)
              (moved-Holds s [] (a ∷ b ∷ c ∷ d ∷ []) (e ∷ rest) h),
        ))
        (closed-ClosedOnce sock w.trace)

  pub read_reply-Read :
      (p : Packet) (body : List ℕ) (w : World N)
      → Holds p [] body
      → Read body w (read_reply os sock p w)
  read_reply-Read p [] w h = too_short p [] w h (omega arith)
  read_reply-Read p (a ∷ []) w h = too_short p (a ∷ []) w h (omega arith)
  read_reply-Read p (a ∷ b ∷ []) w h = too_short p (a ∷ b ∷ []) w h (omega arith)
  read_reply-Read p (a ∷ b ∷ c ∷ []) w h = too_short p (a ∷ b ∷ c ∷ []) w h (omega arith)
  read_reply-Read p (a ∷ b ∷ c ∷ d ∷ rest) w h = number_or_more p a b c d rest w h
