-- ===== src/Wire/Filled.antt =====
-- The data behind a length: `receive_data` fills the packet and puts its pointer back.
use Prim.Native.String.{String}
use dummy_client.Common.{ℕ, suc, ◌^◌, ◌<◌, ◌≡◌, ◌∙◌, refl, ap, arith}
use dummy_client.Common.{none, some, List, [], ◌∷◌, ◌++◌, map, Bool, true, false, length, replicate}
use dummy_client.Common.{inl, inr, length-replicate, append-nil, Bool-cases}
use mathlib.Core.Path.{subst}
use dummy_client.Common.Int.{ℤ, pos, negsuc, FitsAt, sub_int, signed32_fits, bits32-lt}
use dummy_client.Trace.{Trace, logged, error, text_param}
use dummy_client.Outcome.{Outcome, ok}
use dummy_client.Packet.State.{Cell, Packet, Session, M}
use dummy_client.Packet.Build.{SameHead}
use dummy_client.Packet.Reading.{Holds}
use dummy_client.Os.{Os, ReadLaws}
use dummy_client.Wire.{body_length, receive_loop, receive_data, rewind, report_always}
use dummy_client.Wire.Receive.{Filling, ReceivedData, refilled, receive_loop-ReceivedData}

-- The session with another packet, network and trace.
abbrev pub renewed : {N : Type 0} → Session N → Packet → N → Trace → Session N
renewed s p w t = record { packet = p; net = w; trace = t }

-- What runs at the end of a receive: it puts the pointer back to 0, and may log.
abbrev pub Rewinds : {N : Type 0} → M N Bool → Type 0
Rewinds {N} report =
    (s : Session N)
    → (t : Trace) × (report s ≡ ok (true, renewed s (record s.packet { data_pointer = 0 }) s.net t))

pub report_always-Rewinds : {N : Type 0} (os : Os N) → Rewinds (report_always os)
unfolding report_always rewind
report_always-Rewinds os s = (_, refl)

-- A length that passes the test is that of an array.
pub body_length_small : (h : List ℕ) (n : ℕ) → body_length h ≡ pos n → n < 2 ^ 31
unfolding body_length sub_int
body_length_small h n e = fits_pos (signed32_fits _ (bits32-lt _)) e
  where
    fits_pos : {z : ℤ} → FitsAt (2 ^ 32) z → z ≡ pos n → n < 2 ^ 31
    fits_pos {z = pos m} f p = ground arith
    fits_pos {z = negsuc m} f p = cc

-- The trace with an error line that has a text.
abbrev pub text_error : {N : Type 0} → Session N → String → String → Trace
text_error s name text =
    logged (record {
      level = error;
      message = name;
      sockfd = s.packet.client_sockfd;
      param = text_param text;
    })
    ∷ s.trace

pub pos-injective : (m n : ℕ) → pos m ≡ pos n → m ≡ n
pos-injective m n e = cc

nil_of_length : {A : Type 0} (xs : List A) → length xs ≡ 0 → xs ≡ []
nil_of_length [] e = refl
nil_of_length (x ∷ xs) e = absurd (omega arith)

module _ {N : Type 0} (os : Os N) (incoming : ℤ → N → List ℕ) (laws : ReadLaws os incoming) where
  -- What `receive_data` leaves: on TRUE the next `n` bytes, to be read from the first.
  pub record Filled (s : Session N) (n : ℕ) (r : Outcome (Bool × Session N)) : Type 0 where
    pub done : Bool
    pub packet : Packet
    pub net : N
    pub trace : Trace
    pub runs : r ≡ ok (done, renewed s packet net trace)
    pub head : SameHead s.packet packet
    pub body : List ℕ
    pub consumed :
        incoming s.packet.client_sockfd s.net ≡ body ++ incoming s.packet.client_sockfd net
    pub whole : done ≡ true → (length body ≡ n) × Holds packet [] body

  module _ (name : String) (report : M N Bool) (rewinds : Rewinds report) where
    -- The session in which the loop starts.
    abbrev pub fresh : Session N → ℕ → Session N
    fresh s n = record s {
      packet = record s.packet { str_data = some (replicate n none); data_pointer = 0 };
    }

    pub fresh-Filling :
        (s : Session N) (n : ℕ)
        → s.packet.data_length ≡ pos n
        → Filling (fresh s n).packet [] (replicate n none)
    fresh-Filling s n e = record {
      is_data = refl;
      is_length = e ∙ ap pos (omega (arith, length-replicate {A = Cell} n none));
      is_pointer = refl;
    }

    -- With nothing left to fill, the packet is ready to be read.
    all_read :
        (s : Session N) (n : ℕ)
        → n < 2 ^ 31
        → (d : ReceivedData os incoming laws name
            (fresh s n)
            []
            n
            (receive_loop os name (suc n) (fresh s n)))
        → length d.slack ≡ 0
        → Holds
            (record (refilled (fresh s n) d.cells_at d.at d.net d.trace).packet {
              data_pointer = 0;
            })
            []
            d.more
    all_read s n small d e = record {
      is_data =
          d.filling.is_data
          ∙ ap (λ cs. map some d.more ++ cs) (nil_of_length d.slack e)
          ∙ append-nil (map some d.more);
      is_length = d.filling.is_length ∙ ap pos (omega arith);
      is_pointer = refl;
      bounded = omega (arith, d.size);
    }

    receive_data-by :
        (s : Session N) (n : ℕ)
        → s.packet.data_length ≡ pos n
        → n < 2 ^ 31
        → ReceivedData os incoming laws name
            (fresh s n)
            []
            n
            (receive_loop os name (suc n) (fresh s n))
        → Filled s n (receive_data os name report s)
    unfolding receive_data
    receive_data-by s n e small d = elim (Bool-cases d.done) [
      | inr stopped ↦ record {
        done = false;
        packet = (refilled (fresh s n) d.cells_at d.at d.net d.trace).packet;
        net = d.net;
        trace = d.trace;
        runs = ground (arith, d.runs, e, stopped);
        head = record { category = refl; command = refl; client_sockfd = refl; logflag = refl };
        body = d.more;
        consumed = d.consumed;
        whole = λ p. cc;
      }
      | inl whole ↦ record {
        done = true;
        packet = record (refilled (fresh s n) d.cells_at d.at d.net d.trace).packet {
          data_pointer = 0;
        };
        net = d.net;
        trace = (rewinds (refilled (fresh s n) d.cells_at d.at d.net d.trace)).0;
        runs = ground (
          arith,
          d.runs,
          e,
          whole,
          (rewinds (refilled (fresh s n) d.cells_at d.at d.net d.trace)).1,
        );
        head = record { category = refl; command = refl; client_sockfd = refl; logflag = refl };
        body = d.more;
        consumed = d.consumed;
        whole = λ p. (omega (arith, d.size, d.whole whole), all_read s n small d (d.whole whole));
      }
    ]

    pub receive_data-Filled :
        (s : Session N) (n : ℕ)
        → s.packet.data_length ≡ pos n
        → n < 2 ^ 31
        → Filled s n (receive_data os name report s)
    receive_data-Filled s n e small = receive_data-by s n e small (
        subst
          (λ m.
            ReceivedData os incoming laws name (fresh s n) [] m
              (receive_loop os name (suc n) (fresh s n)))
          (omega (arith, length-replicate {A = Cell} n none))
          (receive_loop-ReceivedData os incoming laws name (suc n) (fresh s n) [] (replicate n none)
            (fresh-Filling s n e) (omega (arith, length-replicate {A = Cell} n none))))
