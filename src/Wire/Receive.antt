-- ===== src/Wire/Receive.antt =====
-- The loop of `ReceivePacket`: it fills the array from the wire.
use Prim.Native.String.{String}
use dummy_client.Common.{ℕ, zero, suc, ◌+◌, ◌-◌, ◌≤◌, ◌<◌, ◌≡◌, ◌∙◌, refl, sym, ap, arith}
use dummy_client.Common.{
  Option, none, some, List, [], ◌∷◌, ◌++◌, map, Bool, true, false, length, drop,
}
use dummy_client.Common.{
  ◌⊎◌, inl, inr, length-append, length-map, length-drop, append_assoc, append-nil, map-append,
}
use mathlib.Core.Path.{subst}
use dummy_client.Common.Int.{ℤ, pos}
use dummy_client.Trace.{Trace, logged, error, text_param}
use dummy_client.Outcome.{Outcome, ok}
use dummy_client.Packet.State.{Cell, Packet, Session, cells, store}
use dummy_client.Packet.Memory.{store-append}
use dummy_client.Packet.Writes.{poke}
use dummy_client.Os.{Os, ReadLaws}
use dummy_client.Wire.{read_some, receive_some, receive_loop}

-- The array of `n` bytes holds `got` up to the pointer, and `slack` is still to be filled.
pub record Filling (p : Packet) (got : List ℕ) (slack : List Cell) : Type 0 where
  pub is_data : cells p.str_data ≡ map some got ++ slack
  pub is_length : p.data_length ≡ pos (length got + length slack)
  pub is_pointer : p.data_pointer ≡ length got

-- The session with another array, pointer, network and trace.
abbrev pub refilled : {N : Type 0} → Session N → Option (List Cell) → ℕ → N → Trace → Session N
refilled s d n w t = record s {
  packet = record s.packet { str_data = d; data_pointer = n };
  net = w;
  trace = t;
}

abbrev pub read_error : {N : Type 0} → Session N → String → Trace
read_error s name =
    logged (record {
      level = error;
      message = name;
      sockfd = s.packet.client_sockfd;
      param = text_param "read()";
    })
    ∷ s.trace

module _ {N : Type 0} (os : Os N) (name : String) where
  module _ (s : Session N) (got : List ℕ) (slack : List Cell) (h : Filling s.packet got slack) where
    stored :
        (bs : List ℕ)
        → length bs ≤ length slack
        → store s.packet.data_pointer bs (cells s.packet.str_data)
          ≡ ok ((map some got ++ map some bs) ++ drop (length bs) slack)
    stored bs fits = rw h.is_data (
        store-append s.packet.data_pointer (map some got) slack bs
          (omega (arith, h.is_pointer, length-map {0, 0} some got)) fits)

    abbrev pub filled : List ℕ → N → Session N
    filled bs w =
        refilled s (some ((map some got ++ map some bs) ++ drop (length bs) slack))
          (s.packet.data_pointer + length bs) w s.trace

    -- What the loop asks `read` for.
    wanted : length got + length slack - s.packet.data_pointer ≡ length slack
    wanted = omega (arith, h.is_pointer)

    pub receive_some-goes :
        (b : ℕ) (bs : List ℕ) (w : N)
        → os.read s.packet.client_sockfd (length slack) s.net ≡ (some (b ∷ bs), w)
        → length (b ∷ bs) ≤ length slack
        → receive_some os name s ≡ ok (true, filled (b ∷ bs) w)
    unfolding receive_some read_some poke
    receive_some-goes b bs w e fits = ground (arith, stored (b ∷ bs) fits, h.is_length, wanted)

    -- Nothing read, or -1: one error line, and FALSE.
    receive_some-fails :
        (r : Option (List ℕ)) (w : N)
        → os.read s.packet.client_sockfd (length slack) s.net ≡ (r, w)
        → (r ≡ none) ⊎ (r ≡ some [])
        → receive_some os name s ≡ ok (false, record s { net = w; trace = read_error s name })
    unfolding receive_some read_some
    receive_some-fails r w e (inl p) = ground (arith, h.is_length, wanted)
    receive_some-fails r w e (inr p) = ground (arith, h.is_length, wanted)

    pub filled-Filling :
        (bs : List ℕ) (w : N)
        → length bs ≤ length slack
        → Filling (filled bs w).packet (got ++ bs) (drop (length bs) slack)
    filled-Filling bs w fits = record {
      is_data = ap (λ cs. cs ++ drop (length bs) slack) (sym (map-append some got bs));
      is_length =
          h.is_length ∙ ap pos (omega (arith, length-append got bs, length-drop (length bs) slack));
      is_pointer = omega (arith, length-append got bs, h.is_pointer);
    }

  pub receive_loop-ends :
      (fuel : ℕ) (s : Session N) (got : List ℕ) (slack : List Cell)
      → Filling s.packet got slack
      → length slack ≡ 0
      → receive_loop os name (suc fuel) s ≡ ok (true, s)
  unfolding receive_loop
  receive_loop-ends fuel s got slack h e = ground (arith, h.is_length, h.is_pointer)

  receive_loop-stops :
      (fuel : ℕ) (s s' : Session N) (got : List ℕ) (slack : List Cell)
      → Filling s.packet got slack
      → 1 ≤ length slack
      → receive_some os name s ≡ ok (false, s')
      → receive_loop os name (suc fuel) s ≡ ok (false, s')
  unfolding receive_loop
  receive_loop-stops fuel s s' got slack h left e = ground (arith, h.is_length, h.is_pointer)

  pub receive_loop-goes :
      (fuel : ℕ) (s s' : Session N) (got : List ℕ) (slack : List Cell)
      → Filling s.packet got slack
      → 1 ≤ length slack
      → receive_some os name s ≡ ok (true, s')
      → receive_loop os name (suc fuel) s ≡ receive_loop os name fuel s'
  unfolding receive_loop
  receive_loop-goes fuel s s' got slack h left e = ground (arith, h.is_length, h.is_pointer)

module _ {N : Type 0} (os : Os N) (incoming : ℤ → N → List ℕ) (laws : ReadLaws os incoming)
    (name : String) where
  -- What a run of the loop leaves: `more` has been read behind `got`, and all of it on TRUE.
  pub record ReceivedData (s : Session N) (got : List ℕ) (n : ℕ) (r : Outcome (Bool × Session N))
      : Type 0 where
    pub done : Bool
    pub more : List ℕ
    pub slack : List Cell
    pub cells_at : Option (List Cell)
    pub at : ℕ
    pub net : N
    pub trace : Trace
    pub runs : r ≡ ok (done, refilled s cells_at at net trace)
    pub filling : Filling (refilled s cells_at at net trace).packet (got ++ more) slack
    pub size : length got + length more + length slack ≡ n
    pub consumed :
        incoming s.packet.client_sockfd s.net ≡ more ++ incoming s.packet.client_sockfd net
    pub whole : done ≡ true → length slack ≡ 0

  -- What the loop does on so much fuel.
  abbrev LoopReceives : ℕ → Type 0
  LoopReceives fuel =
      (s : Session N) (got : List ℕ) (slack : List Cell)
      → Filling s.packet got slack
      → length slack < fuel
      → ReceivedData s got (length got + length slack) (receive_loop os name fuel s)

  module _ (fuel : ℕ) (s : Session N) (got : List ℕ) (slack : List Cell)
      (h : Filling s.packet got slack) where
    received_nothing :
        (r : Option (List ℕ)) (w : N)
        → 1 ≤ length slack
        → os.read s.packet.client_sockfd (length slack) s.net ≡ (r, w)
        → (r ≡ none) ⊎ (r ≡ some [])
        → incoming s.packet.client_sockfd s.net ≡ incoming s.packet.client_sockfd w
        → ReceivedData s got (length got + length slack) (receive_loop os name (suc fuel) s)
    received_nothing r w left e nothing same = record {
      done = false;
      more = [];
      slack = slack;
      cells_at = s.packet.str_data;
      at = s.packet.data_pointer;
      net = w;
      trace = read_error s name;
      runs =
          receive_loop-stops os name fuel s _ got slack h left
            (receive_some-fails os name s got slack h r w e nothing);
      filling = subst (λ xs. Filling s.packet xs slack) (sym (append-nil got)) h;
      size = omega arith;
      consumed = same;
      whole = λ p. cc;
    }

    received_some :
        (b : ℕ) (bs : List ℕ) (w : N)
        → 1 ≤ length slack
        → os.read s.packet.client_sockfd (length slack) s.net ≡ (some (b ∷ bs), w)
        → (length (b ∷ bs) ≤ length slack)
        → incoming s.packet.client_sockfd s.net ≡ (b ∷ bs) ++ incoming s.packet.client_sockfd w
        → (let s' = filled os name s got slack h (b ∷ bs) w in
            ReceivedData s'
              (got ++ (b ∷ bs))
              (length (got ++ (b ∷ bs)) + length (drop (length (b ∷ bs)) slack))
              (receive_loop os name fuel s'))
        → ReceivedData s got (length got + length slack) (receive_loop os name (suc fuel) s)
    received_some b bs w left e fits came rest = record {
      done = rest.done;
      more = (b ∷ bs) ++ rest.more;
      slack = rest.slack;
      cells_at = rest.cells_at;
      at = rest.at;
      net = rest.net;
      trace = rest.trace;
      runs =
          receive_loop-goes os name fuel s _ got slack h left
            (receive_some-goes os name s got slack h b bs w e fits)
          ∙ rest.runs;
      filling =
          subst
            (λ xs.
              Filling (refilled s rest.cells_at rest.at rest.net rest.trace).packet xs rest.slack)
            (append_assoc got (b ∷ bs) rest.more) rest.filling;
      size = omega (
        arith,
        rest.size,
        length-append got (b ∷ bs),
        length-append (b ∷ bs) rest.more,
        length-drop (length (b ∷ bs)) slack,
      );
      consumed =
          came
          ∙ ap (λ xs. (b ∷ bs) ++ xs) rest.consumed
          ∙ sym (append_assoc (b ∷ bs) rest.more (incoming s.packet.client_sockfd rest.net));
      whole = rest.whole;
    }

    -- By what `read` returned.
    received_round :
        (r : Option (List ℕ)) (w : N)
        → LoopReceives fuel
        → 1 ≤ length slack
        → length slack < suc fuel
        → os.read s.packet.client_sockfd (length slack) s.net ≡ (r, w)
        → ReceivedData s got (length got + length slack) (receive_loop os name (suc fuel) s)
    received_round none w ih left enough e =
        received_nothing none w left e (inl refl) (sym (laws.read_none _ _ _ _ e))
    received_round (some []) w ih left enough e =
        received_nothing (some []) w left e (inr refl) (laws.read_some _ _ _ _ _ e).1
    received_round (some (b ∷ bs)) w ih left enough e =
        let (fits, came) = laws.read_some _ _ _ _ _ e in
        received_some b bs w left e fits came (
          ih (filled os name s got slack h (b ∷ bs) w) (got ++ (b ∷ bs))
            (drop (length (b ∷ bs)) slack) (filled-Filling os name s got slack h (b ∷ bs) w fits)
            (omega (arith, length-drop (length (b ∷ bs)) slack)))

  -- With a round for each missing byte and one more, the loop never runs out of fuel.
  pub receive_loop-ReceivedData : (fuel : ℕ) → LoopReceives fuel
  receive_loop-ReceivedData zero s got slack h enough = absurd (omega arith)
  receive_loop-ReceivedData (suc fuel) s got [] h enough = record {
    done = true;
    more = [];
    slack = [];
    cells_at = s.packet.str_data;
    at = s.packet.data_pointer;
    net = s.net;
    trace = s.trace;
    runs = receive_loop-ends os name fuel s got [] h refl;
    filling = subst (λ xs. Filling s.packet xs []) (sym (append-nil got)) h;
    size = omega arith;
    consumed = refl;
    whole = λ p. refl;
  }
  receive_loop-ReceivedData (suc fuel) s got (c ∷ slack) h enough =
      received_round fuel s got (c ∷ slack) h _ _ (receive_loop-ReceivedData fuel) (omega arith)
        enough refl
