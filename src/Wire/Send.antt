-- ===== src/Wire/Send.antt =====
-- `SendPacket` puts a prefix of the frame on the wire, and the whole frame if it returns TRUE.
use dummy_client.Common.{ℕ, zero, suc, ◌+◌, ◌-◌, ◌≤◌, ◌<◌, ◌≡◌, ◌∙◌, refl, sym, ap, arith}
use dummy_client.Common.{◌⊎◌, inl, inr, Option, none, some, List, ◌∷◌, ◌++◌, Bool, true, false}
use dummy_client.Common.{length, length-take, take, drop, take-take, take-append-of_drop}
use dummy_client.Common.{append_assoc, append-nil}
use native.Mathlib.Decide.{dec_lt}
use dummy_client.Common.Int.{ℤ, pos, negsuc}
use dummy_client.Trace.{Trace, logged, error, text_param}
use dummy_client.Outcome.{Outcome, ok}
use dummy_client.Packet.State.{Cell, Session, cells, load}
use dummy_client.Packet.Memory.{load-map}
use dummy_client.Packet.Build.{Built}
use dummy_client.Os.{Os, WriteLaws}
use dummy_client.Wire.{chunk_size, write_some, send_some, send_loop}

-- The session after some traffic and some log lines.
abbrev pub after : {N : Type 0} → Session N → N → Trace → Session N
after s w t = record s { net = w; trace = t }

-- The trace with the error line of a failed `write`.
abbrev write_error : {N : Type 0} → Session N → Trace
write_error s =
    logged (record {
      level = error;
      message = "CPacket::SendPacket";
      sockfd = s.packet.client_sockfd;
      param = text_param "write()";
    })
    ∷ s.trace

pub chunk_size_bounds : (left : ℕ) → 1 ≤ left → (1 ≤ chunk_size left) × (chunk_size left ≤ left)
unfolding chunk_size
chunk_size_bounds left h = ground arith

module _ {N : Type 0} (os : Os N) (sent : ℤ → N → List ℕ) (laws : WriteLaws os sent) where
  -- One `write` of the loop: how much of what was left it sent, and whether the loop goes on.
  record SentSome (s : Session N) (bs : List ℕ) (total : ℕ) (r : Outcome (Option ℕ × Session N))
      : Type 0 where
    taken : ℕ
    more : Option ℕ
    net : N
    trace : Trace
    runs : r ≡ ok (more, after s net trace)
    within : total + taken ≤ length bs
    sent_is :
        sent s.packet.client_sockfd net
        ≡ sent s.packet.client_sockfd s.net ++ take taken (drop total bs)
    more_is : (more ≡ none) ⊎ ((more ≡ some taken) × (1 ≤ taken))

  module _ (s : Session N) (bs : List ℕ) (total : ℕ) where
    -- The chunk that the next `write` is given.
    abbrev pub chunk : List ℕ
    chunk = take (chunk_size (length bs - total)) (drop total bs)

    pub chunk-load :
        (slack : List Cell)
        → Built s.packet bs slack
        → total < length bs
        → load total (chunk_size (s.packet.data_pointer - total)) (cells s.packet.str_data)
          ≡ ok chunk
    chunk-load slack h left =
        rw (h.is_data, h.is_pointer)
          (load-map total (chunk_size (length bs - total)) bs slack
            (omega (arith, chunk_size_bounds (length bs - total) (omega arith))))

    -- By what `write` returned.
    SentSome-write :
        (z : ℤ) (w : N) (slack : List Cell)
        → Built s.packet bs slack
        → total < length bs
        → os.write s.packet.client_sockfd chunk s.net ≡ (z, w)
        → SentSome s bs total (send_some os total s)
    unfolding send_some write_some
    SentSome-write (negsuc k) w slack h left e = record {
      taken = 0;
      more = none;
      net = w;
      trace = write_error s;
      runs = ground (arith, chunk-load slack h left);
      within = omega arith;
      sent_is = laws.write_none _ _ _ _ _ e ∙ sym (append-nil _);
      more_is = inl refl;
    }
    SentSome-write (pos zero) w slack h left e = record {
      taken = 0;
      more = none;
      net = w;
      trace = write_error s;
      runs = ground (arith, chunk-load slack h left);
      within = omega arith;
      sent_is = (laws.write_some _ _ _ _ _ e).1;
      more_is = inl refl;
    }
    SentSome-write (pos (suc k)) w slack h left e = record {
      taken = suc k;
      more = some (suc k);
      net = w;
      trace = s.trace;
      runs = ground (arith, chunk-load slack h left);
      within = omega (
        arith,
        (laws.write_some _ _ _ _ _ e).0,
        length-take (chunk_size (length bs - total)) (drop total bs),
        chunk_size_bounds (length bs - total) (omega arith),
      );
      sent_is =
          (laws.write_some _ _ _ _ _ e).1
          ∙ ap (λ xs. sent s.packet.client_sockfd s.net ++ xs)
              (take-take (suc k) (chunk_size (length bs - total)) (drop total bs) (
                omega (
                  arith,
                  (laws.write_some _ _ _ _ _ e).0,
                  length-take (chunk_size (length bs - total)) (drop total bs),
                )));
      more_is = inr (refl, omega arith);
    }

  -- What a run of the loop leaves: how many bytes of the data have gone out.
  pub record SentData (s : Session N) (bs : List ℕ) (base : List ℕ) (r : Outcome (Bool × Session N))
      : Type 0 where
    pub done : Bool
    pub total : ℕ
    pub net : N
    pub trace : Trace
    pub runs : r ≡ ok (done, after s net trace)
    pub within : total ≤ length bs
    pub sent_is : sent s.packet.client_sockfd net ≡ base ++ take total bs
    pub whole : done ≡ true → total ≡ length bs

  pub send_loop-ends :
      (fuel : ℕ) (s : Session N) (total : ℕ)
      → s.packet.data_pointer ≤ total
      → send_loop os (suc fuel) total s ≡ ok (true, s)
  unfolding send_loop
  send_loop-ends fuel s total h = ground arith

  send_loop-stops :
      (fuel : ℕ) (s s' : Session N) (total : ℕ)
      → total < s.packet.data_pointer
      → send_some os total s ≡ ok (none, s')
      → send_loop os (suc fuel) total s ≡ ok (false, s')
  unfolding send_loop
  send_loop-stops fuel s s' total h e = ground arith

  pub send_loop-goes :
      (fuel : ℕ) (s s' : Session N) (total k : ℕ)
      → total < s.packet.data_pointer
      → send_some os total s ≡ ok (some k, s')
      → send_loop os (suc fuel) total s ≡ send_loop os fuel (total + k) s'
  unfolding send_loop
  send_loop-goes fuel s s' total k h e = ground arith

  sent_more :
      (bs base had : List ℕ) (total k : ℕ)
      → had ≡ base ++ take total bs
      → had ++ take k (drop total bs) ≡ base ++ take (total + k) bs
  sent_more bs base had total k e =
      ap (λ xs. xs ++ take k (drop total bs)) e
      ∙ append_assoc base (take total bs) (take k (drop total bs))
      ∙ ap (λ xs. base ++ xs) (take-append-of_drop total k bs)

  -- With a round for each byte and one more, the loop never runs out of fuel.
  pub send_loop-sends :
      (fuel : ℕ) (s : Session N) (bs base : List ℕ) (slack : List Cell) (total : ℕ)
      → Built s.packet bs slack
      → length bs < total + fuel
      → total ≤ length bs
      → sent s.packet.client_sockfd s.net ≡ base ++ take total bs
      → SentData s bs base (send_loop os fuel total s)
  send_loop-sends zero s bs base slack total h enough within e = absurd (omega arith)
  send_loop-sends (suc fuel) s bs base slack total h enough within e =
      elim (dec_lt total (length bs)) [
        | no finished ↦ record {
          done = true;
          total = total;
          net = s.net;
          trace = s.trace;
          runs = send_loop-ends fuel s total (omega (arith, h.is_pointer));
          within = within;
          sent_is = e;
          whole = λ _. omega arith;
        }
        | yes left ↦
            let step : SentSome s bs total (send_some os total s) =
              SentSome-write s bs total _ _ slack h left refl in
            elim step.more_is [
              | inl stop ↦ record {
                done = false;
                total = total + step.taken;
                net = step.net;
                trace = step.trace;
                runs =
                    send_loop-stops fuel s _ total (omega (arith, h.is_pointer))
                      (step.runs ∙ ap (λ m. ok (m, after s step.net step.trace)) stop);
                within = step.within;
                sent_is = step.sent_is ∙ sent_more bs base _ total step.taken e;
                whole = λ p. cc;
              }
              | inr (goes, progress) ↦
                  let rest : SentData (after s step.net step.trace) bs base
                      (send_loop os fuel (total + step.taken) (after s step.net step.trace)) =
                    send_loop-sends fuel (after s step.net step.trace) bs base slack
                      (total + step.taken) h (omega arith) step.within
                      (step.sent_is ∙ sent_more bs base _ total step.taken e) in
                  record {
                    done = rest.done;
                    total = rest.total;
                    net = rest.net;
                    trace = rest.trace;
                    runs =
                        send_loop-goes fuel s _ total step.taken (omega (arith, h.is_pointer))
                          (step.runs ∙ ap (λ m. ok (m, after s step.net step.trace)) goes)
                        ∙ rest.runs;
                    within = rest.within;
                    sent_is = rest.sent_is;
                    whole = rest.whole;
                  }
            ]
      ]
