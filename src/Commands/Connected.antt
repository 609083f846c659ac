-- ===== src/Commands/Connected.antt =====
-- A command: a connection is made, and what follows closes it.
use dummy_client.Common.{ℕ, ◌+◌, ◌≡◌, refl, arith, Bool, true, false, Option, none, some, List}
use dummy_client.Common.Int.{ℤ, pos}
use dummy_client.Outcome.{Outcome, ok}
use dummy_client.Os.{Os}
use dummy_client.Connect.{C, World, ◌>>=◌, pure, connect_loop, connect_tries}
use dummy_client.Connect.Balance.{
  is, opens, closes, Looped, is-zero, is_held, Closing, connect_loop-balance,
}
use dummy_client.Connect.Count.{ClosedOnce}

module _ {N : Type 0} where
  -- A run that returned and closed the socket once; `Good` holds if it returned TRUE.
  pub record Done (sock : ℤ) (Good : N → Type 0) (w : World N) (r : Outcome (Bool × World N))
      : Type 0 where
    pub done : Bool
    pub world : World N
    pub runs : r ≡ ok (done, world)
    pub once : ClosedOnce sock w.trace world.trace
    pub means : done ≡ true → Good world.net

  -- A command that returned, and closed the descriptor as often as it opened it. If it returned
  -- TRUE, `connecting` gave a socket, and `Good` holds of it, of the world behind the connection
  -- and of the network behind the command.
  pub record Reported (fd : ℤ) (connecting : C N (Option ℤ)) (Good : ℤ → World N → N → Type 0)
      (w : World N) (r : Outcome (Bool × World N)) : Type 0 where
    pub done : Bool
    pub world : World N
    pub runs : r ≡ ok (done, world)
    pub balance :
        opens fd world.trace + closes fd w.trace ≡ closes fd world.trace + opens fd w.trace
    pub means :
        done ≡ true
        → (sock : ℤ) × (start : World N) × (connecting w ≡ ok (some sock, start))
          × Good sock start world.net

  -- What the commands do with the result of the loop of tries.
  abbrev pub on_socket : (ℤ → C N Bool) → Option ℤ → C N Bool
  on_socket body r = elim r [ none ↦ pure false | some sock ↦ body sock ]

  module _ (os : Os N) (fd : ℤ) (h : ¬ (fd ≡ pos 0)) (give_up : ℤ → C N (Unit {0}))
      (closing : Closing fd give_up) (ip : List ℕ) (port : ℤ) (body : ℤ → C N Bool)
      (Good : ℤ → World N → N → Type 0) (w : World N)
      (finishes : (sock : ℤ) (w' : World N)
        → connect_loop os give_up ip port connect_tries (pos 0) w ≡ ok (some sock, w')
        → Done sock (Good sock w') w' (body sock w')) where
    after_connect :
        (w' : World N) (value : Option ℤ)
        → connect_loop os give_up ip port connect_tries (pos 0) w ≡ ok (value, w')
        → opens fd w'.trace + closes fd w.trace + is fd (pos 0)
          ≡ closes fd w'.trace + opens fd w.trace + is_held fd value
        → Reported fd
            (connect_loop os give_up ip port connect_tries (pos 0))
            Good
            w
            ((connect_loop os give_up ip port connect_tries (pos 0) >>= on_socket body) w)
    unfolding is_held
    after_connect w' none e balance = record {
      done = false;
      world = w';
      runs = rw (◌>>=◌, e) refl;
      balance = omega (arith, balance, is-zero fd h);
      means = λ p. cc;
    }
    after_connect w' (some sock) e balance =
        let d : Done sock (Good sock w') w' (body sock w') = finishes sock w' e in
        record {
          done = d.done;
          world = d.world;
          runs = rw (◌>>=◌, e) d.runs;
          balance = ground (arith, balance, is-zero fd h, d.once.counts fd);
          means = λ p. (sock, w', e, d.means p);
        }

    pub connected-Reported :
        Reported fd
          (connect_loop os give_up ip port connect_tries (pos 0))
          Good
          w
          ((connect_loop os give_up ip port connect_tries (pos 0) >>= on_socket body) w)
    connected-Reported =
        let l : Looped fd (pos 0) w (connect_loop os give_up ip port connect_tries (pos 0) w) =
          connect_loop-balance os fd give_up closing h ip port 99 w in
        after_connect l.world l.value l.runs l.balance
