-- ===== src/Connect/Even.antt =====
-- Runs that return and close a descriptor as often as they open it.
use Prim.Native.String.{String}
use dummy_client.Common.{◌+◌, ◌≡◌, refl, arith, Bool, true, false, if◌then◌else◌}
use dummy_client.Common.Int.{ℤ}
use dummy_client.Trace.{Level, Param}
use dummy_client.Outcome.{Outcome, ok}
use dummy_client.Connect.{C, World, ◌>>=◌, pure, log_line}
use dummy_client.Connect.Balance.{opens, closes}

module _ {N : Type 0} (fd : ℤ) where
  pub record Even {A : Type 0} (w : World N) (r : Outcome (A × World N)) : Type 0 where
    pub value : A
    pub world : World N
    pub runs : r ≡ ok (value, world)
    pub balance :
        opens fd world.trace + closes fd w.trace ≡ closes fd world.trace + opens fd w.trace

  -- The same from every world.
  pub record Evens {A : Type 0} (m : C N A) : Type 0 where
    pub even : (w : World N) → Even w (m w)

  pub pure-Evens : {A : Type 0} (a : A) → Evens (pure a)
  pure-Evens a = record {
    even = λ w. record { value = a; world = w; runs = refl; balance = omega arith };
  }

  pub log_line-Evens :
      (level : Level) (message : String) (sock : ℤ) (param : Param)
      → Evens (log_line level message sock param)
  unfolding opens closes
  log_line-Evens level message sock param = record {
    even = λ w. record { value = tt; world = _; runs = refl; balance = omega arith };
  }

  pub bind-Evens :
      {A B : Type 0} {m : C N A} {f : A → C N B}
      → Evens m
      → ((a : A) → Evens (f a))
      → Evens (m >>= f)
  bind-Evens h k = record {
    even = λ w.
        let x = h.even w in
        let y = (k x.value).even x.world in
        record {
          value = y.value;
          world = y.world;
          runs = rw (◌>>=◌, x.runs) y.runs;
          balance = omega (arith, x.balance, y.balance);
        };
  }

  pub if-Evens :
      {A : Type 0} (b : Bool) {m k : C N A} → Evens m → Evens k → Evens (if b then m else k)
  if-Evens true h j = h
  if-Evens false h j = j
