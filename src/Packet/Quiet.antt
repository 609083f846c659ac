-- ===== src/Packet/Quiet.antt =====
-- Methods that do nothing to the trace but log.
use dummy_client.Common.{Option, none, some, Bool, true, false, if◌then◌else◌}
use dummy_client.Outcome.{Outcome, ok, fault}
use dummy_client.Trace.{Trace, Level, Param}
use Prim.Native.String.{String}
use dummy_client.Common.{◌≡◌}
use mathlib.Core.Path.{subst}
use dummy_client.Trace.Logs.{OnlyLogs, none_more, one_more, OnlyLogs-trans}
use dummy_client.Packet.State.{Packet, Session, M, ◌>>=◌, pure, lift, this, set_this, write_log}

-- A run that faults leaves no trace to speak of.
unfoldable pub QuietRun : {N A : Type 0} → Trace → Outcome (A × Session N) → Type 0
QuietRun t (ok (a, s)) = OnlyLogs t s.trace
QuietRun t (fault e) = Unit

pub record Quiet {N A : Type 0} (m : M N A) : Type 0 where
  pub quiet : (s : Session N) → QuietRun s.trace (m s)

module _ {N : Type 0} where
  pub pure-Quiet : {A : Type 0} (a : A) → Quiet {N = N} (pure a)
  unfolding QuietRun
  pure-Quiet a = record { quiet = λ s. none_more }

  pub this-Quiet : Quiet {N = N} this
  unfolding QuietRun
  this-Quiet = record { quiet = λ s. none_more }

  pub set_this-Quiet : (p : Packet) → Quiet {N = N} (set_this p)
  unfolding QuietRun
  set_this-Quiet p = record { quiet = λ s. none_more }

  pub lift-Quiet : {A : Type 0} (o : Outcome A) → Quiet {N = N} (lift o)
  unfolding QuietRun
  lift-Quiet (ok a) = record { quiet = λ s. none_more }
  lift-Quiet (fault e) = record { quiet = λ s. tt }

  pub write_log-Quiet :
      (level : Level) (message : String) (param : Param)
      → Quiet {N = N} (write_log level message param)
  unfolding QuietRun
  write_log-Quiet level message param = record { quiet = λ s. one_more _ none_more }

  bind_run :
      {A B : Type 0} (f : A → M N B) (t : Trace) (r : Outcome (A × Session N))
      → QuietRun t r
      → ((a : A) → Quiet (f a))
      → QuietRun t (elim r [ ok (a, s') ↦ f a s' | fault e ↦ fault e ])
  unfolding QuietRun
  bind_run f t (fault e) h k = tt
  bind_run {B = B} f t (ok (a, s)) h k = join (f a s) ((k a).quiet s)
    where
      join : (r : Outcome (B × Session N)) → QuietRun s.trace r → QuietRun t r
      join (ok (b, s')) j = OnlyLogs-trans h j
      join (fault e) j = tt

  pub bind-Quiet :
      {A B : Type 0} {m : M N A} {f : A → M N B}
      → Quiet m
      → ((a : A) → Quiet (f a))
      → Quiet (m >>= f)
  bind-Quiet {m = m} {f = f} h k = record { quiet = λ s. bind_run f s.trace (m s) (h.quiet s) k }

  pub if-Quiet :
      {A : Type 0} (b : Bool) {m k : M N A} → Quiet m → Quiet k → Quiet (if b then m else k)
  if-Quiet true h j = h
  if-Quiet false h j = j

  -- The same of a case that is written out.
  pub case-Quiet :
      {A : Type 0} (b : Bool) {m k : M N A}
      → Quiet m
      → Quiet k
      → Quiet (elim b as (λ _. M N A) [ true ↦ m | false ↦ k ])
  case-Quiet true h j = h
  case-Quiet false h j = j

  pub option-Quiet :
      {A B : Type 0} (o : Option B) {f : B → M N A} {k : M N A}
      → ((b : B) → Quiet (f b))
      → Quiet k
      → Quiet (elim o as (λ _. M N A) [ some b ↦ f b | none ↦ k ])
  option-Quiet (some b) h j = h b
  option-Quiet none h j = j

  -- What a run that returned did to the trace.
  pub quiet_run :
      {A : Type 0} (t : Trace) (r : Outcome (A × Session N)) (a : A) (s : Session N)
      → r ≡ ok (a, s)
      → QuietRun t r
      → OnlyLogs t s.trace
  unfolding QuietRun
  quiet_run t r a s e h = subst (QuietRun t) e h
