-- ===== src/Trace/Logs.antt =====
-- Traces that differ in log lines alone.
use dummy_client.Common.{◌∷◌}
use dummy_client.Trace.{Trace, Entry, logged}

-- The later trace has only log lines more.
pub data OnlyLogs (t : Trace) : Trace → Type 0 where
  none_more : OnlyLogs t t
  one_more : {u : Trace} → (e : Entry) → OnlyLogs t u → OnlyLogs t (logged e ∷ u)

pub OnlyLogs-trans : {t u v : Trace} → OnlyLogs t u → OnlyLogs u v → OnlyLogs t v
OnlyLogs-trans h none_more = h
OnlyLogs-trans h (one_more e k) = one_more e (OnlyLogs-trans h k)
