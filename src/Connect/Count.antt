-- ===== src/Connect/Count.antt =====
-- Counting what a run opens and closes.
use dummy_client.Common.{◌+◌, ◌≡◌, refl, arith}
use dummy_client.Common.{◌∷◌}
use dummy_client.Common.Int.{ℤ}
use dummy_client.Trace.{Trace, closed}
use dummy_client.Trace.Logs.{OnlyLogs, none_more, one_more}
use dummy_client.Connect.Balance.{is, opens, closes}

-- Nothing opened and nothing closed.
pub record Unclosed (t t' : Trace) : Type 0 where
  pub counts : (fd : ℤ) → (opens fd t' ≡ opens fd t) × (closes fd t' ≡ closes fd t)

-- Nothing opened, and one socket closed once.
pub record ClosedOnce (sock : ℤ) (t t' : Trace) : Type 0 where
  pub counts : (fd : ℤ) → (opens fd t' ≡ opens fd t) × (closes fd t' ≡ closes fd t + is fd sock)

pub OnlyLogs-Unclosed : {t t' : Trace} → OnlyLogs t t' → Unclosed t t'
unfolding opens closes
OnlyLogs-Unclosed none_more = record { counts = λ fd. (refl, refl) }
OnlyLogs-Unclosed (one_more e h) = record { counts = (OnlyLogs-Unclosed h).counts }

pub Unclosed-trans : {t u v : Trace} → Unclosed t u → Unclosed u v → Unclosed t v
Unclosed-trans h k = record { counts = λ fd. ground (arith, h.counts fd, k.counts fd) }

pub Unclosed-ClosedOnce :
    {t u v : Trace} {sock : ℤ} → Unclosed t u → ClosedOnce sock u v → ClosedOnce sock t v
Unclosed-ClosedOnce h k = record { counts = λ fd. ground (arith, h.counts fd, k.counts fd) }

pub ClosedOnce-Unclosed :
    {t u v : Trace} {sock : ℤ} → ClosedOnce sock t u → Unclosed u v → ClosedOnce sock t v
ClosedOnce-Unclosed h k = record { counts = λ fd. ground (arith, h.counts fd, k.counts fd) }

pub closed-ClosedOnce : (sock : ℤ) (t : Trace) → ClosedOnce sock t (closed sock ∷ t)
unfolding opens closes
closed-ClosedOnce sock t = record { counts = λ fd. (refl, omega arith) }
