-- ===== src/Mutex.antt =====
-- The pthread mutexes that the program uses, as one thread sees them (POSIX, pthread.h).
use dummy_client.Common.{if◌then◌else◌}
use dummy_client.Common.Int.{ℤ, pos, eqb_ℤ}
use dummy_client.Outcome.{Outcome, ok, fault, bad_mutex}

pub data Mutex : Type 0 where
  unset free held : Mutex

-- `pthread_mutex_init`, by what it returns.
unfoldable pub mutex_init : ℤ → Mutex → Mutex
mutex_init result m = if eqb_ℤ result (pos 0) then free else m

-- `pthread_mutex_lock`: with one that the thread holds already it does not return.
unfoldable pub mutex_lock : Mutex → Outcome Mutex
mutex_lock free = ok held
mutex_lock held = fault bad_mutex
mutex_lock unset = fault bad_mutex

unfoldable pub mutex_unlock : Mutex → Outcome Mutex
mutex_unlock held = ok free
mutex_unlock free = fault bad_mutex
mutex_unlock unset = fault bad_mutex

unfoldable pub mutex_destroy : Mutex → Outcome Mutex
mutex_destroy free = ok unset
mutex_destroy held = fault bad_mutex
mutex_destroy unset = fault bad_mutex
