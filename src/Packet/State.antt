-- ===== src/Packet/State.antt =====
-- The fields of `CPacket` (Packet.h), its heap array, and the monad of its methods.
use Prim.Native.String.{String}
use dummy_client.Common.{◌≡◌, ℕ, ◌+◌, Option, none, some, List, [], ◌∷◌, ◌++◌, map, leb}
use dummy_client.Common.{◌&&◌, if◌then◌else◌, length, take, drop}
use dummy_client.Common.Int.{ℤ}
use dummy_client.Trace.{Trace, logged, Entry, Level, Param}
use dummy_client.Outcome.{Outcome, ok, fault, Fault, out_of_bounds, uninitialised}

-- A byte of the heap; `none` until it is written.
abbrev pub Cell : Type 0
Cell = Option ℕ

-- `data` is `none` for the null pointer, and else the whole array that it points to.
-- The length may be negative after a failed receive; the pointer only ever grows from 0.
pub record Packet : Type 0 where
  pub category : ℤ
  pub command : ℤ
  pub client_sockfd : ℤ
  pub data_length : ℤ
  pub data_pointer : ℕ
  pub str_data : Option (List Cell)
  pub logflag : ℤ

-- The packet that a method works on, the network beyond its socket, and what was logged so far.
pub record Session (N : Type 0) : Type 0 where
  pub packet : Packet
  pub net : N
  pub trace : Trace

abbrev pub M : Type 0 → Type 0 → Type 0
M N A = Session N → Outcome (A × Session N)

infixl 5 ◌>>=◌ ◌>>◌
abbrev pub ◌>>=◌ : {N A B : Type 0} → M N A → (A → M N B) → M N B
◌>>=◌ m f s = elim (m s) [ ok (a, s') ↦ f a s' | fault e ↦ fault e ]

abbrev pub ◌>>◌ : {N A B : Type 0} → M N A → M N B → M N B
m >> k = m >>= λ _. k

-- The rest of a run, behind a step that succeeds and behind one that faults.
pub bind-ok :
    {N A B : Type 0} (m : M N A) (f : A → M N B) {s s' : Session N} {a : A}
    → m s ≡ ok (a, s')
    → (m >>= f) s ≡ f a s'
bind-ok m f e = rw (e, ◌>>=◌)

pub bind-fault :
    {N A B : Type 0} (m : M N A) (f : A → M N B) {s : Session N} {e : Fault}
    → m s ≡ fault e
    → (m >>= f) s ≡ fault e
bind-fault m f e = rw (e, ◌>>=◌)

abbrev pub pure : {N A : Type 0} → A → M N A
pure a s = ok (a, s)

abbrev pub lift : {N A : Type 0} → Outcome A → M N A
lift o s = elim o [ ok a ↦ ok (a, s) | fault e ↦ fault e ]

pub lift-ok :
    {N A : Type 0} {o : Outcome A} {a : A} (s : Session N) → o ≡ ok a → lift o s ≡ ok (a, s)
lift-ok s e = rw (e, lift)

abbrev pub this : {N : Type 0} → M N Packet
this s = ok (s.packet, s)

abbrev pub set_this : {N : Type 0} → Packet → M N (Unit {0})
set_this p s = ok (tt, record s { packet = p })

abbrev pub advance : {N : Type 0} → ℕ → M N (Unit {0})
advance n s =
    ok (tt, record s { packet = record s.packet { data_pointer = s.packet.data_pointer + n } })

-- `WriteLog` and `WriteErrorLog` with the packet's socket.
abbrev pub write_log : {N : Type 0} → Level → String → Param → M N (Unit {0})
write_log level message param s =
    let entry : Entry = record {
      level = level;
      message = message;
      sockfd = s.packet.client_sockfd;
      param = param;
    } in
    ok (tt, record s { trace = logged entry ∷ s.trace })

-- The array behind the pointer; there is nothing behind the null pointer.
abbrev pub cells : Option (List Cell) → List Cell
cells none = []
cells (some cs) = cs

unfoldable pub defined : List Cell → Outcome (List ℕ)
defined [] = ok []
defined (none ∷ cs) = fault uninitialised
defined (some b ∷ cs) = elim (defined cs) [ ok bs ↦ ok (b ∷ bs) | fault e ↦ fault e ]

-- `memcpy` of `n` bytes out of an array at offset `p`, and of bytes into one.
unfoldable pub load : ℕ → ℕ → List Cell → Outcome (List ℕ)
unfolding defined
load p n cs = if leb (p + n) (length cs) then defined (take n (drop p cs)) else fault out_of_bounds

unfoldable pub store : ℕ → List ℕ → List Cell → Outcome (List Cell)
store p bs cs =
    if leb (p + length bs) (length cs)
    then ok (take p cs ++ (map some bs ++ drop (p + length bs) cs))
    else fault out_of_bounds

-- `memcpy` of the first `n` bytes of one array over the first of another.
unfoldable pub copy_front : ℕ → List Cell → List Cell → Outcome (List Cell)
copy_front n old new =
    if leb n (length old) && leb n (length new)
    then ok (take n old ++ drop n new)
    else fault out_of_bounds
