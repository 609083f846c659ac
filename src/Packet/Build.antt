-- ===== src/Packet/Build.antt =====
-- What a packet under construction holds, and the room that `CheckDataBuffer` makes.
use dummy_client.Common.{ℕ, ◌+◌, ◌^◌, ◌≤◌, ◌<◌, ◌≡◌, refl, ap, arith}
use dummy_client.Common.{◌⊎◌, inr, Option, none, some, List, [], ◌∷◌, ◌++◌, map}
use dummy_client.Common.{if◌then◌else◌, length, drop, replicate, ◌==◌}
use dummy_client.Common.{length-map, length-drop}
use dummy_client.Common.Int.{pos, double_int-pos}
use dummy_client.Outcome.{ok}
use dummy_client.Packet.State.{Cell, Packet, Session, cells}
use dummy_client.Packet.Memory.{copy_front-append, clear_new_fits}
use dummy_client.Packet.Buffer.{
  next_length, new_chars, clear_new, keep_old, enlarge, buffer_base_size,
}

-- The packet holds the bytes `bs` before its pointer and `slack` behind it. An array of 1 to 3
-- bytes, which only a received packet has, is left out: it is too small to be doubled.
pub record Built (p : Packet) (bs : List ℕ) (slack : List Cell) : Type 0 where
  pub is_data : cells p.str_data ≡ map some bs ++ slack
  pub is_length : p.data_length ≡ pos (length bs + length slack)
  pub is_pointer : p.data_pointer ≡ length bs
  pub bounded : length bs + length slack < 2 ^ 31
  pub roomy : (length bs + length slack ≡ 0) ⊎ (4 ≤ length bs + length slack)

-- Two packets that differ in their data alone.
pub record SameHead (p q : Packet) : Type 0 where
  pub category : q.category ≡ p.category
  pub command : q.command ≡ p.command
  pub client_sockfd : q.client_sockfd ≡ p.client_sockfd
  pub logflag : q.logflag ≡ p.logflag

pub SameHead-trans : {p q r : Packet} → SameHead p q → SameHead q r → SameHead p r
SameHead-trans h k = ground arith

-- The session with another packet.
abbrev pub with_packet : {N : Type 0} → Session N → Packet → Session N
with_packet s p = record s { packet = p }

-- One round of the loop keeps what was written and has a longer array.
pub record Enlarged {N : Type 0} (s : Session N) (bs : List ℕ) (total : ℕ) : Type 0 where
  pub packet : Packet
  pub slack : List Cell
  pub runs : enlarge s ≡ ok (tt, with_packet s packet)
  pub built : Built packet bs slack
  pub head : SameHead s.packet packet
  pub total_is : length bs + length slack ≡ total

keep_old_lem :
    (d : Option (List Cell)) (p : ℕ) (bs : List ℕ) (slack new : List Cell)
    → cells d ≡ map some bs ++ slack
    → p ≡ length bs
    → length bs ≤ length new
    → keep_old d p new ≡ ok (map some bs ++ drop (length bs) new)
unfolding keep_old
keep_old_lem none p [] slack new e q fits = refl
keep_old_lem none p (b ∷ bs) slack new e q fits = cc
keep_old_lem (some old) p bs slack new e q fits =
    rw (e, q)
      (copy_front-append (length bs) (map some bs) slack new
        (omega (arith, length-map {0, 0} some bs)) fits)

-- The next length is computed without overflow below 2 ^ 30, and holds the 8 bytes that are cleared.
pub next_total : ℕ → ℕ
next_total t = if t == 0 then buffer_base_size else t + t

next_length-pos : (t : ℕ) → t < 2 ^ 30 → next_length (pos t) ≡ pos (next_total t)
unfolding next_length next_total
next_length-pos t h = ground (arith, double_int-pos t)

next_total_bounds :
    (t : ℕ)
    → t < 2 ^ 30
    → (t ≡ 0) ⊎ (4 ≤ t)
    → (8 ≤ next_total t) × (t ≤ next_total t) × (next_total t < 2 ^ 31)
unfolding next_total
next_total_bounds t h r = ground arith

-- The length that the next one is twice of.
pub effective : ℕ → ℕ
effective t = if t == 0 then 1024 else t

pub next_total-effective : (t : ℕ) → effective (next_total t) ≡ effective t + effective t
unfolding effective next_total
next_total-effective t = ground arith

pub effective-pos : (t : ℕ) → (t ≡ 0) ⊎ (4 ≤ t) → 4 ≤ effective t
unfolding effective
effective-pos t r = ground arith

pub effective-same : (t : ℕ) → 1 ≤ t → effective t ≡ t
unfolding effective
effective-same t h = ground arith

pub next_total-pos : (t : ℕ) → 1 ≤ next_total t
unfolding next_total
next_total-pos t = ground arith

module _ {N : Type 0} (s : Session N) (bs : List ℕ) (slack : List Cell) where
  -- `cs` is the new array, cleared.
  enlarge_into :
      (cs : List Cell)
      → Built s.packet bs slack
      → length bs + length slack < 2 ^ 30
      → clear_new (replicate (next_total (length bs + length slack)) none) ≡ ok cs
      → length cs ≡ next_total (length bs + length slack)
      → Enlarged s bs (next_total (length bs + length slack))
  unfolding enlarge new_chars
  enlarge_into cs h small cleared size =
      let (eight, more, less) = next_total_bounds (length bs + length slack) small h.roomy in
      record {
        packet = record s.packet {
          data_length = pos (next_total (length bs + length slack));
          str_data = some (map some bs ++ drop (length bs) cs);
        };
        slack = drop (length bs) cs;
        runs =
            rw
              (
                h.is_length,
                next_length-pos _ small,
                cleared,
                keep_old_lem s.packet.str_data s.packet.data_pointer bs slack cs h.is_data
                    h.is_pointer (omega arith),
              )
              refl;
        built = record {
          is_data = refl;
          is_length = ap pos (omega (arith, length-drop (length bs) cs));
          is_pointer = h.is_pointer;
          bounded = omega (arith, length-drop (length bs) cs);
          roomy = inr (omega (arith, length-drop (length bs) cs));
        };
        head = record { category = refl; command = refl; client_sockfd = refl; logflag = refl };
        total_is = omega (arith, length-drop (length bs) cs);
      }

  pub enlarge-Built :
      Built s.packet bs slack
      → length bs + length slack < 2 ^ 30
      → Enlarged s bs (next_total (length bs + length slack))
  enlarge-Built h small =
      let (cs, cleared, size) =
        clear_new_fits (next_total (length bs + length slack))
          (next_total_bounds (length bs + length slack) small h.roomy).0 in
      enlarge_into cs h small cleared size
