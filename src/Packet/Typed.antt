-- ===== src/Packet/Typed.antt =====
-- The numbers that are read off any bytes: each read returns, with a value of its type.
use Prim.Native.String.{String}
use dummy_client.Common.{
  ℕ, ◌+◌, ◌*◌, ◌^◌, ◌<◌, ◌≡◌, ◌∙◌, refl, sym, ap, arith, Bool, true, false, Option, none, some,
  List, [], ◌∷◌, ◌++◌, length, leb, append_assoc,
}
use mathlib.Core.Path.{subst}
use dummy_client.Common.{length-append}
use dummy_client.Common.Int.{
  ℤ, pos, negsuc, FitsAt, bits32, bits32-lt, signed8, signed32, signed32_fits,
}
use dummy_client.Bytes.{AllBytes, load16, load32, swap16, swap32}
use dummy_client.Common.Int.{signed8_fits, signed64_fits}
use dummy_client.Bytes.Order.{swap16-lt, swap32-lt}
use dummy_client.Outcome.{Outcome, ok}
use dummy_client.Packet.State.{Session}
use dummy_client.Packet.Reads.{
  read_tiny_int, read_short_int, read_int, read_big_int, read_big_int_rest, join_parts,
}
use dummy_client.Packet.Reading.{
  Holds, moved, with_error, moved-Holds, check_data_exists-short, read_int-Holds, read_int-short,
  read_short_int-Holds, read_tiny_int-Holds,
}

-- `uint16_t`.
abbrev pub IsWord : ℤ → Type 0
IsWord (pos n) = n < 2 ^ 16
IsWord (negsuc n) = ⊥

unfoldable pub gives : Option ℤ → Bool
gives none = false
gives (some z) = true

-- A value, if there is one, of this type.
abbrev pub OfType : (ℤ → Type 0) → Option ℤ → Type 0
OfType InRange none = Unit {0}
OfType InRange (some z) = InRange z

-- A read of `size` bytes that returned: a value in the range exactly if so many bytes were left, and
-- the packet still holds the same bytes, with its pointer among them.
pub record Typed {N : Type 0} (size : ℕ) (InRange : ℤ → Type 0) (front rest : List ℕ)
    (r : Outcome (Option ℤ × Session N)) : Type 0 where
  pub value : Option ℤ
  pub session : Session N
  pub runs : r ≡ ok (value, session)
  pub given : gives value ≡ leb size (length rest)
  pub in_range : OfType InRange value
  pub behind : List ℕ
  pub ahead : List ℕ
  pub holds : Holds session.packet behind ahead
  pub same : behind ++ ahead ≡ front ++ rest

module _ {N : Type 0} (s : Session N) (size : ℕ) (InRange : ℤ → Type 0) (front rest : List ℕ) where
  -- Too few bytes: an error line and no more.
  short :
      {r : Outcome (Option ℤ × Session N)} (message : String) (n : ℕ)
      → Holds s.packet front rest
      → length rest < size
      → r ≡ ok (none, with_error s message (pos n))
      → Typed size InRange front rest r
  unfolding gives
  short message n h few e = record {
    value = none;
    session = with_error s message (pos n);
    runs = e;
    given = ground (arith, few);
    in_range = tt;
    behind = front;
    ahead = rest;
    holds = h;
    same = refl;
  }

  -- The bytes are there, and the value is in range.
  whole :
      {r : Outcome (Option ℤ × Session N)} (xs later : List ℕ) (z : ℤ)
      → Holds s.packet front (xs ++ later)
      → rest ≡ xs ++ later
      → length xs ≡ size
      → r ≡ ok (some z, moved s size)
      → InRange z
      → Typed size InRange front rest r
  unfolding gives
  whole xs later z h e n runs fits = record {
    value = some z;
    session = moved s size;
    runs = runs;
    given = ground (arith, ap length e, length-append xs later, n);
    in_range = fits;
    behind = front ++ xs;
    ahead = later;
    holds =
        subst (λ k. Holds (moved s k).packet (front ++ xs) later) n
          (moved-Holds s front xs later h);
    same = append_assoc front xs later ∙ ap (λ ys. front ++ ys) (sym e);
  }

module _ {N : Type 0} (s : Session N) (front : List ℕ) where
  read_tiny_int-Typed :
      (rest : List ℕ)
      → Holds s.packet front rest
      → AllBytes rest
      → Typed 1 (FitsAt (2 ^ 8)) front rest (read_tiny_int s)
  unfolding read_tiny_int
  read_tiny_int-Typed [] h bytes =
      short s 1 (FitsAt (2 ^ 8)) front [] "CPacket::CheckDataExists" 1 h (omega arith)
        (ground (arith, check_data_exists-short s front [] 1 h (omega arith)))
  read_tiny_int-Typed (a ∷ rest) h (b, bytes) =
      whole s 1 (FitsAt (2 ^ 8)) front (a ∷ rest) (a ∷ []) rest (signed8 a) h refl refl
        (read_tiny_int-Holds s front rest a h) (signed8_fits a b)

  short_short :
      (rest : List ℕ)
      → Holds s.packet front rest
      → length rest < 2
      → Typed 2 IsWord front rest (read_short_int s)
  unfolding read_short_int
  short_short rest h few =
      short s 2 IsWord front rest "CPacket::CheckDataExists" 2 h few
        (ground (arith, check_data_exists-short s front rest 2 h few))

  read_short_int-Typed :
      (rest : List ℕ) → Holds s.packet front rest → Typed 2 IsWord front rest (read_short_int s)
  read_short_int-Typed [] h = short_short [] h (omega arith)
  read_short_int-Typed (a ∷ []) h = short_short (a ∷ []) h (omega arith)
  read_short_int-Typed (a ∷ b ∷ rest) h =
      whole s 2 IsWord front (a ∷ b ∷ rest) (a ∷ b ∷ []) rest (pos (swap16 (load16 (a ∷ b ∷ [])))) h
        refl refl (read_short_int-Holds s front rest a b h) (swap16-lt (load16 (a ∷ b ∷ [])))

  short_int :
      (rest : List ℕ)
      → Holds s.packet front rest
      → length rest < 4
      → Typed 4 (FitsAt (2 ^ 32)) front rest (read_int s)
  short_int rest h few =
      short s 4 (FitsAt (2 ^ 32)) front rest "CPacket::CheckDataExists" 4 h few
        (read_int-short s front rest h few)

  read_int-Typed :
      (rest : List ℕ)
      → Holds s.packet front rest
      → Typed 4 (FitsAt (2 ^ 32)) front rest (read_int s)
  read_int-Typed [] h = short_int [] h (omega arith)
  read_int-Typed (a ∷ []) h = short_int (a ∷ []) h (omega arith)
  read_int-Typed (a ∷ b ∷ []) h = short_int (a ∷ b ∷ []) h (omega arith)
  read_int-Typed (a ∷ b ∷ c ∷ []) h = short_int (a ∷ b ∷ c ∷ []) h (omega arith)
  read_int-Typed (a ∷ b ∷ c ∷ d ∷ rest) h =
      let w : ℕ = swap32 (load32 (a ∷ b ∷ c ∷ d ∷ [])) in
      whole s 4 (FitsAt (2 ^ 32)) front (a ∷ b ∷ c ∷ d ∷ rest) (a ∷ b ∷ c ∷ d ∷ []) rest
        (signed32 w) h refl refl (read_int-Holds s front rest a b c d h)
        (signed32_fits w (swap32-lt (load32 (a ∷ b ∷ c ∷ d ∷ []))))

join_parts_fits : (low high : ℤ) → FitsAt (2 ^ 64) (join_parts low high)
unfolding join_parts
join_parts_fits low high =
    signed64_fits (bits32 high + bits32 low * 2 ^ 32) (omega (arith, bits32-lt low, bits32-lt high))

module _ {N : Type 0} (s : Session N) (front : List ℕ) where
  short_big :
      (rest : List ℕ)
      → Holds s.packet front rest
      → length rest < 4
      → Typed 8 (FitsAt (2 ^ 64)) front rest (read_big_int s)
  unfolding read_big_int read_big_int_rest
  short_big rest h few =
      short s 8 (FitsAt (2 ^ 64)) front rest "CPacket::CheckDataExists" 4 h (omega (arith, few))
        (ground (arith, read_int-short s front rest h few))

  -- The first number is there, and the second is what the second read gives.
  second_read :
      (a b c d : ℕ) (rest : List ℕ)
      → Holds s.packet front (a ∷ b ∷ c ∷ d ∷ rest)
      → Typed 4 (FitsAt (2 ^ 32)) (front ++ (a ∷ b ∷ c ∷ d ∷ [])) rest (read_int (moved s 4))
      → Typed 8 (FitsAt (2 ^ 64)) front (a ∷ b ∷ c ∷ d ∷ rest) (read_big_int s)
  unfolding read_big_int read_big_int_rest gives
  second_read a b c d rest h t =
      elim t.value
          as (λ v.
            t.value ≡ v → Typed 8 (FitsAt (2 ^ 64)) front (a ∷ b ∷ c ∷ d ∷ rest) (read_big_int s)) [
              | none ↦ λ e. record {
                value = none;
                session = t.session;
                runs = ground (arith, read_int-Holds s front rest a b c d h, t.runs, e);
                given = ground (arith, t.given, e);
                in_range = tt;
                behind = t.behind;
                ahead = t.ahead;
                holds = t.holds;
                same = t.same ∙ append_assoc front (a ∷ b ∷ c ∷ d ∷ []) rest;
              }
              | some high ↦ λ e. record {
                value = some (join_parts (signed32 (swap32 (load32 (a ∷ b ∷ c ∷ d ∷ [])))) high);
                session = t.session;
                runs = ground (arith, read_int-Holds s front rest a b c d h, t.runs, e);
                given = ground (arith, t.given, e);
                in_range = join_parts_fits _ high;
                behind = t.behind;
                ahead = t.ahead;
                holds = t.holds;
                same = t.same ∙ append_assoc front (a ∷ b ∷ c ∷ d ∷ []) rest;
              }
            ]
        refl

  read_big_int-Typed :
      (rest : List ℕ)
      → Holds s.packet front rest
      → Typed 8 (FitsAt (2 ^ 64)) front rest (read_big_int s)
  read_big_int-Typed [] h = short_big [] h (omega arith)
  read_big_int-Typed (a ∷ []) h = short_big (a ∷ []) h (omega arith)
  read_big_int-Typed (a ∷ b ∷ []) h = short_big (a ∷ b ∷ []) h (omega arith)
  read_big_int-Typed (a ∷ b ∷ c ∷ []) h = short_big (a ∷ b ∷ c ∷ []) h (omega arith)
  read_big_int-Typed (a ∷ b ∷ c ∷ d ∷ rest) h = second_read a b c d rest h (
      read_int-Typed (moved s 4) (front ++ (a ∷ b ∷ c ∷ d ∷ [])) rest
        (moved-Holds s front (a ∷ b ∷ c ∷ d ∷ []) rest h))

  -- Whatever bytes a packet holds behind those that were read: each of the four methods that read a
  -- number returns. It gives a number exactly if so many bytes are left as its type has, and then
  -- one in the range of the type; the bytes of the packet stay, and the pointer among them.
  pub reads-Typed :
      (rest : List ℕ)
      → Holds s.packet front rest
      → AllBytes rest
      → Typed 1 (FitsAt (2 ^ 8)) front rest (read_tiny_int s)
        × Typed 2 IsWord front rest (read_short_int s)
        × Typed 4 (FitsAt (2 ^ 32)) front rest (read_int s)
        × Typed 8 (FitsAt (2 ^ 64)) front rest (read_big_int s)
  reads-Typed rest h bytes = (
    read_tiny_int-Typed s front rest h bytes,
    read_short_int-Typed s front rest h,
    read_int-Typed s front rest h,
    read_big_int-Typed rest h,
  )
