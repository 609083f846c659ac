-- ===== src/Packet/Safe.antt =====
-- Reading a text from any packet: the arrays are never left.
use Prim.Native.String.{String}
use dummy_client.Common.{ℕ, ◌+◌, ◌<◌, ◌≡◌, ◌∙◌, refl, sym, ap, arith, Bool-cases, inl, inr, ltb}
use dummy_client.Common.{
  Option, none, some, List, [], ◌∷◌, ◌++◌, map, length, length-append, length-map,
}
use dummy_client.Common.{take, drop, take-append-drop, length-take, length-drop, append_assoc}
use mathlib.Core.Path.{subst}
use dummy_client.Common.Int.{ℤ, pos, negsuc, signed32, sub_int, sub_int-pos}
use dummy_client.Bytes.{load32, swap32}
use dummy_client.Outcome.{Outcome, ok}
use dummy_client.Packet.State.{Cell, Session, M}
use dummy_client.Packet.Buffer.{check_data_exists}
use dummy_client.Packet.Reads.{read_string, read_text_rest}
use dummy_client.Packet.Reading.{
  Holds, moved, with_error, check_data_exists-short, moved-Holds, read_int-Holds, read_int-short,
}
use dummy_client.Packet.Texts.{text_over, read_text_rest-Holds, read_text_rest-long}

-- A read that returned: the packet still holds the same bytes, with its pointer among them, and the
-- caller's array has kept its length.
pub record Safe {N : Type 0} (bytes : List ℕ) (target : List Cell)
    (r : Outcome (Option (List Cell) × Session N)) : Type 0 where
  pub value : Option (List Cell)
  pub session : Session N
  pub runs : r ≡ ok (value, session)
  pub front : List ℕ
  pub rest : List ℕ
  pub holds : Holds session.packet front rest
  pub same : front ++ rest ≡ bytes
  pub keeps : (cells : List Cell) → value ≡ some cells → length cells ≡ length target

length-text_over :
    (xs : List ℕ) (target : List Cell)
    → length xs < length target
    → length (text_over xs target) ≡ length target
length-text_over xs target h = omega (
  arith,
  length-append (map some xs ++ map some (0 ∷ [])) (drop 1 (drop (length xs) target)),
  length-append {A = Cell} (map some xs) (map some (0 ∷ [])),
  length-map {0, 0} {A = ℕ} {B = Cell} some xs,
  length-drop 1 (drop (length xs) target),
  length-drop (length xs) target,
)

same_cells : (cells written : List Cell) → some written ≡ some cells → cells ≡ written
same_cells cells written e = cc

module _ {N : Type 0} (s : Session N) (front rest : List ℕ) (target : List Cell)
    (h : Holds s.packet front rest) (name : String) (limit : ℕ)
    (roomy : limit < length target) where
  -- A read that only logged.
  refused :
      (size : ℤ) (message : String) {r : Outcome (Option (List Cell) × Session N)}
      → r ≡ ok (none, with_error s message size)
      → Safe (front ++ rest) target r
  refused size message e = record {
    value = none;
    session = with_error s message size;
    runs = e;
    front = front;
    rest = rest;
    holds = h;
    same = refl;
    keeps = λ cells p. cc;
  }

  remaining : sub_int s.packet.data_length (pos s.packet.data_pointer) ≡ pos (length rest)
  remaining =
      rw (h.is_length, h.is_pointer)
        (sub_int-pos (length front + length rest) (length front) (omega arith) h.bounded
          ∙ ap pos (omega arith))

  text_negative :
      (k : ℕ)
      → read_text_rest name target (pos limit) (some (negsuc k)) s
        ≡ ok (none, with_error s name (negsuc k))
  unfolding read_text_rest check_data_exists
  text_negative k = ground (arith, remaining)

  text_short :
      (n : ℕ)
      → length rest < n
      → read_text_rest name target (pos limit) (some (pos n)) s
        ≡ ok (none, with_error s "CPacket::CheckDataExists" (pos n))
  unfolding read_text_rest
  text_short n short = ground (arith, check_data_exists-short s front rest n h short)

  -- The text is the next bytes of the packet.
  text_within :
      (xs later : List ℕ)
      → xs ++ later ≡ rest
      → Safe
          (front ++ rest)
          target
          (read_text_rest name target (pos limit) (some (pos (length xs))) s)
  text_within xs later split =
      let there : Holds s.packet front (xs ++ later) = subst (Holds s.packet front) (sym split) h in
      elim (Bool-cases (ltb limit (length xs))) [
        | inl long ↦
            refused (pos (length xs)) name
              (read_text_rest-long s front xs later target name limit there (ground (arith, long)))
        | inr fits ↦ record {
          value = some (text_over xs target);
          session = moved s (length xs);
          runs =
              read_text_rest-Holds s front xs later target name limit there
                (ground (arith, fits, roomy)) (ground (arith, fits));
          front = front ++ xs;
          rest = later;
          holds = moved-Holds s front xs later there;
          same = append_assoc front xs later ∙ ap (λ ys. front ++ ys) split;
          keeps = λ cells p.
              ap length (same_cells cells (text_over xs target) p)
              ∙ length-text_over xs target (ground (arith, fits, roomy));
        }
      ]

  read_text_rest-Safe :
      (size : Option ℤ)
      → Safe (front ++ rest) target (read_text_rest name target (pos limit) size s)
  unfolding read_text_rest
  read_text_rest-Safe none = record {
    value = none;
    session = s;
    runs = refl;
    front = front;
    rest = rest;
    holds = h;
    same = refl;
    keeps = λ cells p. cc;
  }
  read_text_rest-Safe (some (negsuc k)) = refused (negsuc k) name (text_negative k)
  read_text_rest-Safe (some (pos n)) = elim (Bool-cases (ltb (length rest) n)) [
    | inl short ↦ refused (pos n) "CPacket::CheckDataExists" (text_short n (ground (arith, short)))
    | inr enough ↦
        subst
          (λ m.
            Safe (front ++ rest) target (read_text_rest name target (pos limit) (some (pos m)) s))
          (ground (arith, length-take n rest, enough))
          (text_within (take n rest) (drop n rest) (take-append-drop n rest))
  ]

module _ {N : Type 0} (s : Session N) (target : List Cell) (limit : ℕ)
    (roomy : limit < length target) where
  abbrev rest_of_text : Option ℤ → M N (Option (List Cell))
  rest_of_text = read_text_rest "CPacket::ReadString" target (pos limit)

  -- Behind a length that could not be read.
  string_short :
      (front rest : List ℕ)
      → Holds s.packet front rest
      → length rest < 4
      → Safe (front ++ rest) target (read_string target (pos limit) s)
  unfolding read_string read_text_rest
  string_short front rest h short =
      refused s front rest target h "" limit roomy (pos 4) "CPacket::CheckDataExists"
        (ground (arith, read_int-short s front rest h short))

  string_long :
      (front rest : List ℕ) (a b c d : ℕ)
      → Holds s.packet front (a ∷ b ∷ c ∷ d ∷ rest)
      → Safe (front ++ (a ∷ b ∷ c ∷ d ∷ rest)) target (read_string target (pos limit) s)
  unfolding read_string
  string_long front rest a b c d h =
      let z : ℤ = signed32 (swap32 (load32 (a ∷ b ∷ c ∷ d ∷ []))) in
      let t : Safe ((front ++ (a ∷ b ∷ c ∷ d ∷ [])) ++ rest) target
          (rest_of_text (some z) (moved s 4)) =
        read_text_rest-Safe (moved s 4) (front ++ (a ∷ b ∷ c ∷ d ∷ [])) rest target
          (moved-Holds s front (a ∷ b ∷ c ∷ d ∷ []) rest h) "CPacket::ReadString" limit roomy
          (some z) in
      record {
        value = t.value;
        session = t.session;
        runs = ground (arith, read_int-Holds s front rest a b c d h, t.runs);
        front = t.front;
        rest = t.rest;
        holds = t.holds;
        same = t.same ∙ append_assoc front (a ∷ b ∷ c ∷ d ∷ []) rest;
        keeps = t.keeps;
      }

  -- From a packet that holds any bytes, with its pointer at any of them, and into an array that is
  -- longer than `maxsize`: `ReadString` returns without an access outside of either array, the packet
  -- still holds the same bytes with its pointer among them, and the caller's array keeps its length.
  pub read_string-Safe :
      (front rest : List ℕ)
      → Holds s.packet front rest
      → Safe (front ++ rest) target (read_string target (pos limit) s)
  read_string-Safe front [] h = string_short front [] h (omega arith)
  read_string-Safe front (a ∷ []) h = string_short front (a ∷ []) h (omega arith)
  read_string-Safe front (a ∷ b ∷ []) h = string_short front (a ∷ b ∷ []) h (omega arith)
  read_string-Safe front (a ∷ b ∷ c ∷ []) h = string_short front (a ∷ b ∷ c ∷ []) h (omega arith)
  read_string-Safe front (a ∷ b ∷ c ∷ d ∷ rest) h = string_long front rest a b c d h
