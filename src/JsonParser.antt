-- ===== src/JsonParser.antt =====
-- CJsonParser (JsonParser.cpp) over JsonCpp.
pub mod Tests
pub mod Values
pub mod Pairs
use dummy_client.Common.{ℕ, Option, none, some, List, [], ◌∷◌, ◌++◌, Bool, true, false}
use dummy_client.Common.{if◌then◌else◌, not}
use dummy_client.Common.Int.{ℤ, pos, leb_ℤ}
use dummy_client.Outcome.{Outcome, ok, fault, ◌>>=◌}
use dummy_client.Packet.State.{Cell, store}
use dummy_client.Packet.Writes.{until_nul, strlen, int_of_size, source_bytes}
use dummy_client.Json.{Json}

-- The fields; `m_reader` and `m_writer` keep nothing from one call to the next.
pub record JsonParser (Value : Type 0) : Type 0 where
  pub str_data : List ℕ
  pub root : Value
  pub logflag : ℤ

-- `memcpy(strvalue, text, strlen(text))`, with the size in an `int`: no final 0 is copied.
unfoldable pub copy_chars : List ℕ → List Cell → Outcome (List Cell)
copy_chars text strvalue =
    source_bytes (until_nul text) (int_of_size (strlen text)) >>= λ bs. store 0 bs strvalue

module _ {Value Double : Type 0} (json : Json Value Double) where
  -- The constructor: `m_root` is null.
  unfoldable pub new_parser : JsonParser Value
  new_parser = record { str_data = []; root = json.null; logflag = pos 0 }

  unfoldable pub init_data : List ℕ → ℤ → JsonParser Value → JsonParser Value
  init_data text logflag p = record p { str_data = until_nul text; logflag = logflag }

  unfoldable pub read_parse : JsonParser Value → Bool × JsonParser Value
  read_parse p =
      let (result, root) = json.parse p.str_data p.root in (result, record p { root = root })

  -- The test that most methods begin with: `none` is their FALSE.
  unfoldable pub when_member :
      {A : Type 0} → List ℕ → JsonParser Value → Outcome A → Outcome (Option A)
  when_member key p rest = json.is_member key p.root >>= λ member.
      if not member then ok none else (rest >>= λ a. ok (some a))

  -- The methods that read one value; none of them changes the parser.
  unfoldable pub read_value_int : List ℕ → JsonParser Value → Outcome (Option ℤ)
  read_value_int key p =
      when_member key p (json.get key (json.from_int (pos 0)) p.root >>= json.as_int)

  unfoldable pub read_value_double : List ℕ → JsonParser Value → Outcome (Option Double)
  read_value_double key p =
      when_member key p (json.get key (json.from_int (pos 0)) p.root >>= json.as_double)

  unfoldable pub read_value_bool : List ℕ → JsonParser Value → Outcome (Option Bool)
  read_value_bool key p =
      when_member key p (json.get key (json.from_int (pos 0)) p.root >>= json.as_bool)

  unfoldable pub read_value_string :
      List ℕ → List Cell → JsonParser Value → Outcome (Option (List Cell))
  read_value_string key strvalue p = when_member key p (
      json.get key (json.from_cstring []) p.root >>= json.as_cstring >>= λ text.
      copy_chars text strvalue)

  -- `m_root[key]` comes back with the parser behind the call.
  unfoldable pub root_at : List ℕ → JsonParser Value → Outcome (Value × JsonParser Value)
  root_at key p = json.at_key key p.root >>= λ r. ok (r.0, record p { root = r.1 })

  unfoldable pub get_read_array_count : List ℕ → JsonParser Value → Outcome (ℤ × JsonParser Value)
  get_read_array_count key p = json.is_member key p.root >>= λ member.
      if not member then ok (pos 0, p) else (root_at key p >>= λ r. ok (json.size r.0, r.1))

  unfoldable pub read_array :
      List ℕ → ℤ → List Cell → JsonParser Value → Outcome (Option (List Cell) × JsonParser Value)
  read_array key index strvalue p = json.is_member key p.root >>= λ member.
      if not member
      then ok (none, p)
      else (root_at key p >>= λ r.
          if leb_ℤ (json.size r.0) index
          then ok (none, r.1)
          else (json.at_index index r.0 >>= json.as_cstring >>= λ text.
              copy_chars text strvalue >>= λ filled. ok (some filled, r.1)))

  -- The methods that read `m_root[key1].get(key2, ...)`.
  unfoldable pub read_pair :
      {A : Type 0}
      → List ℕ
      → List ℕ
      → Value
      → (Value → Outcome A)
      → JsonParser Value
      → Outcome (Option A × JsonParser Value)
  read_pair key1 key2 default as_value p = json.is_member key1 p.root >>= λ member.
      if not member
      then ok (none, p)
      else (root_at key1 p >>= λ r.
          json.get key2 default r.0 >>= as_value >>= λ a. ok (some a, r.1))

  unfoldable pub read_array_value_string :
      List ℕ
      → List ℕ
      → List Cell
      → JsonParser Value
      → Outcome (Option (List Cell) × JsonParser Value)
  read_array_value_string key1 key2 strvalue =
      read_pair key1 key2 (json.from_cstring [])
        (λ v. json.as_cstring v >>= λ text. copy_chars text strvalue)

  unfoldable pub read_array_value_int :
      List ℕ → List ℕ → JsonParser Value → Outcome (Option ℤ × JsonParser Value)
  read_array_value_int key1 key2 = read_pair key1 key2 (json.from_int (pos 0)) json.as_int

  unfoldable pub read_array_value_double :
      List ℕ → List ℕ → JsonParser Value → Outcome (Option Double × JsonParser Value)
  read_array_value_double key1 key2 = read_pair key1 key2 (json.from_int (pos 0)) json.as_double

  -- `m_root[key1][key2].asBool()`: both calls are on references into the root.
  unfoldable pub read_array_value_bool :
      List ℕ → List ℕ → JsonParser Value → Outcome (Option Bool × JsonParser Value)
  read_array_value_bool key1 key2 p = json.is_member key1 p.root >>= λ member.
      if not member
      then ok (none, p)
      else (root_at key1 p >>= λ r. json.at_key key2 r.0 >>= λ e.
          json.set_key key1 e.1 r.1.root >>= λ root.
          json.as_bool e.0 >>= λ b. ok (some b, record r.1 { root = root }))

  -- The methods that write return TRUE always; what comes back is the parser.
  unfoldable pub make_write : List Cell → JsonParser Value → Outcome (List Cell)
  make_write strvalue p = store 0 (until_nul (json.write p.root) ++ (0 ∷ [])) strvalue

  -- `m_root[key] = value`.
  unfoldable pub write_value : List ℕ → Value → JsonParser Value → Outcome (JsonParser Value)
  write_value key value p = json.set_key key value p.root >>= λ root. ok (record p { root = root })

  unfoldable pub write_value_string :
      List ℕ → List ℕ → JsonParser Value → Outcome (JsonParser Value)
  write_value_string key strvalue = write_value key (json.from_cstring (until_nul strvalue))

  unfoldable pub write_value_int : List ℕ → ℤ → JsonParser Value → Outcome (JsonParser Value)
  write_value_int key value = write_value key (json.from_int value)

  unfoldable pub write_value_double :
      List ℕ → Double → JsonParser Value → Outcome (JsonParser Value)
  write_value_double key value = write_value key (json.from_double value)

  unfoldable pub write_value_bool : List ℕ → Bool → JsonParser Value → Outcome (JsonParser Value)
  write_value_bool key value = write_value key (json.from_bool value)

  unfoldable pub write_value_long_long : List ℕ → ℤ → JsonParser Value → Outcome (JsonParser Value)
  write_value_long_long key value = write_value key (json.from_long_long value)

  unfoldable pub write_array_append :
      List ℕ → List ℕ → JsonParser Value → Outcome (JsonParser Value)
  write_array_append key strvalue p = root_at key p >>= λ r.
      json.append (json.from_cstring (until_nul strvalue)) r.0 >>= λ value.
      write_value key value r.1

  -- The value of `key1`, or null: the copy to which the pair is added.
  unfoldable pub pair_copy : List ℕ → JsonParser Value → Outcome (Value × JsonParser Value)
  pair_copy key1 p =
      json.is_member key1 p.root >>= λ member. if member then root_at key1 p else ok (json.null, p)

  unfoldable pub write_pair :
      List ℕ → List ℕ → Value → JsonParser Value → Outcome (JsonParser Value)
  write_pair key1 key2 value p =
      pair_copy key1 p >>= λ c. json.set_key key2 value c.0 >>= λ copy. write_value key1 copy c.1

  unfoldable pub write_array_value_string :
      List ℕ → List ℕ → List ℕ → JsonParser Value → Outcome (JsonParser Value)
  write_array_value_string key1 key2 strvalue =
      write_pair key1 key2 (json.from_cstring (until_nul strvalue))

  unfoldable pub write_array_value_int :
      List ℕ → List ℕ → ℤ → JsonParser Value → Outcome (JsonParser Value)
  write_array_value_int key1 key2 value = write_pair key1 key2 (json.from_int value)

  unfoldable pub write_array_value_double :
      List ℕ → List ℕ → Double → JsonParser Value → Outcome (JsonParser Value)
  write_array_value_double key1 key2 value = write_pair key1 key2 (json.from_double value)

  unfoldable pub write_array_value_bool :
      List ℕ → List ℕ → Bool → JsonParser Value → Outcome (JsonParser Value)
  write_array_value_bool key1 key2 value = write_pair key1 key2 (json.from_bool value)
