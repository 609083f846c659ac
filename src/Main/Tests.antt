-- ===== src/Main/Tests.antt =====
-- The theorems on main at concrete inputs.
use dummy_client.Common.{
  ℕ, ◌≡◌, refl, arith, some, List, [], ◌∷◌, Bool, true, false, if◌then◌else◌, ltb, ◌==◌, ◌||◌, ◌&&◌,
  not, same_text,
}
use dummy_client.Common.Int.{ℤ, pos, pos_part}
use dummy_client.Outcome.{ok, fault, out_of_bounds}
use dummy_client.Packet.Writes.{until_nul, strlen}
use dummy_client.JsonParser.{JsonParser}
use dummy_client.JsonParser.Tests.{
  Value, text, object, member, done, json, laws, IsObject, find, is_object, lookup, as_cstring,
}
use dummy_client.Wire.Tests.{
  Pipe, pipe_incoming, pipe_sent, guarded_os, guarded-ReadLaws, guarded-WriteLaws,
  guarded-SelectLaws, guarded-Descriptors,
}
use dummy_client.RestClient.{get}
use dummy_client.Commands.{metadata_url}
use dummy_client.Commands.Tests.{quiet, web}
use dummy_client.Main.{read_conf, settings_start}
use dummy_client.Main.Lines.{Chars, Line, Lines, conf_file, read_conf-settings}
use dummy_client.Main.Ends.{Ends, read_conf-ends}
use dummy_client.Common.{◌+◌, ◌≤◌, length}
use dummy_client.Main.{scan_int}
use dummy_client.Main.Setup.{read_text}
use dummy_client.Main.Texts.{read_text-bound}
use dummy_client.Main.Threads.{Thread, start_threads, main}
use dummy_client.Main.Found.{Readable, parsed}
use dummy_client.Main.Launched.{Launched, main-Launched}
use dummy_client.Main.Setup.{array_text}
use dummy_client.Main.{
  Settings, conf_loop, scan_line, split_line, set_line, scan_text, signed_int, unsigned_int,
  digits_value,
}
use dummy_client.Outcome.{fit}
use dummy_client.Common.{none, codes}
use dummy_client.Common.Int.{signed32}
use dummy_client.PerfInfo.{scan_word, first_word, skip_space}
use dummy_client.MiscUtil.{init_log, sweep_dir}
use dummy_client.Json.{Json}
use dummy_client.Packet.Writes.{source_bytes}
use dummy_client.Packet.State.{store}
use dummy_client.JsonParser.{
  read_value_string, when_member, copy_chars, read_parse, init_data, new_parser,
}
use dummy_client.JsonParser.Tests.{is_member, get_member}
use dummy_client.Main.Started.{Started, start_threads-Started}

abbrev no_peer : ℤ → Pipe → List ℕ
no_peer fd w = []

abbrev is_blank : ℕ → Bool
is_blank b = b == b' ' || b == b'\n'

read_conf-ends_example : Ends (read_conf is_blank (b'3' ∷ b'\n' ∷ b'\n' ∷ b'x' ∷ []) settings_start)
read_conf-ends_example = read_conf-ends is_blank (b'3' ∷ b'\n' ∷ b'\n' ∷ b'x' ∷ []) settings_start

-- The first two lines of the configuration, with a comment behind the number.
abbrev lines : List (List ℕ)
lines = (b'3' ∷ b' ' ∷ b'#' ∷ []) ∷ (b'1' ∷ b'.' ∷ b'2' ∷ []) ∷ []

is_plain : List ℕ → Bool
is_plain [] = true
is_plain (b ∷ bs) = not (b == b'\n') && (not (b == 0) && is_plain bs)

plain-Chars : (bs : List ℕ) → is_plain bs ≡ true → Chars bs
unfolding Chars is_plain
plain-Chars [] h = tt
plain-Chars (b ∷ bs) h = (
  (λ e. absurd (ground (arith, h, e))),
  (λ e. absurd (ground (arith, h, e))),
  plain-Chars bs (ground (arith, h)),
)

plain-Line :
    (first : ℕ) (others : List ℕ)
    → is_blank first ≡ false
    → length (first ∷ others) + 1 ≤ 500
    → is_plain (first ∷ others) ≡ true
    → Line is_blank (first ∷ others)
plain-Line first others visible short plain = record {
  first = first;
  others = others;
  is_line = refl;
  visible = visible;
  short = short;
  chars = plain-Chars (first ∷ others) plain;
}

-- A line of one character.
abbrev one : List ℕ
one = b'1' ∷ []

one-Line : Line is_blank one
unfolding is_plain
one-Line = plain-Line b'1' [] refl (omega arith) refl

-- Seven lines, with a comment behind the last number.
read_conf-settings_example :
    read_conf is_blank
      (conf_file (one ∷ one ∷ one ∷ one ∷ (b'7' ∷ b'#' ∷ []) ∷ one ∷ one ∷ []))
      settings_start
    ≡ ok (record {
      server_index = pos 1;
      manager_ip = one;
      manager_port = pos 1;
      manager_log_path = one;
      process_pool_size = pos 7;
      server_type = one;
    })
unfolding Lines is_plain scan_int scan_text signed_int unsigned_int digits_value fit skip_space
    first_word
read_conf-settings_example =
    read_conf-settings is_blank refl one one one one (b'7' ∷ b'#' ∷ []) one (one ∷ [])
      settings_start
      (
        one-Line,
        (
          one-Line,
          (
            one-Line,
            (
              one-Line,
              (plain-Line b'7' (b'#' ∷ []) refl (omega arith) refl, (one-Line, (one-Line, tt))),
            ),
          ),
        ),
      )

-- A name of three characters, for arrays of four and of three bytes.
abbrev named : JsonParser Value
named = record {
  str_data = [];
  root = object (member (b'n' ∷ []) (text (b'a' ∷ b'b' ∷ b'c' ∷ [])) done);
  logflag = pos 0;
}

read_text-bound_example : read_text json (b'n' ∷ []) 3 named ≡ (
    if ltb (strlen (b'a' ∷ b'b' ∷ b'c' ∷ [])) 3
    then ok (some (until_nul (b'a' ∷ b'b' ∷ b'c' ∷ [])))
    else fault out_of_bounds)
unfolding is_object find lookup same_text as_cstring strlen until_nul
read_text-bound_example =
    read_text-bound json IsObject find laws (b'n' ∷ []) (b'a' ∷ b'b' ∷ b'c' ∷ []) 3
      (text (b'a' ∷ b'b' ∷ b'c' ∷ [])) named refl refl refl (omega arith)

-- Every thread can be made.
abbrev make : Thread → Pipe → ℤ × Pipe
make thread n = (pos 0, n)

start_threads-Started_example :
    Started make (pos_part (pos 3)) quiet.net (start_threads make (pos 3) quiet)
start_threads-Started_example = start_threads-Started make (pos 3) quiet

-- A library that finds the same two texts in every document.
abbrev metadata : Value
metadata = object (
    member (codes "uuid") (text (b'u' ∷ b'1' ∷ []))
      (member (codes "name") (text (b'v' ∷ b'm' ∷ [])) done))

abbrev web_json : Json Value ℤ
web_json = record json { parse = λ document v. (true, metadata) }

metadata-Readable : (body : List ℕ) → Readable web_json (parsed web_json body)
unfolding read_text read_value_string when_member copy_chars source_bytes store array_text
    read_parse init_data new_parser is_member get_member lookup same_text as_cstring strlen signed32
metadata-Readable body = record {
  uuid = (some (b'u' ∷ b'1' ∷ []), refl);
  availability_zone = (none, refl);
  host = (none, refl);
  metaname = (some (b'v' ∷ b'm' ∷ []), refl);
}

-- Index 3, an address and no more: the port stays 0, and so does the size of the pool.
abbrev settings : Settings
settings = record settings_start { server_index = pos 3; manager_ip = b'1' ∷ b'.' ∷ b'2' ∷ [] }

configured : read_conf is_blank (conf_file lines) settings_start ≡ ok settings
unfolding read_conf conf_loop scan_line split_line set_line scan_int scan_text signed_int
    unsigned_int digits_value fit skip_space first_word strlen until_nul conf_file
configured = refl

main-Launched_example : Launched guarded_os make (pos 0) (
    main guarded_os web web_json make is_blank no_peer
      (pos 0)
      none
      (pos 0)
      (pos 0)
      (pos 0)
      (pos 0)
      (pos 0)
      (some (conf_file lines))
      quiet)
unfolding scan_word first_word skip_space init_log sweep_dir fit
main-Launched_example =
    main-Launched guarded_os web web_json make is_blank no_peer (pos 0) none (pos 0) (pos 0)
      pipe_incoming pipe_sent guarded-ReadLaws guarded-WriteLaws guarded-SelectLaws
      guarded-Descriptors settings quiet (b'1' ∷ b'.' ∷ b'2' ∷ []) refl
      (λ q w' e. metadata-Readable (get web (pos 0) metadata_url [] w'.net).0.body)
      (conf_file lines) [] none configured refl
