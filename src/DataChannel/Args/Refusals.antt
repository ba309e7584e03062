-- ===== src/DataChannel/Args/Refusals.antt =====
-- Where a command line of settings stops before its end.
use webrtc_echoes.Base.{
  ℕ, ◌+◌, ◌*◌, ◌<◌, ◌≡◌, refl, ap, ◌∙◌, false, Option, none, some, List, [], ◌∷◌, ◌++◌, arith,
  if◌then◌else◌, length, ℤ, pos, Bytes, codes,
}
use webrtc_echoes.DataChannel.Args.{
  kind, atoi, is_int, out_of_range, undefined, positional, unknown, unexpected_positional,
  unknown_option, missing_argument, invalid, help_shown, Parsed, parse, default_url, start,
  start_from, refused, help_exit, Start,
}
use webrtc_echoes.DataChannel.Args.Parsing.{
  Setting, written, last_test, last_url, command, IsPositional, lead_or, AreInts, parse-written,
  parse_lead,
}

-- What stops the loop: the help option, a URL that is not the first argument, an option that is none,
-- a number that no int holds, and an option without its value at the end.
pub data Stop : Type 0 where
  asks_help : List Bytes → Stop
  late_url other_option no_int : Bytes → List Bytes → Stop
  no_number no_url : Stop

abbrev pub stop_args : Stop → List Bytes
stop_args (asks_help rest) = codes "-h" ∷ rest
stop_args (late_url url rest) = url ∷ rest
stop_args (other_option option rest) = (b'-' ∷ option) ∷ rest
stop_args (no_int value rest) = codes "-t" ∷ value ∷ rest
stop_args no_number = codes "-t" ∷ []
stop_args no_url = codes "-s" ∷ []

abbrev parsed_to : Stop → Parsed
parsed_to (asks_help rest) = help_shown
parsed_to (late_url url rest) = invalid (unexpected_positional url)
parsed_to (other_option option rest) = invalid (unknown_option option)
parsed_to (no_int value rest) = out_of_range
parsed_to no_number = invalid (missing_argument (codes "t"))
parsed_to no_url = invalid (missing_argument (codes "s"))

-- How main starts, or does not, after the stop.
abbrev pub started_to : Stop → Start
started_to (asks_help rest) = help_exit
started_to (late_url url rest) = refused (unexpected_positional url)
started_to (other_option option rest) = refused (unknown_option option)
started_to (no_int value rest) = undefined
started_to no_number = refused (missing_argument (codes "t"))
started_to no_url = refused (missing_argument (codes "s"))

-- At the index `i`.
abbrev pub Stops : ℕ → Stop → Type 0
Stops i (late_url url rest) = (1 < i) × (kind url ≡ positional)
Stops i (other_option option rest) = kind (b'-' ∷ option) ≡ unknown option
Stops i (no_int value rest) = is_int (atoi value) ≡ false
Stops i _ = Unit {0}

parse_stop :
    (i : ℕ) (test : ℤ) (url : Bytes) (stop : Stop)
    → Stops i stop
    → parse i test url (stop_args stop) ≡ parsed_to stop
unfolding parse
parse_stop i test url (asks_help []) h = refl
parse_stop i test url (asks_help (value ∷ rest)) h = refl
parse_stop i test url (late_url arg []) (late, h) = rw (h, parse) (ground arith)
parse_stop i test url (late_url arg (value ∷ rest)) (late, h) = rw (h, parse) (ground arith)
parse_stop i test url (other_option option []) h = rw (h, parse)
parse_stop i test url (other_option option (value ∷ rest)) h = rw (h, parse)
parse_stop i test url (no_int value rest) h =
    ap (λ b. if b then parse (i + 2) (atoi value) url rest else out_of_range) h
parse_stop i test url no_number h = refl
parse_stop i test url no_url h = refl

-- The index of the argument behind a URL in front, or none, and settings.
abbrev pub index_after : Option Bytes → List Setting → ℕ
index_after none chosen = 1 + 2 * length chosen
index_after (some url) chosen = 2 + 2 * length chosen

parse-command :
    (lead : Option Bytes) (chosen : List Setting) (rest : List Bytes)
    → IsPositional lead
    → AreInts chosen
    → parse 1 (pos 0) default_url (command lead chosen ++ rest)
      ≡ parse
          (index_after lead chosen)
          (last_test (pos 0) chosen)
          (last_url (lead_or lead) chosen)
          rest
parse-command none chosen rest h ints = parse-written 1 (pos 0) default_url chosen rest ints
parse-command (some url) chosen rest h ints =
    parse_lead url (written chosen ++ rest) h ∙ parse-written 2 (pos 0) url chosen rest ints

started : (stop : Stop) → start_from (parsed_to stop) ≡ started_to stop
unfolding start_from
started (asks_help rest) = refl
started (late_url url rest) = refl
started (other_option option rest) = refl
started (no_int value rest) = refl
started no_number = refl
started no_url = refl

-- Behind a URL in front, or none, and settings whose numbers an int holds, the help option ends the
-- program, and a URL that is not the first argument, an option that is none, and a missing value are
-- refused with what they name; what a number that no int holds does is undefined. What follows makes
-- no difference.
pub start_stop :
    (lead : Option Bytes) (chosen : List Setting) (stop : Stop)
    → IsPositional lead
    → AreInts chosen
    → Stops (index_after lead chosen) stop
    → start (command lead chosen ++ stop_args stop) ≡ started_to stop
unfolding start
start_stop lead chosen stop h ints k =
    ap start_from (
      parse-command lead chosen (stop_args stop) h ints
      ∙ parse_stop (index_after lead chosen) (last_test (pos 0) chosen)
          (last_url (lead_or lead) chosen) stop k)
    ∙ started stop

-- A URL behind a setting is refused, whatever follows it.
start_late_url :
    (chosen : List Setting) (url : Bytes) (rest : List Bytes)
    → 0 < length chosen
    → AreInts chosen
    → kind url ≡ positional
    → start (written chosen ++ url ∷ rest) ≡ refused (unexpected_positional url)
start_late_url chosen url rest more ints h =
    start_stop none chosen (late_url url rest) tt ints (omega arith, h)
