-- ===== src/DataChannel/Args/Parsing.antt =====
-- What the command line means.
use webrtc_echoes.Base.{
  ℕ, ◌+◌, ◌*◌, ◌≡◌, refl, sym, ap, ◌∙◌, true, Option, none, some, List, [], ◌∷◌, ◌++◌, append-nil,
  arith, if◌then◌else◌, length, ℤ, pos, Bytes, codes,
}
use webrtc_echoes.DataChannel.Args.{
  kind, atoi, is_int, out_of_range, positional, settings, parse, default_url, start, start_from,
}

-- The options that set something, as a user writes them.
pub data Setting : Type 0 where
  set_test set_url : Bytes → Setting

abbrev pub written : List Setting → List Bytes
written [] = []
written (set_test value ∷ rest) = codes "-t" ∷ value ∷ written rest
written (set_url value ∷ rest) = codes "-s" ∷ value ∷ written rest

abbrev pub last_test : ℤ → List Setting → ℤ
last_test test [] = test
last_test test (set_test value ∷ rest) = last_test (atoi value) rest
last_test test (set_url value ∷ rest) = last_test test rest

abbrev pub last_url : Bytes → List Setting → Bytes
last_url url [] = url
last_url url (set_test value ∷ rest) = last_url url rest
last_url url (set_url value ∷ rest) = last_url value rest

-- The values of the test option are numbers that an int holds.
abbrev pub AreInts : List Setting → Type 0
AreInts [] = Unit {0}
AreInts (set_test value ∷ rest) = (is_int (atoi value) ≡ true) × AreInts rest
AreInts (set_url value ∷ rest) = AreInts rest

-- The loop takes the written settings in, and goes on with what follows them.
pub parse-written :
    (i : ℕ) (test : ℤ) (url : Bytes) (chosen : List Setting) (rest : List Bytes)
    → AreInts chosen
    → parse i test url (written chosen ++ rest)
      ≡ parse (i + 2 * length chosen) (last_test test chosen) (last_url url chosen) rest
unfolding parse
parse-written i test url [] rest ints = ap (λ n. parse n test url rest) (omega arith)
parse-written i test url (set_test value ∷ chosen) rest ints =
    ap (λ b. if b then parse (i + 2) (atoi value) url (written chosen ++ rest) else out_of_range)
      ints.0
    ∙ parse-written (i + 2) (atoi value) url chosen rest ints.1
    ∙ ap (λ n. parse n (last_test (atoi value) chosen) (last_url url chosen) rest) (omega arith)
parse-written i test url (set_url value ∷ chosen) rest ints =
    parse-written (i + 2) test value chosen rest ints
    ∙ ap (λ n. parse n (last_test test chosen) (last_url value chosen) rest) (omega arith)

-- A command line with a URL in front, or none, and settings behind it.
abbrev pub command : Option Bytes → List Setting → List Bytes
command none chosen = written chosen
command (some url) chosen = url ∷ written chosen

abbrev pub IsPositional : Option Bytes → Type 0
IsPositional none = Unit {0}
IsPositional (some url) = kind url ≡ positional

abbrev pub lead_or : Option Bytes → Bytes
lead_or none = default_url
lead_or (some url) = url

parse_end : (i : ℕ) (test : ℤ) (url : Bytes) → parse i test url [] ≡ settings test url
unfolding parse
parse_end i test url = refl

pub parse_lead :
    (url : Bytes) (rest : List Bytes)
    → kind url ≡ positional
    → parse 1 (pos 0) default_url (url ∷ rest) ≡ parse 2 (pos 0) url rest
unfolding parse
parse_lead url [] h = rw (h, parse)
parse_lead url (value ∷ rest) h = rw (h, parse)

-- A command line of settings whose numbers an int holds, with a URL in front of them or none, sets the
-- test and the URL to those given last, the defaults being test 0 and the server on the local host.
pub start_lem :
    (lead : Option Bytes) (chosen : List Setting)
    → IsPositional lead
    → AreInts chosen
    → start (command lead chosen)
      ≡ start_from (settings (last_test (pos 0) chosen) (last_url (lead_or lead) chosen))
unfolding start
start_lem none chosen h ints = ap start_from (
    ap (parse 1 (pos 0) default_url) (sym (append-nil (written chosen)))
    ∙ parse-written 1 (pos 0) default_url chosen [] ints
    ∙ parse_end (1 + 2 * length chosen) (last_test (pos 0) chosen) (last_url default_url chosen))
start_lem (some url) chosen h ints = ap start_from (
    parse_lead url (written chosen) h
    ∙ ap (parse 2 (pos 0) url) (sym (append-nil (written chosen)))
    ∙ parse-written 2 (pos 0) url chosen [] ints
    ∙ parse_end (2 + 2 * length chosen) (last_test (pos 0) chosen) (last_url url chosen))
