-- ===== src/DataChannel/Args.antt =====
-- The command line of the libdatachannel client (libdatachannel/client.cpp, lines 46 to 91).
pub mod Parsing
pub mod Refusals
pub mod Numbers
use webrtc_echoes.Base.{
  ℕ, ◌+◌, ◌-◌, ◌*◌, Bool, not, ◌&&◌, ◌||◌, Option, none, some, List, [], ◌∷◌, ltb, leb, ◌==◌,
  if◌then◌else◌, neg, eqb_ℤ, ℤ, pos, negsuc, Bytes, codes, eqb,
}
use webrtc_echoes.DataChannel.Url.{split_url}

-- std::atoi: white space, a sign, and the digits up to the first other character. This is the number
-- that they make; what happens with one that no int holds is undefined.
abbrev pub is_space : ℕ → Bool
is_space c = c == b' ' || (leb 9 c && leb c 13)

abbrev pub is_digit : ℕ → Bool
is_digit c = leb b'0' c && leb c b'9'

unfoldable pub digits_from : ℕ → Bytes → ℕ
digits_from value [] = value
digits_from value (c ∷ s) =
    let rest = digits_from (value * 10 + (c - b'0')) s in if is_digit c then rest else value

unfoldable pub signed : Bytes → ℤ
unfolding digits_from
signed [] = pos 0
signed (c ∷ s) =
    if c == b'-'
    then neg (digits_from 0 s)
    else if c == b'+'
    then pos (digits_from 0 s)
    else pos (digits_from 0 (c ∷ s))

unfoldable pub atoi : Bytes → ℤ
unfolding signed
atoi [] = pos 0
atoi (c ∷ s) = let rest = atoi s in if is_space c then rest else signed (c ∷ s)

abbrev pub is_int : ℤ → Bool
is_int (pos n) = ltb n 2147483648
is_int (negsuc n) = ltb n 2147483648

-- What the loop makes of an argument by itself.
pub data Kind : Type 0 where
  help test_number server_url positional : Kind
  unknown : Bytes → Kind

abbrev option_kind : Bytes → Kind
option_kind option =
    if eqb option (codes "h")
    then help
    else if eqb option (codes "t")
    then test_number
    else if eqb option (codes "s")
    then server_url
    else unknown option

abbrev pub kind : Bytes → Kind
kind [] = positional
kind (c ∷ option) = if c == b'-' then option_kind option else positional

-- The exceptions std::invalid_argument, by their message.
pub data Invalid : Type 0 where
  missing_argument unknown_option unexpected_positional : Bytes → Invalid
  invalid_test invalid_url : Invalid

pub data Parsed : Type 0 where
  help_shown : Parsed
  settings : ℤ → Bytes → Parsed
  invalid : Invalid → Parsed
  out_of_range : Parsed

-- A positional argument at the index `i`.
abbrev positional_at : ℕ → Bytes → Parsed → Parsed
positional_at i arg rest = if ltb 1 i then invalid (unexpected_positional arg) else rest

-- The value of the test option.
abbrev if_int : ℤ → Parsed → Parsed
if_int test rest = if is_int test then rest else out_of_range

-- The loop from the index `i`, with the arguments from there on.
unfoldable pub parse : ℕ → ℤ → Bytes → List Bytes → Parsed
parse i test url [] = settings test url
parse i test url (arg ∷ []) = elim (kind arg) [
  | help ↦ help_shown
  | test_number ↦ invalid (missing_argument (codes "t"))
  | server_url ↦ invalid (missing_argument (codes "s"))
  | positional ↦ positional_at i arg (settings test arg)
  | unknown option ↦ invalid (unknown_option option)
]
parse i test url (arg ∷ value ∷ rest) = elim (kind arg) [
  | help ↦ help_shown
  | test_number ↦ if_int (atoi value) (parse (i + 2) (atoi value) url rest)
  | server_url ↦ parse (i + 2) test value rest
  | positional ↦ positional_at i arg (parse (i + 1) test arg (value ∷ rest))
  | unknown option ↦ invalid (unknown_option option)
]

abbrev pub default_url : Bytes
default_url = codes "http://localhost:8080/offer"

-- Main up to the client: it ends for help, throws, or goes on with a test, a server and a path; or it
-- has read a number that no int holds.
pub data Start : Type 0 where
  help_exit undefined : Start
  refused : Invalid → Start
  begins : Bool → Bytes → Bytes → Start

abbrev with_parts : Bool → Option (Bytes × Bytes) → Start
with_parts channel_test none = refused invalid_url
with_parts channel_test (some (server, path)) = begins channel_test server path

-- The test is 0, the peer connection, or 1, the data channel.
unfoldable pub start_from : Parsed → Start
start_from help_shown = help_exit
start_from (invalid e) = refused e
start_from out_of_range = undefined
start_from (settings test url) =
    if not (eqb_ℤ test (pos 0)) && not (eqb_ℤ test (pos 1))
    then refused invalid_test
    else with_parts (not (eqb_ℤ test (pos 0))) (split_url url)

-- `args` are those behind the program's name.
unfoldable pub start : List Bytes → Start
unfolding parse start_from
start args = start_from (parse 1 (pos 0) default_url args)
