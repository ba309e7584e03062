-- ===== src/DataChannel/Client/Program.antt =====
-- The main function of the client as a whole (libdatachannel/client.cpp, lines 46 to 194).
pub mod Exit
use webrtc_echoes.Base.{ℕ, Bool, Option, none, some, List, [], if◌then◌else◌, ℤ, pos, negsuc, Bytes}
use webrtc_echoes.DataChannel.Args.{Start, help_exit, undefined, refused, begins, Invalid, start}
use webrtc_echoes.DataChannel.Random.{random_string}
use webrtc_echoes.DataChannel.Client.Promise.{Error}
use webrtc_echoes.DataChannel.Client.Session.{Event, session}

-- What the handler around main prints after "Error: ".
pub data Report : Type 0 where
  bad_argument : Invalid → Report
  failed : Error → Report

abbrev reported : Option Error → Option Report
reported none = none
reported (some e) = some (failed e)

-- The text of the data channel test, of five characters.
abbrev pub test_text : (ℕ → ℕ) → Bool → Bytes
test_text draw channel_test = if channel_test then random_string draw 5 else []

-- The program ends with an exit code, or its behaviour is undefined.
pub data Ending : Type 0 where
  exits : Option Report → ℤ → Ending
  undefined_ending : Ending

abbrev from_session : Option Error × ℤ → Ending
from_session (report, code) = exits (reported report) code

-- From the command line on, with the events of the ten seconds.
unfoldable pub main_from : (ℕ → ℕ) → List Event → Start → Ending
main_from draw events help_exit = exits none (pos 0)
main_from draw events undefined = undefined_ending
main_from draw events (refused e) = exits (some (bad_argument e)) (negsuc 0)
main_from draw events (begins channel_test server path) =
    from_session (session channel_test (test_text draw channel_test) path events)

unfoldable pub main : (ℕ → ℕ) → List Bytes → List Event → Ending
unfolding main_from
main draw args events = main_from draw events (start args)

-- The exit code, where there is one.
abbrev pub exit_code_of : Ending → Option ℤ
exit_code_of (exits report code) = some code
exit_code_of undefined_ending = none
