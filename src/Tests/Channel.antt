-- ===== src/Tests/Channel.antt =====
-- The libdatachannel peers at concrete inputs.
use webrtc_echoes.Base.{
  ◌≡◌, refl, ◌⊎◌, true, false, not, none, some, List, [], ◌∷◌, ◌++◌, pos, negsuc, Bytes, codes,
}
use webrtc_echoes.DataChannel.Url.{split_url, slash, has, split_url_lem, find_last_of}
use webrtc_echoes.DataChannel.Args.{
  atoi, digits_from, signed, refused, unknown_option, start, start_from, parse,
}
use webrtc_echoes.DataChannel.Args.Parsing.{set_test}
use webrtc_echoes.DataChannel.Args.Refusals.{other_option, start_stop}
use webrtc_echoes.DataChannel.Client.Promise.{sliced, fulfilled, promise_satisfied}
use webrtc_echoes.DataChannel.Client.Session.{
  Exchange, exchange, gathering_complete, text, binary, message, track_open, channel_open,
  disconnected, Client, new_client, on_event, run, session,
}
use webrtc_echoes.DataChannel.Client.Program.{main, exit_code_of}
use webrtc_echoes.DataChannel.Client.Program.Exit.{main-exit_of}
use webrtc_echoes.DataChannel.Client.Verdict.{session-passes}
use webrtc_echoes.DataChannel.Client.Late.{run-escaped}
use webrtc_echoes.DataChannel.Client.Reports.{session_wrong, decides_late}
use webrtc_echoes.DataChannel.Server
use webrtc_echoes.DataChannel.Server.{
  Library, new_connection, post_offer, answered, channel_message, track_message, handler_runs,
}
use webrtc_echoes.DataChannel.Server.Echoing.{HandlingEchoes, post_offer-HandlingEchoes}
use webrtc_echoes.DataChannel.Server.Lifetime.{HasLifetime, post_offer-HasLifetime}
use webrtc_echoes.DataChannel.Server.Responses.{response_of, post_offer-response}

-- The settings, a URL and a number, and the forms of a number.
atoi_forms :
    (atoi (codes " -12x") ≡ negsuc 11) × (atoi (codes "x") ≡ pos 0) × (atoi (codes "+7") ≡ pos 7)
unfolding atoi signed digits_from
atoi_forms = (refl, refl, refl)

split_url_lem_example :
    ((split_url (codes "a/b") ≡ none) × (has slash (codes "a/b") ≡ false))
    ⊎ ((server : Bytes) × (path : Bytes) × (tail : Bytes) × (split_url (codes "a/b")
          ≡ some (server, path))
        × (server ++ path ≡ codes "a/b")
        × (path ≡ slash ∷ tail)
        × (has slash tail ≡ false))
split_url_lem_example = split_url_lem (codes "a/b")

start_stop_example :
    start (codes "http://a/b" ∷ codes "-t" ∷ codes "1" ∷ codes "-x" ∷ codes "-h" ∷ [])
    ≡ refused (unknown_option (codes "x"))
unfolding atoi signed digits_from
start_stop_example =
    start_stop (some (codes "http://a/b")) (set_test (codes "1") ∷ [])
      (other_option (codes "x") (codes "-h" ∷ [])) refl (refl, tt) refl

-- The echo arrives, and then the connection is lost.
echoed_in_time :
    (session true
      (codes "abcde")
      (codes "/offer")
      (channel_open ∷ message (text (codes "abcde")) ∷ disconnected ∷ [])).1
    ≡ pos 0
echoed_in_time =
    session-passes true (codes "abcde") (codes "/offer")
      (channel_open ∷ message (text (codes "abcde")) ∷ disconnected ∷ [])

-- The peer connection test, passed by the track that opens, against the server on the local host.
main-exit_of_example :
    exit_code_of (main (λ n. 0) [] (track_open ∷ disconnected ∷ [])) ≡ some (pos 0)
unfolding start start_from parse split_url find_last_of
main-exit_of_example = main-exit_of (λ n. 0) [] (track_open ∷ disconnected ∷ [])

-- An exchange that comes to its end.
abbrev exchanged : Exchange
exchanged = record {
  local = some (codes "v=0", codes "offer");
  dump = λ sdp type. sdp;
  post = λ path body. some (200, body);
  parse = λ body. true;
  members = λ body. some (body, codes "answer");
  set_remote = λ remote. true;
}

session_wrong_example :
    session true (codes "abcde") (codes "/offer") (
      gathering_complete exchanged
      ∷ channel_open
      ∷ message (text (codes "xyz"))
      ∷ message (text (codes "abcde"))
      ∷ [])
    ≡ (some sliced, negsuc 0)
unfolding exchange
session_wrong_example =
    session_wrong (codes "abcde") (codes "/offer")
      (gathering_complete exchanged ∷ channel_open ∷ []) (text (codes "xyz"))
      (message (text (codes "abcde")) ∷ []) (refl, (refl, tt)) refl

abbrev passed : Client
passed = record (new_client false [] []) { promise = fulfilled }

decided_late : (on_event disconnected passed).escaped ≡ promise_satisfied ∷ []
decided_late = (decides_late disconnected passed false refl refl).1

-- The echo, a loss of the connection, and another message.
run-escaped_example :
    (run
      (message (text (codes "abcde")) ∷ disconnected ∷ channel_open ∷ message (binary []) ∷ [])
      (new_client true (codes "abcde") (codes "/offer"))).escaped
    ≡ promise_satisfied ∷ promise_satisfied ∷ []
run-escaped_example =
    run-escaped true (codes "abcde") (codes "/offer")
      (message (text (codes "abcde")) ∷ disconnected ∷ channel_open ∷ message (binary []) ∷ [])

-- A description is text and type, and is set always.
abbrev plain : Library
plain = record {
  members = λ body. some (body, codes "offer");
  set_remote = λ remote. true;
  dump = λ sdp type. some sdp;
  sends = λ closed m. not closed;
}

abbrev traffic : List Server.Event
traffic =
    Server.gathering_complete (some (codes "v=0", codes "answer"))
    ∷ Server.handler_runs
    ∷ Server.channel_message 4 (text (codes "other"))
    ∷ Server.channel_message 2 (text (codes "abcde"))
    ∷ Server.track_message 1 (binary (codes "frame"))
    ∷ Server.disconnected
    ∷ Server.channel_message 2 (text (codes "late"))
    ∷ []

post_offer-response_example :
    response_of (post_offer plain (codes "v=0") traffic) ≡ some (answered (codes "v=0"))
post_offer-response_example = post_offer-response plain (codes "v=0") traffic

post_offer-HandlingEchoes_example :
    HandlingEchoes plain true new_connection traffic (post_offer plain (codes "v=0") traffic)
post_offer-HandlingEchoes_example = post_offer-HandlingEchoes plain (codes "v=0") traffic

-- Gathering completes before and after the response too.
abbrev twice : List Server.Event
twice = Server.gathering_complete none ∷ traffic ++ (Server.gathering_complete none ∷ [])

post_offer-HasLifetime_example : HasLifetime twice (post_offer plain (codes "v=0") twice)
post_offer-HasLifetime_example = post_offer-HasLifetime plain (codes "v=0") twice
