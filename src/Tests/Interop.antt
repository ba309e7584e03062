-- ===== src/Tests/Interop.antt =====
-- The libdatachannel client against the server of this repository, at concrete inputs.
use webrtc_echoes.Base.{
  ℕ, ◌+◌, ◌≡◌, refl, true, not, Option, none, some, List, [], ◌∷◌, ◌++◌, length, take, drop,
  take-length, drop-length, pos, Bytes, codes,
}
use webrtc_echoes.DataChannel.Client.Session.{
  Exchange, text, ok, exchange, gathering_complete, track_open,
}
use webrtc_echoes.DataChannel.Server
use webrtc_echoes.DataChannel.Server.{Library, Response, handler_runs, channel_message}
use webrtc_echoes.DataChannel.Post.{Transport, IsHttp, offer_path}
use webrtc_echoes.DataChannel.Handshake.{IsReadable, reply_of, joined, exchange-joined}
use webrtc_echoes.DataChannel.Args.Parsing.{Setting, set_test, set_url, command}
use webrtc_echoes.DataChannel.Client.Program.{main, exit_code_of}
use webrtc_echoes.DataChannel.Interop.Among.{posting_among}
use webrtc_echoes.Interop.Command.{main-libdatachannel}
use webrtc_echoes.Tests.Servers.{options, connects}
use webrtc_echoes.DataChannel.Server.Program.{Happening, arrives, happens, main as server_main}

-- A pair of texts is written as the length of the first, the first and the second.
abbrev written : Bytes → Bytes → Bytes
written sdp type = length sdp ∷ sdp ++ type

abbrev read : Bytes → Option (Bytes × Bytes)
read [] = none
read (n ∷ rest) = some (take n rest, drop n rest)

read-written : (d : Bytes × Bytes) → read (written d.0 d.1) ≡ some d
read-written (sdp, type) = rw (take-length sdp type, drop-length sdp type) refl

abbrev server : Library
server = record {
  members = read;
  set_remote = λ remote. true;
  dump = λ sdp type. some (written sdp type);
  sends = λ closed m. not closed;
}

abbrev offer : Bytes × Bytes
offer = (codes "v=0", codes "offer")

abbrev client : Exchange
client = record {
  local = some offer;
  dump = written;
  post = λ path body. none;
  parse = λ body. true;
  members = read;
  set_remote = λ remote. true;
}

abbrev http : Transport (Option Server.Response)
http = record { deliver = reply_of; elsewhere = λ path. some (404, []) }

http-IsHttp : IsHttp reply_of http
http-IsHttp = record { arrives = λ h. refl }

ends-IsReadable : IsReadable server client
ends-IsReadable = record {
  offers = read-written;
  answers = λ d. (written d.0 d.1, refl, refl, read-written d);
}

abbrev traffic : List Server.Event
traffic =
    Server.gathering_complete (some (codes "v=1", codes "answer"))
    ∷ Server.handler_runs
    ∷ Server.channel_message 4 (text (codes "other"))
    ∷ Server.channel_message 2 (text (codes "abcde"))
    ∷ []

exchange-joined_example :
    exchange offer_path (joined http server traffic client) ≡ ok (codes "v=1", codes "answer")
exchange-joined_example =
    exchange-joined http server client http-IsHttp ends-IsReadable traffic offer refl

-- Draws that make the text of the test, and a command line.
abbrev draw : ℕ → ℕ
draw n = n + 10

abbrev chosen : List Setting
chosen = set_test (codes "1") ∷ set_url (codes "http://a/offer") ∷ []

-- The client's request is the second of three, and what happens to them is interleaved.
abbrev first_request : List Happening
first_request =
    arrives server (codes "no description") ∷ arrives server (written (codes "v=2") []) ∷ []

abbrev then_traffic : List Happening
then_traffic =
    happens 1 (Server.gathering_complete none)
    ∷ happens 2 (Server.gathering_complete (some (codes "v=1", codes "answer")))
    ∷ arrives server []
    ∷ happens 1 Server.handler_runs
    ∷ happens 2 Server.handler_runs
    ∷ happens 1 (Server.channel_message 2 (text (codes "other")))
    ∷ happens 2 (Server.channel_message 2 (text (codes "abcde")))
    ∷ []

main-libdatachannel_example :
    exit_code_of (
      main draw (command none options) (
        gathering_complete (posting_among http first_request server then_traffic client)
        ∷ track_open
        ∷ []))
    ≡ some (pos 0)
main-libdatachannel_example =
    main-libdatachannel none options (codes "http://localhost:8080") http server client offer
      first_request then_traffic draw (track_open ∷ []) http-IsHttp ends-IsReadable (λ body. refl)
      connects refl
