-- ===== src/Tests/Servers.antt =====
-- The libdatachannel client against the libwebrtc server, at concrete inputs.
pub mod Gst
use webrtc_echoes.Base.{
  ◌≡◌, refl, subst, inl, inr, Bool, true, false, Option, none, some, some-injective, List, [], ◌∷◌,
  ◌++◌, arith, ◌==◌, if◌then◌else◌, length, take, drop, take-length, drop-length, pos, Bytes, codes,
  eqb, eqb_iff, c_str,
}
use webrtc_echoes.PeerFactory.Factory.{Factory}
use webrtc_echoes.PeerFactory.Create.Answers.{IsErrorText}
use webrtc_echoes.PeerFactory.Create
use webrtc_echoes.HttpServer.Handler
use webrtc_echoes.HttpServer.Handler.{Allocator, Handled, post, replied, exception, crash}
use webrtc_echoes.Gstreamer.Pipeline
use webrtc_echoes.Gstreamer.Handler as GstHandler
use webrtc_echoes.DataChannel.Client.Session.{
  Exchange, exchange, ok, gathering_complete, track_open,
}
use webrtc_echoes.DataChannel.Post.{Transport, IsHttp, offer_path}
use webrtc_echoes.Interop.Libwebrtc
use webrtc_echoes.Interop.Libwebrtc.{text_of, reply_of, joined, IsReadable}
use webrtc_echoes.Interop.Libwebrtc.Offers.{exchange-libwebrtc}
use webrtc_echoes.Interop.Command.{Connects, main-libwebrtc, main-gstreamer}
use webrtc_echoes.DataChannel.Args.{atoi, parse}
use webrtc_echoes.DataChannel.Args.Parsing.{Setting, set_test, set_url, command}
use webrtc_echoes.DataChannel.Client.Program.{main, exit_code_of}

-- The client writes its description as the length of the SDP, the SDP and the type.
abbrev written : Bytes → Bytes → Bytes
written sdp type = length sdp ∷ sdp ++ type

abbrev read : Bytes → Option (Bytes × Bytes)
read [] = none
read (n ∷ rest) = some (take n rest, drop n rest)

read-written : (d : Bytes × Bytes) → read (written d.0 d.1) ≡ some d
read-written (sdp, type) = rw (take-length sdp type, drop-length sdp type) refl

-- A server writes an answer as a brace and the SDP.
abbrev pub is_braced : Bytes → Bool
is_braced [] = false
is_braced (c ∷ s) = c == b'{'

abbrev pub unbraced : Bytes → Option (Bytes × Bytes)
unbraced [] = none
unbraced (c ∷ sdp) = some (sdp, codes "answer")

abbrev pub braced : List (Bytes × Bytes) → Bytes
braced (type ∷ (name, sdp) ∷ []) = b'{' ∷ sdp
braced _ = []

abbrev braced_text : List (Bytes × Bytes) → Option Bytes
braced_text members = let body = braced members in if eqb (c_str body) body then some body else none

abbrev pub offer : Bytes × Bytes
offer = (codes "v=0", codes "offer")

abbrev pub client : Exchange
client = record {
  local = some offer;
  dump = written;
  post = λ path body. none;
  parse = is_braced;
  members = unbraced;
  set_remote = λ remote. true;
}

abbrev libwebrtc : Create.Library (Bytes × Bytes)
libwebrtc = record {
  parse = read;
  sdp_of = λ json. some json.0;
  new_connection = some 7;
  audio_track = true;
  add_track = true;
  parse_sdp = λ sdp. true;
  ready_in_time = true;
  local_description = some (codes "v=1");
  dump = braced_text;
}

abbrev http : Transport Handled
http = record { deliver = Libwebrtc.reply_of; elsewhere = λ path. some (404, []) }

http-IsHttp : IsHttp Libwebrtc.reply_of http
http-IsHttp = record { arrives = λ h. refl }

errors_are_no_json : (body : Bytes) → IsErrorText body → is_braced (c_str body) ≡ false
errors_are_no_json body (inl e) = rw e refl
errors_are_no_json body (inr (inl e)) = rw e refl
errors_are_no_json body (inr (inr e)) = rw e refl

kept_if :
    (b : Bool) (body answer : Bytes)
    → (if b then some body else none) ≡ some answer
    → (b ≡ true) × (body ≡ answer)
kept_if true body answer e = (refl, some-injective _ _ e)
kept_if false body answer e = absurd (cc)

answers_are_read :
    (sdp answer : Bytes)
    → braced_text ((codes "type", codes "answer") ∷ (codes "sdp", sdp) ∷ []) ≡ some answer
    → (c_str answer ≡ answer)
      × (is_braced answer ≡ true)
      × (unbraced answer ≡ some (sdp, codes "answer"))
answers_are_read sdp answer e =
    let body : Bytes = b'{' ∷ sdp in
    let (whole, same) = kept_if (eqb (c_str body) body) body answer e in
    subst
      (λ answer.
        (c_str answer ≡ answer)
        × (is_braced answer ≡ true)
        × (unbraced answer ≡ some (sdp, codes "answer")))
      same ((eqb_iff (c_str body) body).0 whole, refl, refl)

ends-IsReadable : Libwebrtc.IsReadable libwebrtc client
ends-IsReadable = record {
  offers = λ d. ((λ e. ground arith), (d, read-written d, refl));
  answers = answers_are_read;
  errors = errors_are_no_json;
}

abbrev working : Allocator
working = record { response_buffer = true; request_buffer = true }

abbrev factory : Factory
factory = record {
  has_factory = true;
  dependencies = none;
  peer_connections = [];
  close_calls = [];
}

exchange-libwebrtc_example :
    exchange offer_path (Libwebrtc.joined http working libwebrtc factory client)
    ≡ ok (codes "v=1", codes "answer")
exchange-libwebrtc_example =
    exchange-libwebrtc http working libwebrtc client http-IsHttp ends-IsReadable offer factory refl
      (omega arith)

abbrev pub options : List Setting
options = set_url (codes "http://localhost:8080/offer") ∷ set_test (codes "0") ∷ []

pub connects : Connects none options (codes "http://localhost:8080")
unfolding atoi
connects = record { is_positional = tt; are_ints = (refl, tt); test = refl; url = refl }

main-libwebrtc_example :
    exit_code_of (
      main
        (λ i. i)
        (command none options)
        (gathering_complete (Libwebrtc.joined http working libwebrtc factory client)
          ∷ track_open
          ∷ []))
    ≡ some (pos 0)
main-libwebrtc_example =
    main-libwebrtc none options (codes "http://localhost:8080") http working libwebrtc client offer
      factory (λ i. i) (track_open ∷ []) http-IsHttp ends-IsReadable connects refl (omega arith)
