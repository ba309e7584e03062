-- ===== src/Tests/Servers/Gst.antt =====
-- The libdatachannel client against the GStreamer server, at concrete inputs.
use webrtc_echoes.Base.{
  ◌+◌, ◌-◌, ◌≡◌, refl, ap, ◌∙◌, true, Option, none, some, [], ◌∷◌, arith, pos, Bytes, codes, c_str,
}
use webrtc_echoes.Gstreamer.Pipeline
use webrtc_echoes.Gstreamer.Handler as GstHandler
use webrtc_echoes.DataChannel.Client.Session.{
  Exchange, exchange, ok, gathering_complete, track_open,
}
use webrtc_echoes.DataChannel.Post.{Transport, IsHttp, offer_path}
use webrtc_echoes.Interop.Gst as GstInterop
use webrtc_echoes.Interop.Gst.Offers.{exchange-gstreamer}
use webrtc_echoes.Interop.Command.{main-gstreamer}
use webrtc_echoes.DataChannel.Args.Parsing.{command}
use webrtc_echoes.DataChannel.Client.Program.{main, exit_code_of}
use webrtc_echoes.Tests.Servers.{client, offer, braced, options, connects}

-- For this server the client writes its SDP behind a brace and without NUL.
abbrev raised : Bytes → Bytes
raised [] = []
raised (c ∷ s) = (c + 1) ∷ raised s

abbrev lowered : Bytes → Bytes
lowered [] = []
lowered (c ∷ s) = (c - 1) ∷ lowered s

c_str-raised : (s : Bytes) → c_str (raised s) ≡ raised s
c_str-raised [] = refl
c_str-raised (c ∷ s) = let rest = c_str-raised s in grind arith

lowered-raised : (s : Bytes) → lowered (raised s) ≡ s
lowered-raised [] = refl
lowered-raised (c ∷ s) = let rest = lowered-raised s in grind arith

abbrev unraised : Bytes → Option Bytes
unraised [] = none
unraised (c ∷ s) = some (lowered s)

unraised-c_str : (sdp : Bytes) → unraised (c_str (b'{' ∷ raised sdp)) ≡ some sdp
unraised-c_str sdp = ap (λ s. some (lowered s)) (c_str-raised sdp) ∙ ap some (lowered-raised sdp)

abbrev gst_client : Exchange
gst_client = record client { dump = λ sdp type. b'{' ∷ raised sdp }

abbrev gstreamer : GstHandler.Library Bytes
gstreamer = record {
  response_buffer = true;
  request_buffer = true;
  locks = pos 0;
  parse = unraised;
  sdp_string = λ json. some json;
  launch = record { launches = true; plays = true };
  parse_sdp = λ sdp. true;
  answer_result = Pipeline.replied;
  answer = some (codes "v=1");
  stale_is_null = true;
  print = braced;
}

abbrev gst_http : Transport GstHandler.Handled
gst_http = record { deliver = GstInterop.reply_of; elsewhere = λ path. some (404, []) }

gst_http-IsHttp : IsHttp GstInterop.reply_of gst_http
gst_http-IsHttp = record { arrives = λ h. refl }

gst-IsReadable : GstInterop.IsReadable gstreamer gst_client
gst-IsReadable = record {
  offers = λ d. ((λ e. ground arith), (d.0, unraised-c_str d.0, refl));
  parses = λ sdp. refl;
  reads = λ sdp. refl;
}

exchange-gstreamer_example :
    exchange offer_path (GstInterop.joined gst_http gstreamer gst_client)
    ≡ ok (codes "v=1", codes "answer")
exchange-gstreamer_example =
    exchange-gstreamer gst_http gstreamer gst_client gst_http-IsHttp gst-IsReadable refl offer refl

main-gstreamer_example :
    exit_code_of (
      main
        (λ i. i)
        (command none options)
        (gathering_complete (GstInterop.joined gst_http gstreamer gst_client) ∷ track_open ∷ []))
    ≡ some (pos 0)
main-gstreamer_example =
    main-gstreamer none options (codes "http://localhost:8080") gst_http gstreamer gst_client offer
      (λ i. i) (track_open ∷ []) gst_http-IsHttp gst-IsReadable refl connects refl
