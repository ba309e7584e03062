-- ===== src/Interop/Gst.antt =====
-- The offer that the libdatachannel client posts (libdatachannel/client.cpp, lines 105 to 140) and the
-- answer that it gets from the GStreamer server (gstreamer/gstreamer-webrtc-echo.c).
pub mod Offers
use webrtc_echoes.Base.{
  ℕ, ◌≡◌, ◌≢◌, Bool, true, false, not, ◌&&◌, Option, none, some, [], ◌∷◌, if◌then◌else◌, Bytes,
  codes, c_str,
}
use webrtc_echoes.HttpServer.Handler.{Reply, post}
use webrtc_echoes.Gstreamer.Pipeline.{is_replied}
use webrtc_echoes.Gstreamer.Handler.{
  Library, Handled, replied_with, aborted, crash, Object, on_http_request_cb,
}
use webrtc_echoes.Gstreamer.Handler.Outcomes.{IsHonest, on_http_request_cb-IsHonest}
use webrtc_echoes.DataChannel.Client.Promise.{request_failed, bad_status}
use webrtc_echoes.DataChannel.Client.Session.{Exchange, Outcome, throws, exchange}
use webrtc_echoes.DataChannel.Post.{Transport, posting, set_or_throw}
use webrtc_echoes.Interop.Libwebrtc.{text_of}

-- What the server sends. A server that dies sends nothing; what one does that follows the wild pointer
-- of a reply without an answer is undefined, and nothing is said of it.
abbrev pub reply_of : Handled → Option (ℕ × Bytes)
reply_of (replied_with r left) = some (r.status, text_of r.content)
reply_of aborted = none
reply_of crash = none

module _ {Json : Type 0} where
  abbrev pub joined : Transport Handled → Library Json → Exchange → Exchange
  joined http lib x =
      posting http (λ body. (on_http_request_cb lib (record { method = post; body = body })).0) x

  -- The server reads the SDP of the client's JSON, and the client the JSON that the server prints of an
  -- answer.
  pub record IsReadable (lib : Library Json) (x : Exchange) : Type 0 where
    pub offers :
        (d : Bytes × Bytes)
        → (x.dump d.0 d.1 ≢ [])
          × ((json : Json) × (lib.parse (c_str (x.dump d.0 d.1)) ≡ some json)
              × (lib.sdp_string json ≡ some d.0))
    pub parses :
        (sdp : Bytes)
        → x.parse (lib.print ((codes "type", codes "answer") ∷ (codes "sdp", sdp) ∷ [])) ≡ true
    pub reads :
        (sdp : Bytes)
        → x.members (lib.print ((codes "type", codes "answer") ∷ (codes "sdp", sdp) ∷ []))
          ≡ some (sdp, codes "answer")

abbrev is_none : {A : Type 0} → Option A → Bool
is_none none = true
is_none (some a) = false

-- The reply has no answer, and the variable of the answer, which was never set, holds no null pointer.
abbrev pub reads_wild : {Json : Type 0} → Library Json → Bool
reads_wild lib = is_replied lib.answer_result && (is_none lib.answer && not lib.stale_is_null)

module _ {Json : Type 0} (lib : Library Json) (x : Exchange) where
  -- What the client comes to with the answer of the promise on which the handler waits.
  abbrev pub met_answer : Option Bytes → Outcome (Bytes × Bytes)
  met_answer none = throws bad_status
  met_answer (some sdp) = set_or_throw x (sdp, codes "answer")

  abbrev pub met_promise : Outcome (Bytes × Bytes)
  met_promise = if is_replied lib.answer_result then met_answer lib.answer else throws bad_status

  -- And what to an offer.
  abbrev pub met : Bytes × Bytes → Outcome (Bytes × Bytes)
  met offer =
      if not (lib.response_buffer && lib.request_buffer)
      then throws request_failed
      else if not (lib.launch.launches && lib.launch.plays)
      then throws bad_status
      else if lib.parse_sdp offer.0
      then met_promise
      else throws request_failed
