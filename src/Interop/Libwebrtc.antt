-- ===== src/Interop/Libwebrtc.antt =====
-- The offer that the libdatachannel client posts (libdatachannel/client.cpp, lines 105 to 140) and the
-- answer that it gets from the libwebrtc server (libwebrtc/HttpSimpleServer.cpp and PcFactory.cpp).
pub mod Offers
use webrtc_echoes.Base.{
  ℕ, ◌≡◌, ◌≢◌, Bool, true, false, not, ◌&&◌, Option, none, some, [], ◌∷◌, if◌then◌else◌, Bytes,
  codes, c_str,
}
use webrtc_echoes.PeerFactory.Factory.{Factory}
use webrtc_echoes.PeerFactory.Create.{
  Library, Answer, returned, thrown, returned_or_thrown, offer_text, answer_from, negotiate,
  add_connection, create_from, parse_offer, create_peer_connection,
}
use webrtc_echoes.PeerFactory.Create.Answers.{IsErrorText}
use webrtc_echoes.HttpServer.Handler.{
  Allocator, Handled, replied, exception, crash, Reply, post, to_int32, send, send_answer,
  handle_offer, handle_body, on_http_request,
}
use webrtc_echoes.DataChannel.Client.Promise.{bad_json, request_failed}
use webrtc_echoes.DataChannel.Client.Session.{Exchange, Outcome, throws, exchange}
use webrtc_echoes.DataChannel.Post.{Transport, posting, set_or_throw}

abbrev pub text_of : Option Bytes → Bytes
text_of none = []
text_of (some content) = content

-- What the server sends. A server that dies sends nothing.
abbrev pub reply_of : Handled → Option (ℕ × Bytes)
reply_of (replied r live) = some (r.status, text_of r.content)
reply_of exception = none
reply_of crash = none

module _ {Json : Type 0} where
  abbrev pub joined : Transport Handled → Allocator → Library Json → Factory → Exchange → Exchange
  joined http memory lib f x =
      posting http
        (λ body. (on_http_request memory lib (record { method = post; body = body }) (some f)).0) x

  -- JSON between the two: the server reads the client's text, and the client the server's, in which
  -- there is no NUL. The three error texts are no JSON.
  pub record IsReadable (lib : Library Json) (x : Exchange) : Type 0 where
    pub offers :
        (d : Bytes × Bytes)
        → (x.dump d.0 d.1 ≢ [])
          × ((offer : Json) × (lib.parse (x.dump d.0 d.1) ≡ some offer)
              × (lib.sdp_of offer ≡ some d.0))
    pub answers :
        (sdp answer : Bytes)
        → lib.dump ((codes "type", codes "answer") ∷ (codes "sdp", sdp) ∷ []) ≡ some answer
        → (c_str answer ≡ answer)
          × (x.parse answer ≡ true)
          × (x.members answer ≡ some (sdp, codes "answer"))
    pub errors : (body : Bytes) → IsErrorText body → x.parse (c_str body) ≡ false

module _ {Json : Type 0} (memory : Allocator) (lib : Library Json) (x : Exchange) where
  abbrev is_made : Option ℕ → Bool
  is_made none = false
  is_made (some pc) = true

  -- The library makes the connection and its track, reads the offer, and has set it in time.
  abbrev pub is_met : Bytes → Bool
  is_met sdp =
      is_made lib.new_connection
      && lib.audio_track
      && lib.add_track
      && lib.parse_sdp sdp
      && lib.ready_in_time

  -- What the client comes to with the server's JSON of a local description, if there is that.
  abbrev pub met_json : Bytes → Option Bytes → Outcome (Bytes × Bytes)
  met_json sdp none = throws request_failed
  met_json sdp (some answer) = set_or_throw x (sdp, codes "answer")

  abbrev pub met_local : Option Bytes → Outcome (Bytes × Bytes)
  met_local none = throws bad_json
  met_local (some sdp) =
      met_json sdp (lib.dump ((codes "type", codes "answer") ∷ (codes "sdp", sdp) ∷ []))

  abbrev pub met_connection : Bytes → Outcome (Bytes × Bytes)
  met_connection sdp = if is_met sdp then met_local lib.local_description else throws bad_json

  abbrev pub met : Bool → Bytes × Bytes → Outcome (Bytes × Bytes)
  met has_factory offer =
      if not (memory.response_buffer && memory.request_buffer)
      then throws request_failed
      else if not has_factory
      then throws request_failed
      else met_connection offer.0
