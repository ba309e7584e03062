-- ===== src/Interop/Gst/Offers.antt =====
-- What the libdatachannel client comes to that posts its offer to the GStreamer server.
use webrtc_echoes.Base.{
  ◌≡◌, refl, ap, ◌∙◌, ◌≢◌, inl, inr, Bool, true, false, not, ◌&&◌, Option, none, some, List, [],
  ◌∷◌, arith, if◌then◌else◌, Bool-cases, Bytes, codes, c_str,
}
use webrtc_echoes.HttpServer.Handler.{post}
use webrtc_echoes.Gstreamer.Pipeline.{Element, create_webrtc, set_offer, is_replied}
use webrtc_echoes.Gstreamer.Handler.{
  Library, Handled, aborted, crash, Object, offer_print, offer_json, request_copy, response,
  send_answer, reply_to_promise, wait_for_answer, negotiate, handle_sdp, handle_json, handle_body,
  on_http_request_cb, server_error, offer_description,
}
use webrtc_echoes.DataChannel.Client.Promise.{request_failed, bad_status}
use webrtc_echoes.DataChannel.Client.Session.{Exchange, Outcome, throws, exchange}
use webrtc_echoes.DataChannel.Post.{
  Transport, IsHttp, offer_path, received, exchange-received, received-read,
}
use webrtc_echoes.Interop.Gst.{
  is_none, reads_wild, reply_of, joined, IsReadable, met, met_answer, met_promise,
}

module _ {Json : Type 0} (http : Transport Handled) (lib : Library Json) (x : Exchange)
    (v : IsHttp reply_of http) (r : IsReadable lib x) (tame : reads_wild lib ≡ false) where
  -- What the client comes to with the end of a handler call.
  abbrev came : Handled → Outcome (Bytes × Bytes)
  came h = received x (http.deliver h)

  came_aborted : came aborted ≡ throws request_failed
  came_aborted = rw (v.arrives aborted) refl

  came_crash : came crash ≡ throws request_failed
  came_crash = rw (v.arrives crash) refl

  came_error :
      (line : Bytes) (held : List Object) → came (server_error line held) ≡ throws bad_status
  came_error line held = ap (received x) (v.arrives _)

  came_answer :
      (held : List Object) (answer : Option Bytes)
      → (is_none answer && not lib.stale_is_null) ≡ false
      → came (send_answer lib held answer) ≡ met_answer lib x answer
  unfolding send_answer
  came_answer held none n = elim (Bool-cases lib.stale_is_null) [
    | inl e ↦ rw e (came_error _ held)
    | inr e ↦ absurd (ground arith)
  ]
  came_answer held (some sdp) n =
      ap (received x) (v.arrives _)
      ∙ received-read x _ (sdp, codes "answer") (r.parses sdp) (r.reads sdp)

  came_promise : (held : List Object) → came (reply_to_promise lib held) ≡ met_promise lib x
  unfolding reply_to_promise
  came_promise held = elim (Bool-cases (is_replied lib.answer_result)) [
    | inl e ↦ rw e (came_answer held lib.answer (ground arith))
    | inr e ↦ rw e (came_error _ _)
  ]

  came_offered :
      (held : List Object) (sdp : Bytes) (e : Element)
      → came (wait_for_answer lib held (set_offer lib.parse_sdp sdp e))
        ≡ (if lib.parse_sdp sdp then met_promise lib x else throws request_failed)
  unfolding wait_for_answer set_offer
  came_offered held sdp e = elim (Bool-cases (lib.parse_sdp sdp)) [
    | inl p ↦ rw p (came_promise held)
    | inr p ↦ rw p came_aborted
  ]

  came_launched :
      (held : List Object) (sdp : Bytes) (launches plays : Bool)
      → came
          (negotiate lib held sdp (create_webrtc (record { launches = launches; plays = plays })))
        ≡ (if not (launches && plays)
            then throws bad_status
            else if lib.parse_sdp sdp
            then met_promise lib x
            else throws request_failed)
  unfolding negotiate create_webrtc
  came_launched held sdp true true = came_offered (offer_description ∷ held) sdp _
  came_launched held sdp true false = came_error _ _
  came_launched held sdp false plays = came_error _ _

  -- A request with the offer's body.
  handled_offer :
      (body : Bytes) (json : Json) (sdp : Bytes)
      → body ≢ []
      → lib.parse (c_str body) ≡ some json
      → lib.sdp_string json ≡ some sdp
      → (on_http_request_cb lib (record { method = post; body = body })).0 ≡ (
          if not (lib.response_buffer && lib.request_buffer)
          then crash
          else negotiate lib
              (offer_print ∷ offer_json ∷ request_copy ∷ response ∷ [])
              sdp
              (create_webrtc lib.launch))
  unfolding on_http_request_cb handle_body handle_json handle_sdp
  handled_offer [] json sdp h p s = absurd (h refl)
  handled_offer (c ∷ body) json sdp h p s = ground arith

  came_if :
      (b : Bool) (h : Handled) (o : Outcome (Bytes × Bytes))
      → came h ≡ o
      → came (if not b then crash else h) ≡ (if not b then throws request_failed else o)
  came_if true h o e = e
  came_if false h o e = came_crash

  -- Over HTTP, where each end reads what the other writes, unless the promise is replied without an
  -- answer and the handler's variable, never set, holds a wild pointer, which is undefined: the client
  -- that posts its description to the GStreamer server comes to set exactly the answer that the library
  -- gave the server's handler, if the pipeline plays, the SDP is read, the promise is replied in time,
  -- and the client's own library takes the answer. Where the pipeline does not play, the promise is not
  -- replied or its reply has no answer the client throws for the status, and where the SDP is not read
  -- or there is no memory for the request, for the request.
  pub exchange-gstreamer :
      (offer : Bytes × Bytes)
      → x.local ≡ some offer
      → exchange offer_path (joined http lib x) ≡ met lib x offer
  exchange-gstreamer offer e =
      let (filled, told) = r.offers offer in
      let (json, parsed, named) = told in
      exchange-received offer_path (joined http lib x) offer e
      ∙ ap came (handled_offer (x.dump offer.0 offer.1) json offer.0 filled parsed named)
      ∙ came_if (lib.response_buffer && lib.request_buffer) _ _
          (came_launched _ offer.0 lib.launch.launches lib.launch.plays)
