-- ===== src/Gstreamer/Handler.antt =====
-- The handler of an HTTP request of the GStreamer server (gstreamer/gstreamer-webrtc-echo.c, lines
-- 132 to 263).
pub mod Outcomes
use webrtc_echoes.Base.{
  ℕ, Bool, not, ◌&&◌, Option, none, some, List, [], ◌∷◌, ◌++◌, ltb, if◌then◌else◌, length, eqb_ℤ, ℤ,
  pos, Bytes, codes, c_str,
}
use webrtc_echoes.HttpServer.Handler.{Request, Reply, allow_origin, json_content, is_options, get}
use webrtc_echoes.Gstreamer.Pipeline.{
  Launch, Element, create_webrtc, Assertion, holds, aborts, undefined, set_offer, PromiseResult,
  is_replied,
}

-- What the libraries answer during one request. `parse` is cJSON_Parse of a C string, none for NULL,
-- and `sdp_string` the member "sdp" where that is a string. `locks` is the result of
-- evbuffer_enable_locking, 0 on success. `answer_result` and `answer` are those of the promise on
-- which the handler waits: the reply's field "answer", if it has one. `stale_is_null` says whether the
-- variable `answer`, which has no initial value, happens to hold a null pointer.
pub record Library (Json : Type 0) : Type 0 where
  pub response_buffer : Bool
  pub request_buffer : Bool
  pub locks : ℤ
  pub parse : Bytes → Option Json
  pub sdp_string : Json → Option Bytes
  pub launch : Launch
  pub parse_sdp : Bytes → Bool
  pub answer_result : PromiseResult
  pub answer : Option Bytes
  pub stale_is_null : Bool
  pub print : List (Bytes × Bytes) → Bytes

-- What a request takes from the allocators and the libraries, and has to give back itself.
pub data Object : Type 0 where
  response request_copy offer_json offer_print webrtcbin offer_description own_promise : Object
  answer_text answer_json answer_print : Object

-- One reply, with the objects that the request never gives back, the newest first; or a failed
-- assertion; or a null or wild pointer.
pub data Handled : Type 0 where
  replied_with : Reply → List Object → Handled
  aborted crash : Handled

abbrev pub reply_text : ℕ → Bytes → Bytes → List Object → Handled
reply_text status reason text held =
    replied_with
      (record {
        status = status;
        reason = reason;
        headers = allow_origin ∷ [];
        content = some text;
      })
      held

abbrev pub server_error : Bytes → List Object → Handled
server_error = reply_text 501 (codes "Internal Server Error")

abbrev pub client_error : Bytes → List Object → Handled
client_error = reply_text 400 (codes "Bad Request")

-- The line on the standard error stream about the lock.
abbrev pub lock_failure : Bytes
lock_failure = codes "Failed to create a lock for the HTTP response buffer."

pub lock_log : ℤ → List Bytes
lock_log result = if eqb_ℤ result (pos 0) then lock_failure ∷ [] else []

-- Where the pipeline cannot play, the reference to its webrtcbin element is not given back with it.
abbrev pub left_by_launch : Launch → List Object
left_by_launch l = if l.launches && not l.plays then webrtcbin ∷ [] else []

-- The offer's tree and its printed text, where there is one.
abbrev pub left_by_parse : {Json : Type 0} → Option Json → List Object
left_by_parse none = []
left_by_parse (some json) = offer_print ∷ offer_json ∷ []

-- What a request holds that has come to set_offer.
abbrev pub for_an_offer : List Object
for_an_offer = offer_description ∷ offer_print ∷ offer_json ∷ request_copy ∷ response ∷ []

module _ {Json : Type 0} where
  -- What gst_structure_get leaves in `answer`: the field, or, where there is none, what was there.
  unfoldable pub send_answer : Library Json → List Object → Option Bytes → Handled
  send_answer lib held (some sdp) =
      replied_with
        (record {
          status = 200;
          reason = codes "OK";
          headers = allow_origin ∷ json_content ∷ [];
          content = some (lib.print ((codes "type", codes "answer") ∷ (codes "sdp", sdp) ∷ []));
        })
        (answer_print ∷ answer_json ∷ answer_text ∷ held)
  send_answer lib held none =
      if lib.stale_is_null
      then server_error (codes "Failed to get webrtc SDP answer.") held
      else crash

  -- From the end of the promise on which the handler waits, which is given back if it was replied.
  unfoldable pub reply_to_promise : Library Json → List Object → Handled
  unfolding send_answer
  reply_to_promise lib held =
      if is_replied lib.answer_result
      then send_answer lib held lib.answer
      else server_error (codes "Timed out waiting for webrtc SDP answer.") (own_promise ∷ held)

  unfoldable pub wait_for_answer : Library Json → List Object → Assertion Element → Handled
  unfolding reply_to_promise
  wait_for_answer lib held aborts = aborted
  wait_for_answer lib held undefined = crash
  wait_for_answer lib held (holds e) = reply_to_promise lib held

  -- The pipeline and its element live on with the connection. The description of the offer does so
  -- too, and nothing refers to it.
  unfoldable pub negotiate : Library Json → List Object → Bytes → Option Element → Handled
  negotiate lib held sdp none =
      server_error (codes "Failed to initialise webrtc peer connection.")
        (left_by_launch lib.launch ++ held)
  negotiate lib held sdp (some e) =
      wait_for_answer lib (offer_description ∷ held) (set_offer lib.parse_sdp sdp e)

  unfoldable pub handle_sdp : Library Json → List Object → Option Bytes → Handled
  handle_sdp lib held none = client_error (codes "Could not parse SDP offer.") held
  handle_sdp lib held (some sdp) = negotiate lib held sdp (create_webrtc lib.launch)

  -- cJSON_GetObjectItemCaseSensitive of NULL is NULL, which is no string.
  abbrev pub sdp_member : Library Json → Option Json → Option Bytes
  sdp_member lib none = none
  sdp_member lib (some json) = lib.sdp_string json

  unfoldable pub handle_json : Library Json → Option Json → Handled
  handle_json lib json =
      handle_sdp lib (left_by_parse json ++ (request_copy ∷ response ∷ [])) (sdp_member lib json)

  unfoldable pub handle_body : Library Json → Bytes → Handled
  unfolding handle_json
  handle_body lib body =
      if ltb 0 (length body)
      then if not lib.request_buffer then crash else handle_json lib (lib.parse (c_str body))
      else client_error (codes "Request was missing the SDP offer.") (response ∷ [])

  -- The result, and what is written to the standard error stream about the lock.
  unfoldable pub on_http_request_cb : Library Json → Request → Handled × List Bytes
  on_http_request_cb lib req =
      if is_options req.method
      then (
        replied_with
            (record {
              status = 200;
              reason = codes "OK";
              headers =
                  allow_origin
                  ∷ (codes "Access-Control-Allow-Methods", codes "POST")
                  ∷ (codes "Access-Control-Allow-Headers", codes "content-type")
                  ∷ [];
              content = none;
            })
            [],
        [],
      )
      else if not lib.response_buffer
      then (crash, [])
      else (handle_body lib req.body, lock_log lib.locks)
