-- ===== src/Gstreamer/Handler/Outcomes.antt =====
-- What the handler of the GStreamer server replies, and what ends its process.
use webrtc_echoes.Base.{
  ◌<◌, ◌≡◌, refl, sym, ◌⊎◌, inl, inr, true, false, Option, none, some, List, [], ◌∷◌, ◌++◌,
  append_assoc, arith, ltb, if_either, unless_either, length, Bytes, codes, c_str,
}
use webrtc_echoes.HttpServer.Handler.{Request, allow_origin, json_content, is_options}
use webrtc_echoes.Gstreamer.Pipeline.{
  Element, create_webrtc, Assertion, holds, aborts, undefined, is_replied, set_offer,
}
use webrtc_echoes.Gstreamer.Handler.{
  Library, left_by_launch, for_an_offer, handle_json, Object, response, request_copy, offer_json,
  offer_print, offer_description, own_promise, answer_text, answer_json, answer_print, Handled,
  replied_with, aborted, crash, send_answer, wait_for_answer, negotiate, handle_sdp, handle_body,
  on_http_request_cb,
}

-- What a request that is answered leaves behind.
abbrev pub left_by_answer : List Object
left_by_answer =
    answer_print ∷ answer_json ∷ answer_text ∷ offer_description ∷ offer_print ∷ offer_json
    ∷ request_copy ∷ response ∷ []

module _ {Json : Type 0} (lib : Library Json) where
  -- A 200 is the JSON of an answer that the library gave, and leaves eight objects behind; anything
  -- else is a 400 or a 501, is not called JSON, and leaves the response buffer at least.
  abbrev pub IsHonest : Handled → Type 0
  IsHonest (replied_with r left) =
      ((r.status ≡ 200)
        × (r.headers ≡ allow_origin ∷ json_content ∷ [])
        × (sdp : Bytes) × (lib.answer ≡ some sdp)
        × (r.content ≡ some (lib.print ((codes "type", codes "answer") ∷ (codes "sdp", sdp) ∷ [])))
        × (left ≡ left_by_answer))
      ⊎ (((r.status ≡ 400) ⊎ (r.status ≡ 501))
          × (r.headers ≡ allow_origin ∷ [])
          × (more : List Object) × (left ≡ more ++ response ∷ []))
  IsHonest aborted = Unit {0}
  IsHonest crash = Unit {0}

  send_answer-IsHonest :
      (answer : Option Bytes) → lib.answer ≡ answer → IsHonest (send_answer lib for_an_offer answer)
  unfolding send_answer
  send_answer-IsHonest (some sdp) e = inl (refl, refl, sdp, e, refl, refl)
  send_answer-IsHonest none e =
      if_either IsHonest lib.stale_is_null
        (λ n.
          inr (
            inr refl,
            refl,
            offer_description ∷ offer_print ∷ offer_json ∷ request_copy ∷ [],
            refl,
          ))
        (λ n. tt)

  wait_for_answer-IsHonest : (r : Assertion Element) → IsHonest (wait_for_answer lib for_an_offer r)
  unfolding wait_for_answer
  wait_for_answer-IsHonest aborts = tt
  wait_for_answer-IsHonest undefined = tt
  wait_for_answer-IsHonest (holds e) =
      if_either IsHonest (is_replied lib.answer_result) (λ r. send_answer-IsHonest lib.answer refl)
        (λ r. inr (
          inr refl,
          refl,
          own_promise ∷ offer_description ∷ offer_print ∷ offer_json ∷ request_copy ∷ [],
          refl,
        ))

  abbrev parsed : List Object
  parsed = offer_print ∷ offer_json ∷ request_copy ∷ []

  negotiate-IsHonest :
      (sdp : Bytes) (e : Option Element) → IsHonest (negotiate lib (parsed ++ response ∷ []) sdp e)
  unfolding negotiate
  negotiate-IsHonest sdp none = inr (
    inr refl,
    refl,
    left_by_launch lib.launch ++ parsed,
    sym (append_assoc (left_by_launch lib.launch) parsed (response ∷ [])),
  )
  negotiate-IsHonest sdp (some e) = wait_for_answer-IsHonest (set_offer lib.parse_sdp sdp e)

  handle_sdp-IsHonest :
      (sdp : Option Bytes) → IsHonest (handle_sdp lib (parsed ++ response ∷ []) sdp)
  unfolding handle_sdp
  handle_sdp-IsHonest none = inr (inl refl, refl, parsed, refl)
  handle_sdp-IsHonest (some sdp) = negotiate-IsHonest sdp (create_webrtc lib.launch)

  handle_json-IsHonest : (json : Option Json) → IsHonest (handle_json lib json)
  unfolding handle_json handle_sdp
  handle_json-IsHonest none = inr (inl refl, refl, request_copy ∷ [], refl)
  handle_json-IsHonest (some json) = handle_sdp-IsHonest (lib.sdp_string json)

  handle_body-IsHonest : (body : Bytes) → IsHonest (handle_body lib body)
  unfolding handle_body
  handle_body-IsHonest body =
      if_either IsHonest (ltb 0 (length body))
        (λ b.
          unless_either IsHonest lib.request_buffer (λ q. tt)
            (λ q. handle_json-IsHonest (lib.parse (c_str body))))
        (λ b. inr (inl refl, refl, [], refl))

  -- Every reply to a request that is no OPTIONS is, with the status 200, the JSON of an answer that
  -- the library gave, and then eight objects are never given back; or it is a 400 or a 501 that is not
  -- called JSON, and the response buffer at least is never given back.
  pub on_http_request_cb-IsHonest :
      (req : Request) → is_options req.method ≡ false → IsHonest (on_http_request_cb lib req).0
  unfolding on_http_request_cb
  on_http_request_cb-IsHonest req h = rw h (
      unless_either (λ (h : Handled × List Bytes). IsHonest h.0) lib.response_buffer (λ b. tt)
        (λ b. handle_body-IsHonest req.body))

  -- With memory, and where the pipeline can be made, a request that is no OPTIONS and whose body is
  -- JSON with a text under "sdp" that is no SDP ends the process: a failed assertion, and no reply.
  pub bad_sdp_aborts :
      (req : Request) (json : Json) (sdp : Bytes)
      → is_options req.method ≡ false
      → lib.response_buffer ≡ true
      → lib.request_buffer ≡ true
      → 0 < length req.body
      → lib.parse (c_str req.body) ≡ some json
      → lib.sdp_string json ≡ some sdp
      → lib.launch.launches ≡ true
      → lib.launch.plays ≡ true
      → lib.parse_sdp sdp ≡ false
      → (on_http_request_cb lib req).0 ≡ aborted
  unfolding on_http_request_cb handle_body handle_json handle_sdp negotiate wait_for_answer
      create_webrtc set_offer
  bad_sdp_aborts req json sdp h rb qb more parsed text launches plays bad = ground arith
