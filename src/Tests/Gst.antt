-- ===== src/Tests/Gst.antt =====
-- The GStreamer server at concrete inputs.
use webrtc_echoes.Base.{
  ◌+◌, ◌*◌, ◌≤◌, ◌≡◌, refl, ◌⊎◌, true, false, none, some, [], ◌∷◌, arith, pos, negsuc, Bytes, codes,
}
use webrtc_echoes.HttpServer.Handler.{post, options, Request, Reply, allow_origin, json_content}
use webrtc_echoes.Gstreamer.Pipeline.{
  replied, pending, ended, set_offer, Element, connected, create_webrtc, connecting, failed, closed,
}
use webrtc_echoes.Gstreamer.Pipeline.Release.{notify_all, notify_all-create_webrtc}
use webrtc_echoes.Gstreamer.Handler.{
  Library, aborted, on_http_request_cb, handle_body, handle_json, handle_sdp, negotiate,
  wait_for_answer, reply_to_promise, send_answer,
}
use webrtc_echoes.Gstreamer.Handler.Outcomes.{IsHonest, on_http_request_cb-IsHonest, bad_sdp_aborts}
use webrtc_echoes.Gstreamer.Negotiation.{
  running, done, Session, begin, finish, Step, Steps, here, next, offer, ask, end_own,
  reply_to_client,
}
use webrtc_echoes.Gstreamer.Negotiation.Outcomes.{
  count, IsOver, negotiation_ends, negotiation_outcome,
}
use webrtc_echoes.Gstreamer.Service
use webrtc_echoes.Gstreamer.Service.{serving, serve, Arrival}
use webrtc_echoes.Gstreamer.Service.Leaks.{serve-leaks}
use webrtc_echoes.Gstreamer.Service.Ends.{IsBadOffer, EndsWithin, bad_offer_ends}
use webrtc_echoes.Gstreamer.Program
use webrtc_echoes.Gstreamer.Program.{Platform}

-- Libraries that take a text for the JSON value that holds it, and read no SDP.
abbrev no_sdp : Library Bytes
no_sdp = record {
  response_buffer = true;
  request_buffer = true;
  locks = pos 0;
  parse = λ text. some text;
  sdp_string = λ json. some json;
  launch = record { launches = true; plays = true };
  parse_sdp = λ sdp. false;
  answer_result = replied;
  answer = some (codes "v=0");
  stale_is_null = true;
  print = λ members. codes "{}";
}

abbrev offer_request : Request
offer_request = record { method = post; body = codes "offer" }

on_http_request_cb-IsHonest_example : IsHonest no_sdp (on_http_request_cb no_sdp offer_request).0
on_http_request_cb-IsHonest_example = on_http_request_cb-IsHonest no_sdp offer_request refl

bad_sdp : (on_http_request_cb no_sdp offer_request).0 ≡ aborted
bad_sdp =
    bad_sdp_aborts no_sdp offer_request (codes "offer") (codes "offer") refl refl refl (omega arith)
      refl refl refl refl refl

abbrev new_element : Element
new_element = record connected { playing = true; watched = true }

notify_all-create_webrtc_example :
    let t = notify_all (connecting ∷ failed ∷ closed ∷ failed ∷ []) new_element in
    (t.pipeline_unrefs ≡ 0) × (t.playing ≡ false) × (t.webrtcbin_unrefs ≡ 2)
unfolding create_webrtc
notify_all-create_webrtc_example =
    notify_all-create_webrtc (record { launches = true; plays = true }) new_element
      (connecting ∷ failed ∷ closed ∷ failed ∷ []) refl

-- The same libraries, reading every SDP.
abbrev any_sdp : Library Bytes
any_sdp = record no_sdp { parse_sdp = λ sdp. true }

abbrev offered_element : Element
offered_element = record new_element { offer_promise = pending }

-- The handler has its answer and has replied; the remote description is not set yet.
abbrev early_reply : Session
early_reply = record {
  process = running;
  phase = done;
  own_promise = ended replied (some (codes "v=0"));
  element = offered_element;
  reply = some (finish any_sdp replied (some (codes "v=0")));
}

early_run : Steps any_sdp (codes "v=0") (begin new_element) early_reply
unfolding set_offer finish
early_run =
    next
      (next (next (next here (offer _ refl refl)) (ask _ refl refl))
        (end_own _ replied (some (codes "v=0")) refl refl))
      (reply_to_client _ replied (some (codes "v=0")) refl refl refl)

negotiation_ends_example :
    (count early_run ≤ 6)
    × (IsOver early_reply ⊎ ((u : Session) × Step any_sdp (codes "v=0") early_reply u))
negotiation_ends_example = negotiation_ends (refl, refl, refl) early_run

negotiation_outcome_example :
    (early_reply.reply ≡ some (finish any_sdp replied (some (codes "v=0"))))
    × (early_reply.element.local_descriptions ≡ [])
    × (early_reply.process ≡ running)
unfolding finish
negotiation_outcome_example = negotiation_outcome (refl, refl, refl) early_run refl

-- Everything is had but the callback for offers.
abbrev deaf : Program.Platform
deaf = record {
  main_loop_thread = true;
  event_base = true;
  http = true;
  bind = pos 0;
  set_callback = negsuc 0;
  loop_fails = true;
}

abbrev preflight : Service.Arrival Bytes
preflight = record { library = any_sdp; request = record { method = options; body = [] } }

abbrev answered_arrival : Service.Arrival Bytes
answered_arrival = record { library = any_sdp; request = offer_request }

abbrev bad_arrival : Service.Arrival Bytes
bad_arrival = record { library = no_sdp; request = offer_request }

abbrev preflight_reply : Reply
preflight_reply = record {
  status = 200;
  reason = codes "OK";
  headers =
      allow_origin
      ∷ (codes "Access-Control-Allow-Methods", codes "POST")
      ∷ (codes "Access-Control-Allow-Headers", codes "content-type")
      ∷ [];
  content = none;
}

abbrev answer_reply : Reply
answer_reply = record {
  status = 200;
  reason = codes "OK";
  headers = allow_origin ∷ json_content ∷ [];
  content = some (codes "{}");
}

two_served :
    serve (preflight ∷ answered_arrival ∷ []) [] 0 ≡ serving (preflight_reply ∷ answer_reply ∷ []) 8
unfolding serve on_http_request_cb handle_body handle_json handle_sdp negotiate wait_for_answer
    reply_to_promise send_answer create_webrtc set_offer
two_served = refl

serve-leaks_example : 1 + 7 * 1 ≤ 8
serve-leaks_example =
    serve-leaks (preflight ∷ answered_arrival ∷ []) (preflight_reply ∷ answer_reply ∷ []) 8
      two_served

bad_arrival-IsBadOffer : IsBadOffer bad_arrival
bad_arrival-IsBadOffer = record {
  json = codes "offer";
  sdp = codes "offer";
  not_options = refl;
  has_response = refl;
  has_copy = refl;
  has_body = omega arith;
  is_json = refl;
  has_sdp = refl;
  launches = refl;
  plays = refl;
  is_no_sdp = refl;
}

bad_offer_ends_example : EndsWithin 1 (serve (preflight ∷ bad_arrival ∷ answered_arrival ∷ []) [] 0)
bad_offer_ends_example =
    bad_offer_ends (preflight ∷ []) bad_arrival (answered_arrival ∷ []) bad_arrival-IsBadOffer
