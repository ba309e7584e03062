-- ===== src/HttpServer/Handler/Fatal.antt =====
-- Which requests end the process, and what the others leave behind.
use webrtc_echoes.Base.{
  ℕ, ◌≡◌, refl, ap, ◌∙◌, inl, inr, Bool, true, false, not, ◌&&◌, ◌||◌, Option, none, some, List, [],
  ◌∷◌, ltb, if◌then◌else◌, Bool-cases, length, All, Bytes,
}
use webrtc_echoes.PeerFactory.Factory.{Factory}
use webrtc_echoes.PeerFactory.Create.{
  Library, offer_text, parse_offer, Answer, returned, thrown, crashed, create_peer_connection,
}
use webrtc_echoes.PeerFactory.Create.Exceptions.{fails, ends_process, create_peer_connection-fails}
use webrtc_echoes.PeerFactory.Create.Results.{create_peer_connection-factory}
use webrtc_echoes.HttpServer.Handler.{
  Request, Allocator, Handled, replied, exception, crash, is_options, to_int32, send, send_answer,
  handle_offer, handle_body, on_http_request, allow_origin, bad_request, Arrival,
}

-- What a request allocates and never frees: the response buffer, unless it is an OPTIONS, and the
-- copy of its body, if it has one.
abbrev pub cost : Request → ℕ
cost req = if is_options req.method then 0 else if ltb 0 (length req.body) then 2 else 1

-- The allocations behind a reply, or none where the handler did not end with one.
abbrev pub kept : Handled → Option ℕ
kept (replied r n) = some n
kept exception = none
kept crash = none

kept-send_answer :
    (response_buffer request_buffer : Bool) (answer : Answer)
    → kept (
        send_answer
          (record { response_buffer = response_buffer; request_buffer = request_buffer })
          answer)
      ≡ (if not response_buffer || ends_process answer then none else some 2)
unfolding send_answer send
kept-send_answer true q thrown = refl
kept-send_answer true q crashed = refl
kept-send_answer true q (returned body) = refl
kept-send_answer false q thrown = refl
kept-send_answer false q crashed = refl
kept-send_answer false q (returned body) = refl

module _ {Json : Type 0} (lib : Library Json) where
  -- The factory is given the text, and does not return.
  abbrev pub fails_at : Bool → Bytes → Bool
  fails_at has_factory body =
      fails lib has_factory (parse_offer lib (offer_text body (to_int32 (length body))))

  -- There is no memory for the response, or none for the copy of the body, or the factory does not
  -- return.
  abbrev pub is_fatal : Allocator → Bool → Request → Bool
  is_fatal memory has_factory req =
      not (is_options req.method)
      && (not memory.response_buffer
          || (ltb 0 (length req.body)
              && (not memory.request_buffer || fails_at has_factory req.body)))

  -- The factory of a server that goes on is as good as before.
  abbrev pub Stays : Factory → Option Factory → Type 0
  Stays f factory = (f' : Factory) × (factory ≡ some f') × (f'.has_factory ≡ f.has_factory)

  -- What is left of a request, and that the factory stays.
  abbrev pub IsKept : Allocator → Factory → Request → Handled × Option Factory → Type 0
  IsKept memory f req h =
      (kept h.0 ≡ (if is_fatal memory f.has_factory req then none else some (cost req)))
      × Stays f h.1

  kept-answer :
      (response_buffer : Bool) (body : Bytes) (f : Factory)
      → kept (
          send_answer
            (record { response_buffer = response_buffer; request_buffer = true })
            (create_peer_connection lib body (to_int32 (length body)) f).0)
        ≡ (if not response_buffer || fails_at f.has_factory body then none else some 2)
  kept-answer b body f =
      kept-send_answer b true (create_peer_connection lib body (to_int32 (length body)) f).0
      ∙ ap (λ e. if not b || e then none else some 2)
          (create_peer_connection-fails lib body (to_int32 (length body)) f)

  abbrev with_memory : Bool → Bool → Allocator
  with_memory b q = record { response_buffer = b; request_buffer = q }

  copied :
      (b q : Bool) (body : Bytes) (f : Factory)
      → let size = to_int32 (length body) in
        let h : Handled × Option Factory =
          (if not q then (crash, some f) else (
            send_answer (with_memory b q) (create_peer_connection lib body size f).0,
            some (create_peer_connection lib body size f).1,
          )) in
        (kept h.0 ≡ (if not b || (not q || fails_at f.has_factory body) then none else some 2))
        × Stays f h.1
  copied true true body f =
      (kept-answer true body f, (_, refl, create_peer_connection-factory lib body _ f))
  copied false true body f =
      (kept-answer false body f, (_, refl, create_peer_connection-factory lib body _ f))
  copied true false body f = (refl, (f, refl, refl))
  copied false false body f = (refl, (f, refl, refl))

  refused :
      (b q : Bool) (text : Bytes)
      → kept (send (with_memory b q) 400 bad_request (allow_origin ∷ []) text 0)
        ≡ (if not b || false then none else some 1)
  unfolding send
  refused true q text = refl
  refused false q text = refl

  handled :
      (b q : Bool) (req : Request) (f : Factory)
      → IsKept (with_memory b q) f req (on_http_request (with_memory b q) lib req (some f))
  unfolding on_http_request handle_body handle_offer send
  handled b q req f = elim (Bool-cases (is_options req.method)) [
    | inl o ↦ rw o (refl, (f, refl, refl))
    | inr o ↦ elim (Bool-cases (ltb 0 (length req.body))) [
      | inl l ↦ rw (o, l) (copied b q req.body f)
      | inr l ↦ rw (o, l) (refused b q _, (f, refl, refl))
    ]
  ]

  -- A request to a server with a factory ends the process exactly where it is fatal. Any other leaves
  -- behind what it costs, and a factory that is as good as before.
  pub on_http_request-IsKept :
      (memory : Allocator) (req : Request) (f : Factory)
      → IsKept memory f req (on_http_request memory lib req (some f))
  on_http_request-IsKept memory req f = handled memory.response_buffer memory.request_buffer req f

module _ {Json : Type 0} where
  abbrev pub is_fatal_arrival : Bool → Arrival Json → Bool
  is_fatal_arrival has_factory a = is_fatal a.library a.memory has_factory a.request

  abbrev pub any_fatal : Bool → List (Arrival Json) → Bool
  any_fatal has_factory [] = false
  any_fatal has_factory (a ∷ arrivals) =
      is_fatal_arrival has_factory a || any_fatal has_factory arrivals

  -- No call of the factory runs out of time.
  abbrev pub InTime : List (Arrival Json) → Type 0
  InTime arrivals = All (λ a. a.library.ready_in_time ≡ true) arrivals
