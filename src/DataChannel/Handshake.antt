-- ===== src/DataChannel/Handshake.antt =====
-- The offer that the client (libdatachannel/client.cpp) posts, and the answer that it gets from the
-- server (libdatachannel/server.cpp).
use webrtc_echoes.Base.{
  ℕ, ◌≡◌, refl, ap, ◌∙◌, inl, inr, true, Option, none, some, List, [], ◌∷◌, if◌then◌else◌,
  Bool-cases, Bytes,
}
use webrtc_echoes.DataChannel.Client.Promise.{request_failed, bad_status}
use webrtc_echoes.DataChannel.Client.Session.{Exchange, Outcome, throws, exchange}
use webrtc_echoes.DataChannel.Post.{
  Transport, IsHttp, posting, offer_path, received, exchange-received, received-read, set_or_throw,
}
use webrtc_echoes.DataChannel.Server
use webrtc_echoes.DataChannel.Server.{
  Library, Response, internal_error, answered, answer_of, post_offer, handler_runs,
  gathering_complete, gathering_other, state_other, disconnected, channel_message, track_message,
}
use webrtc_echoes.DataChannel.Server.Responses.{
  runs, first_answer, response_of, expected_response, is_accepted, post_offer-response,
}

-- What the server sends of a response, or of none: a status that the handler left to the HTTP
-- library is 200.
abbrev pub reply_of : Option Response → Option (ℕ × Bytes)
reply_of none = none
reply_of (some r) = some (elim r.status [ none ↦ 200 | some status ↦ status ], r.body)

abbrev pub joined : Transport (Option Response) → Library → List Server.Event → Exchange → Exchange
joined http lib es x = posting http (λ body. response_of (post_offer lib body es)) x

-- Each end reads the description that the other has written.
pub record IsReadable (lib : Library) (x : Exchange) : Type 0 where
  pub offers : (d : Bytes × Bytes) → lib.members (x.dump d.0 d.1) ≡ some d
  pub answers :
      (d : Bytes × Bytes)
      → (body : Bytes) × (lib.dump d.0 d.1 ≡ some body)
        × (x.parse body ≡ true)
        × (x.members body ≡ some d)

-- The first completed gathering, if the handler runs after it, with the description of the server.
abbrev pub first_local : List Server.Event → Option (Option (Bytes × Bytes))
first_local [] = none
first_local (gathering_complete local ∷ es) = if runs es then some local else none
first_local (_ ∷ es) = first_local es

-- What the client comes to with the description of the server.
abbrev pub met : Exchange → Option (Option (Bytes × Bytes)) → Outcome (Bytes × Bytes)
met x none = throws request_failed
met x (some none) = throws bad_status
met x (some (some answer)) = set_or_throw x answer

module _ (http : Transport (Option Response)) (lib : Library) (x : Exchange)
    (v : IsHttp reply_of http) (r : IsReadable lib x) where
  received-error : received x (http.deliver (some internal_error)) ≡ throws bad_status
  received-error = rw (v.arrives (some internal_error)) refl

  received-answer :
      (local : Option (Bytes × Bytes))
      → received x (http.deliver (expected_response (answer_of lib local))) ≡ met x (some local)
  received-answer none = received-error
  received-answer (some answer) =
      let (body, dumped, parsed, read) = r.answers answer in
      rw (dumped, v.arrives (some (answered body))) (received-read x body answer parsed read)

  received-none : received x (http.deliver none) ≡ throws request_failed
  received-none = rw (v.arrives none) refl

  received-first :
      (es : List Server.Event)
      → received x (http.deliver (expected_response (first_answer lib es))) ≡ met x (first_local es)
  received-first [] = received-none
  received-first (gathering_complete local ∷ es) = elim (Bool-cases (runs es)) [
    | inl e ↦ rw e (received-answer local)
    | inr e ↦ rw e received-none
  ]
  received-first (handler_runs ∷ es) = received-first es
  received-first (gathering_other ∷ es) = received-first es
  received-first (state_other ∷ es) = received-first es
  received-first (disconnected ∷ es) = received-first es
  received-first (channel_message channel m ∷ es) = received-first es
  received-first (track_message track m ∷ es) = received-first es

  -- Over HTTP, and where each end reads what the other writes: the client that posts its description
  -- to the server comes to set exactly the description of the first gathering that the server
  -- completed and its handler saw. Where the server could not set the client's description or had none
  -- of its own the client throws for the status, and where the server does not respond, for the
  -- request.
  pub exchange-joined :
      (es : List Server.Event) (offer : Bytes × Bytes)
      → x.local ≡ some offer
      → exchange offer_path (joined http lib es x)
        ≡ (if lib.set_remote offer then met x (first_local es) else throws bad_status)
  exchange-joined es offer e =
      exchange-received offer_path (joined http lib es x) offer e
      ∙ ap (λ o. received x (http.deliver o)) (post_offer-response lib (x.dump offer.0 offer.1) es)
      ∙ accepted
    where
      accepted :
          received x (
            http.deliver (
              if is_accepted lib (lib.members (x.dump offer.0 offer.1))
              then expected_response (first_answer lib es)
              else some internal_error))
          ≡ (if lib.set_remote offer then met x (first_local es) else throws bad_status)
      accepted = elim (Bool-cases (lib.set_remote offer)) [
        | inl e ↦ rw (r.offers offer, e) (received-first es)
        | inr e ↦ rw (r.offers offer, e) received-error
      ]
