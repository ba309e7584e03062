-- ===== src/HttpServer/Handler/Honesty.antt =====
-- What a reply of OnHttpRequest (libwebrtc/HttpSimpleServer.cpp) says of the request, with the factory
-- that made it.
use webrtc_echoes.Base.{
  ℕ, ◌≡◌, refl, sym, subst, ◌⊎◌, inl, inr, true, false, not, ◌&&◌, Option, none, some, [], ◌∷◌,
  Memᴰ, arith, if◌then◌else◌, Bool-cases, unless_either, length, Bytes, codes, c_str,
}
use webrtc_echoes.PeerFactory.Create.{
  Answer, returned, thrown, crashed, Library, create_peer_connection,
}
use webrtc_echoes.PeerFactory.Create.Answers.{IsGenuine, create_peer_connection-IsGenuine}
use webrtc_echoes.PeerFactory.Factory.{Factory}
use webrtc_echoes.HttpServer.Handler.{
  Allocator, Handled, replied, exception, crash, Reply, allow_origin, send_answer, is_options, send,
  handle_body, on_http_request, Request, json_content, to_int32, bad_request, handle_offer,
}

module _ {Json : Type 0} (memory : Allocator) (lib : Library Json) where
  -- The content of a 200 called JSON: one of the factory's three error texts, or the library's JSON of
  -- the local description made for the body as an offer, up to its first NUL.
  abbrev pub IsAnswerTo : Bytes → Reply → Type 0
  IsAnswerTo body r =
      (r.status ≡ 200)
      × Memᴰ json_content r.headers
      × ((text : Bytes) × (r.content ≡ some (c_str text))
          × IsGenuine lib body (to_int32 (length body)) (returned text))

  abbrev pub IsRefusal : Bytes → Option Factory → Reply → Type 0
  IsRefusal body factory r =
      (r.status ≡ 400)
      × (((body ≡ []) × (r.content ≡ some (codes "Request was missing the SDP offer.")))
          ⊎ ((factory ≡ none) × (r.content ≡ some (codes "No handler"))))

  -- A factory is given the body and ends as said.
  abbrev pub Ends : Bytes → Option Factory → Answer → Type 0
  Ends body factory answer =
      (f : Factory) × (factory ≡ some f)
      × ((create_peer_connection lib body (to_int32 (length body)) f).0 ≡ answer)

  -- A null pointer is followed for want of memory, or in CreatePeerConnection.
  abbrev pub IsNull : Bytes → Option Factory → Type 0
  IsNull body factory =
      ((memory.response_buffer && memory.request_buffer) ≡ false) ⊎ Ends body factory crashed

  -- What is not OPTIONS.
  abbrev IsOffered : Bytes → Option Factory → Handled → Type 0
  IsOffered body factory (replied r live) =
      Memᴰ allow_origin r.headers × (IsAnswerTo body r ⊎ IsRefusal body factory r)
  IsOffered body factory exception = Ends body factory thrown
  IsOffered body factory crash = IsNull body factory

  abbrev pub IsHonest : Request → Option Factory → Handled → Type 0
  IsHonest req factory (replied r live) =
      Memᴰ allow_origin r.headers
      × (((is_options req.method ≡ true) × (r.status ≡ 200) × (r.content ≡ none))
          ⊎ ((is_options req.method ≡ false)
              × (IsAnswerTo req.body r ⊎ IsRefusal req.body factory r)))
  IsHonest req factory exception = (is_options req.method ≡ false) × Ends req.body factory thrown
  IsHonest req factory crash = (is_options req.method ≡ false) × IsNull req.body factory

  offered-IsHonest :
      (req : Request) (factory : Option Factory) (h : Handled)
      → is_options req.method ≡ false
      → IsOffered req.body factory h
      → IsHonest req factory h
  offered-IsHonest req factory (replied r live) e k = (k.0, inr (e, k.1))
  offered-IsHonest req factory exception e k = (e, k)
  offered-IsHonest req factory crash e k = (e, k)

  send_answer-IsOffered :
      (body : Bytes) (f : Factory) (answer : Answer)
      → (create_peer_connection lib body (to_int32 (length body)) f).0 ≡ answer
      → IsGenuine lib body (to_int32 (length body)) answer
      → IsOffered body (some f) (send_answer memory answer)
  unfolding send_answer send
  send_answer-IsOffered body f thrown e g = (f, refl, e)
  send_answer-IsOffered body f crashed e g = inr (f, refl, e)
  send_answer-IsOffered body f (returned text) e g = elim (Bool-cases memory.response_buffer) [
    | inl m ↦ rw m (Memᴰ.head refl, inl (refl, Memᴰ.tail (Memᴰ.head refl), (text, refl, g)))
    | inr m ↦ rw m (inl refl)
  ]

  send-IsOffered_400 :
      (body : Bytes) (factory : Option Factory) (text : Bytes) (live : ℕ)
      → ((body ≡ []) × (some text ≡ some (codes "Request was missing the SDP offer.")))
        ⊎ ((factory ≡ none) × (some text ≡ some (codes "No handler")))
      → IsOffered body factory (send memory 400 bad_request (allow_origin ∷ []) text live)
  unfolding send
  send-IsOffered_400 body factory text live why = elim (Bool-cases memory.response_buffer) [
    | inl m ↦ rw m (Memᴰ.head refl, inr (refl, why))
    | inr m ↦ rw m (inl refl)
  ]

  handle_offer-IsOffered :
      (body : Bytes) (factory : Option Factory)
      → IsOffered body factory (handle_offer memory lib body factory).0
  unfolding handle_offer
  handle_offer-IsOffered body none =
      send-IsOffered_400 body none (codes "No handler") 1 (inr (refl, refl))
  handle_offer-IsOffered body (some f) =
      send_answer-IsOffered body f _ refl
        (create_peer_connection-IsGenuine lib body (to_int32 (length body)) f)

  handle_body_cons :
      (c : ℕ) (body : Bytes) (factory : Option Factory)
      → handle_body memory lib (c ∷ body) factory ≡ (
          if not memory.request_buffer
          then (crash, factory)
          else handle_offer memory lib (c ∷ body) factory)
  unfolding handle_body
  handle_body_cons c body factory = ground arith

  handle_body-IsOffered :
      (body : Bytes) (factory : Option Factory)
      → IsOffered body factory (handle_body memory lib body factory).0
  unfolding handle_body
  handle_body-IsOffered [] factory =
      send-IsOffered_400 [] factory (codes "Request was missing the SDP offer.") 0
        (inl (refl, refl))
  handle_body-IsOffered (c ∷ body) factory =
      subst (λ (h : Handled × Option Factory). IsOffered (c ∷ body) factory h.0)
        (sym (handle_body_cons c body factory))
        (unless_either (λ (h : Handled × Option Factory). IsOffered (c ∷ body) factory h.0)
          memory.request_buffer (λ m. inl (ground arith))
          (λ m. handle_offer-IsOffered (c ∷ body) factory))

  -- A reply lets any page read it. It is the empty 200 to OPTIONS; or a 400 with its reason, for
  -- want of a body or of a factory; or a 200 called JSON, whose text is one of the three error
  -- texts, or the JSON of the local description that the libraries made for the body as an offer.
  -- An exception leaves the handler only where it left CreatePeerConnection, and a null pointer is
  -- followed only for want of memory or in CreatePeerConnection.
  pub on_http_request-IsHonest :
      (req : Request) (factory : Option Factory)
      → IsHonest req factory (on_http_request memory lib req factory).0
  unfolding on_http_request
  on_http_request-IsHonest req factory = elim (Bool-cases (is_options req.method)) [
    | inl e ↦ rw e (Memᴰ.head refl, inl (e, refl, refl))
    | inr e ↦ rw e (offered-IsHonest req factory _ e (handle_body-IsOffered req.body factory))
  ]
