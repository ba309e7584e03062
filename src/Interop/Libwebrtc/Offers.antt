-- ===== src/Interop/Libwebrtc/Offers.antt =====
-- What the libdatachannel client comes to that posts its offer to the libwebrtc server.
use webrtc_echoes.Base.{
  ℕ, ◌^◌, ◌<◌, ◌≡◌, refl, ap, ◌∙◌, ◌≢◌, inl, inr, Bool, true, false, not, ◌&&◌, Option, none, some,
  [], ◌∷◌, arith, if◌then◌else◌, Bool-cases, length, take-all, pos, Bytes, codes, c_str,
}
use webrtc_echoes.PeerFactory.Factory.{Factory}
use webrtc_echoes.PeerFactory.Create.{
  Library, Answer, returned, thrown, crashed, returned_or_thrown, offer_text, answer_from,
  negotiate, add_connection, create_from, parse_offer, create_peer_connection,
}
use webrtc_echoes.PeerFactory.Create.Answers.{IsErrorText}
use webrtc_echoes.HttpServer.Handler.{
  Allocator, Handled, crash, post, to_int32, send, send_answer, handle_offer, handle_body,
  on_http_request, exception,
}
use webrtc_echoes.DataChannel.Client.Promise.{bad_json, request_failed}
use webrtc_echoes.DataChannel.Client.Session.{Exchange, Outcome, throws, exchange}
use webrtc_echoes.DataChannel.Post.{
  Transport, IsHttp, offer_path, received, exchange-received, received-read,
}
use webrtc_echoes.Interop.Libwebrtc.{
  reply_of, joined, IsReadable, met_json, met_local, met, met_connection,
}

-- A body below 2 ^ 31 bytes keeps its length as an int.
whole_text :
    (body : Bytes) → length body < 2 ^ 31 → offer_text body (to_int32 (length body)) ≡ some body
whole_text body short = rw (small_int (length body) short) (ap some (take-all body))
  where
    small_int : (n : ℕ) → n < 2 ^ 31 → to_int32 n ≡ pos n
    small_int n h = ground arith

module _ {Json : Type 0} (http : Transport Handled) (memory : Allocator) (lib : Library Json)
    (x : Exchange) (v : IsHttp reply_of http) (r : IsReadable lib x) where
  -- What the client comes to with the end of CreatePeerConnection, where the server has memory.
  abbrev came : Answer → Outcome (Bytes × Bytes)
  came thrown = throws request_failed
  came crashed = throws request_failed
  came (returned body) = received x (some (200, c_str body))

  came_error : (body : Bytes) → IsErrorText body → came (returned body) ≡ throws bad_json
  came_error body e = rw (r.errors body e) refl

  came_json :
      (sdp : Bytes) (json : Option Bytes)
      → lib.dump ((codes "type", codes "answer") ∷ (codes "sdp", sdp) ∷ []) ≡ json
      → came (returned_or_thrown json) ≡ met_json memory lib x sdp json
  came_json sdp none d = refl
  came_json sdp (some answer) d =
      let (whole, parsed, read) = r.answers sdp answer d in
      rw whole (received-read x answer (sdp, codes "answer") parsed read)

  came_local :
      (local : Option Bytes) → came (answer_from lib.dump local) ≡ met_local memory lib x local
  unfolding answer_from
  came_local none = came_error (codes "Failed to set local description.") (inr (inr refl))
  came_local (some sdp) =
      came_json sdp (lib.dump ((codes "type", codes "answer") ∷ (codes "sdp", sdp) ∷ [])) refl

  came_negotiated :
      (sdp : Bytes)
      → came (negotiate lib (some sdp)) ≡ (
          if lib.parse_sdp sdp && lib.ready_in_time
          then met_local memory lib x lib.local_description
          else throws bad_json)
  unfolding negotiate
  came_negotiated sdp = elim (Bool-cases (lib.parse_sdp sdp)) [
    | inl p ↦ elim (Bool-cases lib.ready_in_time) [
      | inl t ↦ rw (p, t) (came_local lib.local_description)
      | inr t ↦ rw (p, t) (came_error [] (inr (inl refl)))
    ]
    | inr p ↦ rw p (came_error (codes "error") (inl refl))
  ]

  came_connected :
      (json : Json) (sdp : Bytes) (f : Factory) (pc : Option ℕ)
      → lib.sdp_of json ≡ some sdp
      → lib.new_connection ≡ pc
      → came (add_connection lib json pc f).0 ≡ met_connection memory lib x sdp
  unfolding add_connection
  came_connected json sdp f none s e = rw e (came_error (codes "error") (inl refl))
  came_connected json sdp f (some pc) s e = elim (Bool-cases lib.audio_track) [
    | inl t ↦ elim (Bool-cases lib.add_track) [
      | inl a ↦ rw (e, t, a, s) (came_negotiated sdp)
      | inr a ↦ rw (e, t, a) (came_error (codes "error") (inl refl))
    ]
    | inr t ↦ rw (e, t) (came_error (codes "error") (inl refl))
  ]

  came_unless :
      (b : Bool) (f : Factory) (made : Answer × Factory) (o : Outcome (Bytes × Bytes))
      → came made.0 ≡ o
      → came (if not b then (crashed, f) else made).0 ≡ (if not b then throws request_failed else o)
  came_unless true f made o e = e
  came_unless false f made o e = refl

  came_made :
      (json : Json) (sdp : Bytes) (f : Factory)
      → lib.sdp_of json ≡ some sdp
      → came (create_from lib (some json) f).0
        ≡ (if not f.has_factory then throws request_failed else met_connection memory lib x sdp)
  unfolding create_from
  came_made json sdp f named =
      came_unless f.has_factory f _ _ (came_connected json sdp f lib.new_connection named refl)

  came_created :
      (offer : Bytes × Bytes) (f : Factory)
      → (let body = x.dump offer.0 offer.1 in length body < 2 ^ 31)
      → (let body = x.dump offer.0 offer.1 in
          came (create_peer_connection lib body (to_int32 (length body)) f).0)
        ≡ (if not f.has_factory then throws request_failed else met_connection memory lib x offer.0)
  unfolding create_peer_connection
  came_created offer f short =
      let body : Bytes = x.dump offer.0 offer.1 in
      let (json, parsed, named) = (r.offers offer).1 in
      ap (λ o. came (create_from lib o f).0) (ap (parse_offer lib) (whole_text body short) ∙ parsed)
      ∙ came_made json offer.0 f named

  -- A request with a body, in a server with a factory.
  handled_offer :
      (body : Bytes) (f : Factory)
      → body ≢ []
      → (on_http_request memory lib (record { method = post; body = body }) (some f)).0 ≡ (
          if memory.request_buffer
          then send_answer memory (create_peer_connection lib body (to_int32 (length body)) f).0
          else crash)
  unfolding on_http_request handle_body handle_offer
  handled_offer [] f h = absurd (h refl)
  handled_offer (c ∷ body) f h = ground arith

  sent_answer :
      (answer : Answer)
      → received x (http.deliver (send_answer memory answer))
        ≡ (if memory.response_buffer then came answer else throws request_failed)
  unfolding send_answer send
  sent_answer thrown = elim (Bool-cases memory.response_buffer) [
    | inl b ↦ rw (b, v.arrives exception) refl
    | inr b ↦ rw (b, v.arrives exception) refl
  ]
  sent_answer crashed = elim (Bool-cases memory.response_buffer) [
    | inl b ↦ rw (b, v.arrives crash) refl
    | inr b ↦ rw (b, v.arrives crash) refl
  ]
  sent_answer (returned body) = elim (Bool-cases memory.response_buffer) [
    | inl b ↦ rw b (ap (received x) (v.arrives _))
    | inr b ↦ rw (b, v.arrives crash) refl
  ]

  -- The handler goes on from the copy of the body.
  with_copy :
      (copy buffer : Bool) (h : Handled) (o : Outcome (Bytes × Bytes))
      → received x (http.deliver h) ≡ (if buffer then o else throws request_failed)
      → received x (http.deliver (if copy then h else crash))
        ≡ (if not (buffer && copy) then throws request_failed else o)
  with_copy true true h o e = e
  with_copy true false h o e = e
  with_copy false true h o e = rw (v.arrives crash) refl
  with_copy false false h o e = rw (v.arrives crash) refl

  -- Over HTTP, where each end reads what the other writes and the offer is below 2 ^ 31 bytes: the
  -- client that posts its description to the libwebrtc server comes to set exactly the local
  -- description of the connection that the server's library makes for it, if the library makes it with
  -- its track, reads the offer, and has it set in time, and if the client's own library takes the
  -- description. Where the server's library does not come to that the client throws for bad JSON; and
  -- where the server has no memory or its library gave no factory, or where the description cannot be
  -- printed, for the request.
  pub exchange-libwebrtc :
      (offer : Bytes × Bytes) (f : Factory)
      → x.local ≡ some offer
      → length (x.dump offer.0 offer.1) < 2 ^ 31
      → exchange offer_path (joined http memory lib f x) ≡ met memory lib x f.has_factory offer
  exchange-libwebrtc offer f e short =
      let body : Bytes = x.dump offer.0 offer.1 in
      exchange-received offer_path (joined http memory lib f x) offer e
      ∙ ap (λ h. received x (http.deliver h)) (handled_offer body f (r.offers offer).0)
      ∙ with_copy memory.request_buffer memory.response_buffer _ _
          (sent_answer (create_peer_connection lib body (to_int32 (length body)) f).0)
      ∙ ap
          (λ o.
            if not (memory.response_buffer && memory.request_buffer)
            then throws request_failed
            else o)
          (came_created offer f short)
