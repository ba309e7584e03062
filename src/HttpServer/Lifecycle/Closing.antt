-- ===== src/HttpServer/Lifecycle/Closing.antt =====
-- Which peer connections the program has made by its end, and their closing.
use webrtc_echoes.Base.{
  ℕ, ◌≡◌, refl, ap, ◌∙◌, Bool, true, false, not, ◌&&◌, Option, none, some, List, [], ◌∷◌, arith,
  ltb, if◌then◌else◌, length,
}
use webrtc_echoes.PeerFactory.Factory.{
  Factory, construct as construct_factory, destroy as destroy_factory,
}
use webrtc_echoes.PeerFactory.Create.{create_peer_connection}
use webrtc_echoes.PeerFactory.Create.Results.{Offer, all_stored, serve, destroy-serve}
use webrtc_echoes.HttpServer.Handler.{
  Request, is_options, to_int32, on_http_request, handle_body, handle_offer, send, Arrival,
}
use webrtc_echoes.HttpServer.Lifecycle.{
  Platform, Server, Result, ok, throws, construct, init, ◌>>=◌, survive, dispatch_requests, run,
  exited, serve_until_signal, main, with_requests, exit_from, destroy_local, EventCall,
}

-- The requests whose body the handler hands to the factory.
abbrev pub is_offer : Request → Bool
is_offer req = not (is_options req.method) && ltb 0 (length req.body)

exit_from-closes :
    (s : Server) (o : Option (Option Factory)) (r g : Option Factory) {calls : List EventCall}
    → exit_from (with_requests s o) ≡ exited r calls
    → ((r : Option Factory) → o ≡ some r → r ≡ g)
    → r ≡ destroy_local g
exit_from-closes s none r g e only = absurd (cc)
exit_from-closes s (some f) r g e only = ground (arith, only f refl)

module _ {Json : Type 0} where
  abbrev pub offer_of : Arrival Json → Offer Json
  offer_of a = record {
    library = a.library;
    buffer = a.request.body;
    size = to_int32 (length a.request.body);
  }

  abbrev pub offers : List (Arrival Json) → List (Offer Json)
  offers [] = []
  offers (a ∷ arrivals) =
      if is_offer a.request then offer_of a ∷ offers arrivals else offers arrivals

  abbrev after : Arrival Json → Factory → Factory
  after a f =
      if is_offer a.request
      then (create_peer_connection a.library a.request.body (to_int32 (length a.request.body)) f).1
      else f

  -- The pointer after a request that the process survives.
  survived :
      (a : Arrival Json) (f : Factory) (r : Option Factory)
      → let x = on_http_request a.memory a.library a.request (some f) in
        survive x.0 x.1 ≡ some r → r ≡ some (after a f)
  unfolding on_http_request handle_body handle_offer send
  survived a f r e = ground arith

  chained :
      (o : Option (Option Factory)) (arrivals : List (Arrival Json)) (g : Factory)
      (r : Option Factory)
      → ((r : Option Factory) → o ≡ some r → r ≡ some g)
      → (elim o [ none ↦ none | some f' ↦ dispatch_requests arrivals f' ]) ≡ some r
      → dispatch_requests arrivals (some g) ≡ some r
  chained none arrivals g r only e = absurd (cc)
  chained (some f) arrivals g r only e = rw (← only f refl) e

  served :
      (b : Bool) (o : Offer Json) (os : List (Offer Json)) (f : Factory)
      → (serve os (if b then (create_peer_connection o.library o.buffer o.size f).1 else f)).1
        ≡ (serve (if b then o ∷ os else os) f).1
  unfolding serve
  served true o os f = refl
  served false o os f = refl

  dispatch_requests-serve :
      (arrivals : List (Arrival Json)) (f : Factory) (r : Option Factory)
      → dispatch_requests arrivals (some f) ≡ some r
      → r ≡ some (serve (offers arrivals) f).1
  unfolding dispatch_requests serve
  dispatch_requests-serve [] f r e = cc
  dispatch_requests-serve (a ∷ arrivals) f r e =
      dispatch_requests-serve arrivals (after a f) r
        (chained _ arrivals (after a f) r (survived a f) e)
      ∙ ap some (served (is_offer a.request) (offer_of a) (offers arrivals) f)

  closes :
      (made : Bool) (rec send : List ℕ) (arrivals : List (Arrival Json)) (s : Result)
      {r : Option Factory} {calls : List EventCall}
      → serve_until_signal arrivals (construct_factory made rec send) s ≡ exited r calls
      → (f : Factory) × (r ≡ some f)
        × (f.close_calls ≡ all_stored made (offers arrivals))
        × (f.peer_connections ≡ [])
        × (f.dependencies ≡ none)
  unfolding serve_until_signal run construct_factory destroy_factory
  closes made rec send arrivals (throws f calls) e = absurd (cc)
  closes made rec send arrivals (ok s) {r} e =
      let f = (serve (offers arrivals) (construct_factory made rec send)).1 in
      (
        destroy_factory f,
        exit_from-closes s (dispatch_requests arrivals (some (construct_factory made rec send))) r
            (some f) e
            (λ r d. dispatch_requests-serve arrivals (construct_factory made rec send) r d),
        (destroy-serve (offers arrivals) (construct_factory made rec send) refl).0,
        refl,
        refl,
      )

  -- Where main comes to its end, the factory is gone, and before that it closed each connection that
  -- the offers among the requests had made it store, in the order in which they came, and no other.
  pub main-closes :
      (platform : Platform) (made : Bool) (rec send : List ℕ) (arrivals : List (Arrival Json))
      {r : Option Factory} {calls : List EventCall}
      → main platform made rec send arrivals ≡ exited r calls
      → (f : Factory) × (r ≡ some f)
        × (f.close_calls ≡ all_stored made (offers arrivals))
        × (f.peer_connections ≡ [])
        × (f.dependencies ≡ none)
  unfolding main
  main-closes platform made rec send arrivals e =
      closes made rec send arrivals (construct platform [] >>= λ s. init platform s) e
