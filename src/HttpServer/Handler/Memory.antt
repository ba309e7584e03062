-- ===== src/HttpServer/Handler/Memory.antt =====
-- The memory that the requests of a server use up.
use webrtc_echoes.Base.{
  ℕ, ◌+◌, ◌≡◌, refl, ap, ◌∙◌, Bool, true, false, ◌||◌, Option, none, some, List, [], ◌∷◌, arith,
  if◌then◌else◌,
}
use webrtc_echoes.PeerFactory.Factory.{Factory}
use webrtc_echoes.HttpServer.Handler.{Arrival, Handled, on_http_request}
use webrtc_echoes.HttpServer.Handler.Fatal.{
  InTime, cost, kept, any_fatal, is_fatal_arrival, on_http_request-IsKept,
}

both_fatal :
    (fatal rest : Bool) (m n : ℕ)
    → m ≡ n
    → (if fatal then none else if rest then none else some m)
      ≡ (if fatal || rest then none else some n)
both_fatal true rest m n e = refl
both_fatal false rest m n e = ap (λ k. if rest then none else some k) e

module _ {Json : Type 0} where
  abbrev pub costs : List (Arrival Json) → ℕ
  costs [] = 0
  costs (a ∷ arrivals) = cost a.request + costs arrivals

  -- The requests handled one after the other. The result is the number of allocations still held, or
  -- none where the process has ended.
  unfoldable pub serve_requests : List (Arrival Json) → Option Factory → ℕ → Option ℕ
  serve_requests [] factory live = some live
  serve_requests (a ∷ arrivals) factory live =
      let (handled, factory') = on_http_request a.memory a.library a.request factory in
      elim (kept handled) [ none ↦ none | some n ↦ serve_requests arrivals factory' (live + n) ]

  serve_kept :
      (fatal : Bool) (h : Handled × Option Factory) (arrivals : List (Arrival Json)) (live n : ℕ)
      → kept h.0 ≡ (if fatal then none else some n)
      → (elim (kept h.0) [ none ↦ none | some n ↦ serve_requests arrivals h.1 (live + n) ])
        ≡ (if fatal then none else serve_requests arrivals h.1 (live + n))
  serve_kept true h arrivals live n e = rw e refl
  serve_kept false h arrivals live n e = rw e refl

  -- If no call of the factory runs out of time, after which its signalling thread may come upon a
  -- dead frame: a server with the object of a factory handles a sequence of requests to the end
  -- exactly if none of them is fatal. A fatal one is no OPTIONS; and there is no memory for the
  -- response, or it has a body and there is none for its copy, or the body is no JSON, or the
  -- library gave no factory, or a connection with its track is made, and then there is no text for
  -- the SDP, or the SDP is read and set in time and the local description cannot be printed. If
  -- none is fatal, each OPTIONS request leaves no allocation behind, each other request one, and
  -- one more if it has a body: the server holds on to as many as the requests cost together.
  pub serve_requests-costs :
      (arrivals : List (Arrival Json)) (f : Factory) (live : ℕ)
      → InTime arrivals
      → serve_requests arrivals (some f) live
        ≡ (if any_fatal f.has_factory arrivals then none else some (live + costs arrivals))
  unfolding serve_requests
  serve_requests-costs [] f live in_time = ap some (omega arith)
  serve_requests-costs (a ∷ arrivals) f live in_time =
      let (kept_one, factory) = on_http_request-IsKept a.library a.memory a.request f in
      let (f', stays, same) = factory in
      let fatal : Bool = is_fatal_arrival f.has_factory a in
      let rest = serve_requests-costs arrivals f' (live + cost a.request) in_time.1 in
      serve_kept fatal (on_http_request a.memory a.library a.request (some f)) arrivals live
        (cost a.request) kept_one
      ∙ ap (λ now. if fatal then none else serve_requests arrivals now (live + cost a.request))
          stays
      ∙ ap (λ r. if fatal then none else r) rest
      ∙ ap
          (λ has.
            if fatal
            then none
            else if any_fatal has arrivals
            then none
            else some (live + cost a.request + costs arrivals))
          same
      ∙ both_fatal fatal (any_fatal f.has_factory arrivals) _ _ (omega arith)
