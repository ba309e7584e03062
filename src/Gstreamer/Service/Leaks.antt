-- ===== src/Gstreamer/Service/Leaks.antt =====
-- What the requests of the GStreamer server hold for ever.
use webrtc_echoes.Base.{
  ℕ, ◌+◌, ◌*◌, ◌≤◌, ◌≡◌, ap, subst, inl, inr, Bool, true, false, ◌&&◌, Option, none, some, List, [],
  ◌∷◌, ◌++◌, arith, ◌==◌, if◌then◌else◌, Bool-cases, length, length-append, Bytes,
}
use webrtc_echoes.HttpServer.Handler.{Reply, is_options, Request}
use webrtc_echoes.Gstreamer.Handler.{
  Library, Handled, replied_with, aborted, crash, response, on_http_request_cb,
}
use webrtc_echoes.Gstreamer.Handler.Outcomes.{IsHonest, on_http_request_cb-IsHonest}
use webrtc_echoes.Gstreamer.Service.{Arrival, serve, Served, serving, ended, go_on}

abbrev has_content : Option Bytes → Bool
has_content none = false
has_content (some text) = true

-- A reply that carries an answer.
abbrev pub is_answer : Reply → Bool
is_answer r = r.status == 200 && has_content r.content

abbrev pub answers : List Reply → ℕ
answers [] = 0
answers (r ∷ replies) = (if is_answer r then 1 else 0) + answers replies

answers-snoc :
    (replies : List Reply) (r : Reply)
    → answers (replies ++ r ∷ []) ≡ answers replies + (if is_answer r then 1 else 0)
answers-snoc [] r = omega arith
answers-snoc (q ∷ replies) r = omega (arith, answers-snoc replies r)

-- A request that is no OPTIONS holds one object, and seven more if it is answered.
abbrev HoldsEnough : Bool → Handled → Type 0
HoldsEnough preflight (replied_with r left) =
    (if preflight then 0 else 1) + 7 * (if is_answer r then 1 else 0) ≤ length left
HoldsEnough preflight aborted = Unit {0}
HoldsEnough preflight crash = Unit {0}

-- What a server that still serves holds.
abbrev HoldsAll : ℕ → Served → Type 0
HoldsAll least (serving replies held) = least + 7 * answers replies ≤ held
HoldsAll least (ended replies) = Unit {0}

module _ {Json : Type 0} where
  -- The requests that are no OPTIONS.
  abbrev pub asked : List (Arrival Json) → ℕ
  asked [] = 0
  asked (a ∷ arrivals) = (if is_options a.request.method then 0 else 1) + asked arrivals

  honest-HoldsEnough : (lib : Library Json) (h : Handled) → IsHonest lib h → HoldsEnough false h
  honest-HoldsEnough lib (replied_with r left) (inl (status, headers, sdp, answer, content, held)) =
      ground (arith, ap length held)
  honest-HoldsEnough lib (replied_with r left) (inr (inl status, headers, more, held)) =
      ground (arith, ap length held, length-append more (response ∷ []))
  honest-HoldsEnough lib (replied_with r left) (inr (inr status, headers, more, held)) =
      ground (arith, ap length held, length-append more (response ∷ []))
  honest-HoldsEnough lib aborted k = tt
  honest-HoldsEnough lib crash k = tt

  preflight-HoldsEnough :
      (lib : Library Json) (req : Request)
      → is_options req.method ≡ true
      → HoldsEnough true (on_http_request_cb lib req).0
  unfolding on_http_request_cb
  preflight-HoldsEnough lib req e = rw e (omega arith)

  request-HoldsEnough :
      (a : Arrival Json)
      → HoldsEnough (is_options a.request.method) (on_http_request_cb a.library a.request).0
  request-HoldsEnough a = elim (Bool-cases (is_options a.request.method)) [
    | inl e ↦ rw e (preflight-HoldsEnough a.library a.request e)
    | inr e ↦ rw e (
        honest-HoldsEnough a.library (on_http_request_cb a.library a.request).0
          (on_http_request_cb-IsHonest a.library a.request e))
  ]

  after-HoldsAll :
      (preflight : Bool) (h : Handled) (arrivals : List (Arrival Json)) (replies : List Reply)
      (held least : ℕ)
      → HoldsEnough preflight h
      → least + 7 * answers replies ≤ held
      → ((replies : List Reply) (held least : ℕ)
          → least + 7 * answers replies ≤ held
          → HoldsAll (least + asked arrivals) (serve arrivals replies held))
      → HoldsAll
          (least + ((if preflight then 0 else 1) + asked arrivals))
          (go_on h (serve arrivals) replies held)
  after-HoldsAll preflight (replied_with r left) arrivals replies held least k h rest =
      subst (λ n. HoldsAll n (serve arrivals (replies ++ r ∷ []) (held + length left)))
        (omega arith)
        (rest (replies ++ r ∷ []) (held + length left) (least + (if preflight then 0 else 1))
          (omega (arith, k, h, answers-snoc replies r)))
  after-HoldsAll preflight aborted arrivals replies held least k h rest = tt
  after-HoldsAll preflight crash arrivals replies held least k h rest = tt

  serve-HoldsAll :
      (arrivals : List (Arrival Json)) (replies : List Reply) (held least : ℕ)
      → least + 7 * answers replies ≤ held
      → HoldsAll (least + asked arrivals) (serve arrivals replies held)
  unfolding serve
  serve-HoldsAll [] replies held least h = omega (arith, h)
  serve-HoldsAll (a ∷ arrivals) replies held least h =
      after-HoldsAll (is_options a.request.method) (on_http_request_cb a.library a.request).0
        arrivals replies held least (request-HoldsEnough a) h (serve-HoldsAll arrivals)

  -- A server that still serves holds for ever an object for each request that was no OPTIONS, and
  -- seven more for each answer that it sent, at the least.
  pub serve-leaks :
      (arrivals : List (Arrival Json)) (replies : List Reply) (held : ℕ)
      → serve arrivals [] 0 ≡ serving replies held
      → asked arrivals + 7 * answers replies ≤ held
  serve-leaks arrivals replies held e = omega (
    arith,
    subst (HoldsAll (0 + asked arrivals)) e (serve-HoldsAll arrivals [] 0 0 (omega arith)),
  )
