-- ===== src/Gstreamer/Service/Ends.antt =====
-- What ends the GStreamer server.
use webrtc_echoes.Base.{
  ℕ, suc, ◌+◌, ◌≤◌, ◌<◌, ◌≡◌, subst, true, false, some, List, [], ◌∷◌, ◌++◌, arith, length,
  length-append, Bytes, c_str,
}
use webrtc_echoes.HttpServer.Handler.{Reply, is_options}
use webrtc_echoes.Gstreamer.Handler.{Handled, replied_with, aborted, crash, on_http_request_cb}
use webrtc_echoes.Gstreamer.Handler.Outcomes.{bad_sdp_aborts}
use webrtc_echoes.Gstreamer.Service.{Arrival, Served, serving, ended, go_on, serve}

-- The process has ended, with that many replies sent at most.
abbrev pub EndsWithin : ℕ → Served → Type 0
EndsWithin n (serving replies held) = ⊥
EndsWithin n (ended replies) = length replies ≤ n

go_on-EndsWithin :
    (h : Handled) (rest : List Reply → ℕ → Served) (replies : List Reply) (held n : ℕ)
    → ((replies : List Reply) (held : ℕ) → EndsWithin (length replies + n) (rest replies held))
    → EndsWithin (length replies + suc n) (go_on h rest replies held)
go_on-EndsWithin (replied_with r left) rest replies held n ends =
    subst (λ k. EndsWithin k (rest (replies ++ r ∷ []) (held + length left)))
      (omega (arith, length-append replies (r ∷ [])))
      (ends (replies ++ r ∷ []) (held + length left))
go_on-EndsWithin aborted rest replies held n ends = omega arith
go_on-EndsWithin crash rest replies held n ends = omega arith

module _ {Json : Type 0} where
  -- Memory and a pipeline are had, and the body is JSON with a text under "sdp" that is no SDP.
  pub record IsBadOffer (a : Arrival Json) : Type 0 where
    pub json : Json
    pub sdp : Bytes
    pub not_options : is_options a.request.method ≡ false
    pub has_response : a.library.response_buffer ≡ true
    pub has_copy : a.library.request_buffer ≡ true
    pub has_body : 0 < length a.request.body
    pub is_json : a.library.parse (c_str a.request.body) ≡ some json
    pub has_sdp : a.library.sdp_string json ≡ some sdp
    pub launches : a.library.launch.launches ≡ true
    pub plays : a.library.launch.plays ≡ true
    pub is_no_sdp : a.library.parse_sdp sdp ≡ false

  bad-aborted :
      (a : Arrival Json) → IsBadOffer a → (on_http_request_cb a.library a.request).0 ≡ aborted
  bad-aborted a b =
      bad_sdp_aborts a.library a.request b.json b.sdp b.not_options b.has_response b.has_copy
        b.has_body b.is_json b.has_sdp b.launches b.plays b.is_no_sdp

  serve-EndsWithin :
      (before : List (Arrival Json)) (a : Arrival Json) (later : List (Arrival Json))
      (replies : List Reply) (held : ℕ)
      → IsBadOffer a
      → EndsWithin (length replies + length before) (serve (before ++ a ∷ later) replies held)
  unfolding serve
  serve-EndsWithin [] a later replies held b = rw (bad-aborted a b) (omega arith)
  serve-EndsWithin (c ∷ before) a later replies held b =
      go_on-EndsWithin (on_http_request_cb c.library c.request).0 (serve (before ++ a ∷ later))
        replies held (length before)
        (λ replies held. serve-EndsWithin before a later replies held b)

  -- One offer whose SDP the library does not read ends the server, whatever requests come before it
  -- and after it: it sends no more replies than requests came before.
  pub bad_offer_ends :
      (before : List (Arrival Json)) (a : Arrival Json) (later : List (Arrival Json))
      → IsBadOffer a
      → EndsWithin (length before) (serve (before ++ a ∷ later) [] 0)
  bad_offer_ends before a later b =
      subst (λ n. EndsWithin n (serve (before ++ a ∷ later) [] 0)) (omega arith)
        (serve-EndsWithin before a later [] 0 b)
