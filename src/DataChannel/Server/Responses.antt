-- ===== src/DataChannel/Server/Responses.antt =====
-- What the server responds to an offer.
use webrtc_echoes.Base.{
  ◌≡◌, refl, sym, ap, ◌∙◌, ◌≢◌, inl, inr, Bool, true, false, Option, none, some, List, [], ◌∷◌,
  arith, if◌then◌else◌, Bool-cases, Bytes,
}
use webrtc_echoes.DataChannel.Server.{
  Library, Event, handler_runs, gathering_complete, gathering_other, state_other, disconnected,
  channel_message, track_message, Connection, on_event, Promise, unsettled, failed, fulfilled,
  new_connection, get, responded, refused, waiting, Handling, post_offer, Response, internal_error,
  answered, answer_of, by_promise, with_description,
}

-- Whether the handler runs.
abbrev pub runs : List Event → Bool
runs [] = false
runs (handler_runs ∷ es) = true
runs (_ ∷ es) = runs es

-- What the first completed gathering promises, if the handler runs after it.
abbrev pub first_answer : Library → List Event → Promise
first_answer lib [] = unsettled
first_answer lib (gathering_complete local ∷ es) =
    if runs es then answer_of lib local else unsettled
first_answer lib (_ ∷ es) = first_answer lib es

abbrev pub response_of : Handling → Option Response
response_of (responded r c) = some r
response_of (refused r) = some r
response_of (waiting c) = none

abbrev pub expected_response : Promise → Option Response
expected_response unsettled = none
expected_response failed = some internal_error
expected_response (fulfilled body) = some (answered body)

-- A connection whose handler waits.
record IsPending (c : Connection) : Type 0 where
  is_unsettled : c.promise ≡ unsettled
  is_live : c.promise_live ≡ true

settled_response :
    (lib : Library) (es : List Event) (d : Connection) (rest : Handling) (p : Promise)
    → p ≢ unsettled
    → response_of (by_promise lib es d rest p) ≡ expected_response p
settled_response lib es d rest unsettled h = absurd (h refl)
settled_response lib es d rest failed h = refl
settled_response lib es d rest (fulfilled body) h = refl

pub answer_of-ne-unsettled :
    (lib : Library) (local : Option (Bytes × Bytes)) → answer_of lib local ≢ unsettled
answer_of-ne-unsettled lib none = λ e. cc
answer_of-ne-unsettled lib (some (sdp, type)) = λ e. ground arith

gathered :
    (lib : Library) (local : Option (Bytes × Bytes)) (c : Connection)
    → IsPending c
    → let d = on_event lib (gathering_complete local) c in
      (d.promise ≡ answer_of lib local) × (d.promise_live ≡ true)
unfolding on_event
gathered lib local c v = ground arith

expected_response-if :
    (b : Bool) (p : Promise)
    → expected_response (if b then p else unsettled) ≡ (if b then expected_response p else none)
expected_response-if true p = refl
expected_response-if false p = refl

settled_kept :
    (lib : Library) (local : Option (Bytes × Bytes)) (c : Connection)
    → c.promise ≢ unsettled
    → c.promise_live ≡ true
    → let d = on_event lib (gathering_complete local) c in
      (d.promise ≡ c.promise) × (d.promise_live ≡ true)
unfolding on_event
settled_kept lib local c h live = ground arith

-- A handler whose promise is settled, until it runs.
settled-response :
    (lib : Library) (es : List Event) (c : Connection)
    → c.promise ≢ unsettled
    → c.promise_live ≡ true
    → response_of (get lib es c) ≡ (if runs es then expected_response c.promise else none)
unfolding get on_event
settled-response lib [] c h live = refl
settled-response lib (handler_runs ∷ es) c h live =
    settled_response lib es c (get lib es c) c.promise h
settled-response lib (gathering_complete local ∷ es) c h live =
    let kept = settled_kept lib local c h live in
    settled-response lib es (on_event lib (gathering_complete local) c) (λ e. h (sym kept.0 ∙ e))
      kept.1
    ∙ ap (λ p. if runs es then expected_response p else none) kept.0
settled-response lib (gathering_other ∷ es) c h live =
    settled-response lib es (on_event lib gathering_other c) h live
settled-response lib (state_other ∷ es) c h live =
    settled-response lib es (on_event lib state_other c) h live
settled-response lib (disconnected ∷ es) c h live =
    settled-response lib es (on_event lib disconnected c) h live
settled-response lib (channel_message channel m ∷ es) c h live =
    settled-response lib es (on_event lib (channel_message channel m) c) h live
settled-response lib (track_message track m ∷ es) c h live =
    settled-response lib es (on_event lib (track_message track m) c) h live

get-response :
    (lib : Library) (es : List Event) (c : Connection)
    → IsPending c
    → response_of (get lib es c) ≡ expected_response (first_answer lib es)
unfolding get on_event
get-response lib [] c v = refl
get-response lib (handler_runs ∷ es) c v =
    ap (λ p. response_of (by_promise lib es c (get lib es c) p)) v.is_unsettled
    ∙ get-response lib es c v
get-response lib (gathering_complete local ∷ es) c v =
    let (made, live) = gathered lib local c v in
    settled-response lib es (on_event lib (gathering_complete local) c)
      (λ e. answer_of-ne-unsettled lib local (sym made ∙ e)) live
    ∙ ap (λ p. if runs es then expected_response p else none) made
    ∙ sym (expected_response-if (runs es) (answer_of lib local))
get-response lib (gathering_other ∷ es) c v =
    get-response lib es (on_event lib gathering_other c)
      (record { is_unsettled = v.is_unsettled; is_live = v.is_live })
get-response lib (state_other ∷ es) c v =
    get-response lib es (on_event lib state_other c)
      (record { is_unsettled = v.is_unsettled; is_live = v.is_live })
get-response lib (disconnected ∷ es) c v =
    get-response lib es (on_event lib disconnected c)
      (record { is_unsettled = v.is_unsettled; is_live = v.is_live })
get-response lib (channel_message channel m ∷ es) c v =
    get-response lib es (on_event lib (channel_message channel m) c)
      (record { is_unsettled = v.is_unsettled; is_live = v.is_live })
get-response lib (track_message track m ∷ es) c v =
    get-response lib es (on_event lib (track_message track m) c)
      (record { is_unsettled = v.is_unsettled; is_live = v.is_live })

-- What the libraries make of the body of the request, up to the remote description.
abbrev pub is_accepted : Library → Option (Bytes × Bytes) → Bool
is_accepted lib none = false
is_accepted lib (some remote) = lib.set_remote remote

-- An offer that cannot be read or set is answered by 500. Any other is answered by what the first
-- completed gathering promises, its description as JSON or 500 where that throws, once the handler
-- runs after it, whatever else happens before; and while no gathering completes, or the handler does
-- not run after it, there is no response, however long that is.
pub post_offer-response :
    (lib : Library) (body : Bytes) (es : List Event)
    → response_of (post_offer lib body es) ≡ (
        if is_accepted lib (lib.members body)
        then expected_response (first_answer lib es)
        else some internal_error)
unfolding post_offer
post_offer-response lib body es = described (lib.members body)
  where
    described :
        (remote : Option (Bytes × Bytes))
        → response_of (with_description lib es remote) ≡ (
            if is_accepted lib remote
            then expected_response (first_answer lib es)
            else some internal_error)
    described none = refl
    described (some remote) = elim (Bool-cases (lib.set_remote remote)) [
      | inl e ↦
          rw e (get-response lib es new_connection (record { is_unsettled = refl; is_live = refl }))
      | inr e ↦ rw e
    ]
