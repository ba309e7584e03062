-- ===== src/Gstreamer/Negotiation/Outcomes.antt =====
-- How a request of the GStreamer server can end, and in what order.
use webrtc_echoes.Base.{
  ℕ, suc, ◌+◌, ◌≤◌, ◌<◌, ◌≡◌, refl, ◌⊎◌, inl, inr, Bool, true, false, Option, none, some, [], ◌∷◌,
  arith, Bytes,
}
use webrtc_echoes.Gstreamer.Pipeline.{
  Element, interrupted, expired, replied, PromiseState, unmade, pending, ended, set_offer,
  on_offer_set, on_answer_created, set_local,
}
use webrtc_echoes.Gstreamer.Handler.{Library, Handled, replied_with, aborted, crash}
use webrtc_echoes.Gstreamer.Negotiation.{
  Phase, offering, asking, waiting, done, Process, running, stopped, lost, Session, begin, Step,
  Steps, here, next, offer, ask, reply_to_client, end_own, end_offer, end_answer, finish,
}
use webrtc_echoes.Gstreamer.Negotiation.Invariant.{
  process_of_reply, first_end, Inv, IsNew, Steps-Inv, local_of, process_of, reply_of,
}

-- The steps that are left at most: of the handler, and of the library for each promise.
phase_rank : Phase → ℕ
phase_rank offering = 3
phase_rank asking = 2
phase_rank waiting = 1
phase_rank done = 0

promise_rank : PromiseState → ℕ
promise_rank (ended result answer) = 0
promise_rank _ = 1

rank : Session → ℕ
unfolding phase_rank promise_rank
rank s =
    phase_rank s.phase
    + promise_rank s.own_promise
    + promise_rank s.element.offer_promise
    + promise_rank s.element.answer_promise

abbrev is_running : Process → Bool
is_running running = true
is_running _ = false

abbrev pub has_replied : Option Handled → Bool
has_replied (some (replied_with r left)) = true
has_replied _ = false

running-has_replied :
    (reply : Option Handled) (h : Handled)
    → reply ≡ some h
    → process_of_reply reply ≡ running
    → has_replied reply ≡ true
running-has_replied reply (replied_with r left) e p = ground arith
running-has_replied reply aborted e p = absurd (ground arith)
running-has_replied reply crash e p = absurd (ground arith)

-- The process has ended, or the client has its reply and one local description was set.
abbrev pub IsOver : Session → Type 0
IsOver s =
    (is_running s.process ≡ false)
    ⊎ ((s.phase ≡ done)
        × (has_replied s.reply ≡ true)
        × (text : Bytes) × (s.element.local_descriptions ≡ text ∷ []))

abbrev Continues : {Json : Type 0} → Library Json → Bytes → Session → Type 0
Continues lib sdp s = (u : Session) × Step lib sdp s u

module _ {Json : Type 0} {lib : Library Json} {sdp : Bytes} where
  abbrev pub count : {s t : Session} → Steps lib sdp s t → ℕ
  count here = 0
  count (next run st) = suc (count run)

  Step-rank : {s t : Session} → Step lib sdp s t → Inv lib sdp s → rank t < rank s
  unfolding rank set_offer on_offer_set on_answer_created set_local
  Step-rank (offer s r p) v = ground arith
  Step-rank (ask s r p) v = ground arith
  Step-rank (reply_to_client s result answer r p o) v = ground arith
  Step-rank (end_own s result answer r o) v = ground arith
  Step-rank (end_offer s result r o) v = ground arith
  Step-rank (end_answer s result none r o) v = ground arith
  Step-rank (end_answer s result (some text) r o) v = ground arith

  Steps-rank :
      {e : Element} {t : Session} (new : IsNew e) (run : Steps lib sdp (begin e) t)
      → count run + rank t ≤ 6
  Steps-rank new here = unfold rank in ground arith
  Steps-rank new (next run st) = omega (arith, Step-rank st (Steps-Inv new run), Steps-rank new run)

  waiting-Continues :
      (s : Session) (own : PromiseState)
      → Inv lib sdp s
      → s.process ≡ running
      → s.phase ≡ waiting
      → s.own_promise ≡ own
      → Continues lib sdp s
  waiting-Continues s unmade v r p o = absurd (ground (arith, v))
  waiting-Continues s pending v r p o = (_, end_own s replied none r o)
  waiting-Continues s (ended result answer) v r p o = (_, reply_to_client s result answer r p o)

  offer_promise-Continues :
      (s : Session) (promise : PromiseState)
      → Inv lib sdp s
      → s.process ≡ running
      → s.phase ≡ done
      → s.element.answer_promise ≡ unmade
      → s.element.offer_promise ≡ promise
      → Continues lib sdp s
  offer_promise-Continues s unmade v r p a o = absurd (ground (arith, v))
  offer_promise-Continues s pending v r p a o = (_, end_offer s replied r o)
  offer_promise-Continues s (ended result answer) v r p a o = absurd (ground (arith, v))

  done-has_replied :
      (s : Session) (own : PromiseState)
      → Inv lib sdp s
      → s.phase ≡ done
      → s.own_promise ≡ own
      → process_of_reply s.reply ≡ running
      → has_replied s.reply ≡ true
  done-has_replied s unmade v p o r = absurd (ground (arith, v))
  done-has_replied s pending v p o r = absurd (ground (arith, v))
  done-has_replied s (ended result answer) v p o r =
      running-has_replied s.reply (finish lib result answer) (ground (arith, v)) r

  after_reply :
      (s : Session) (answer : PromiseState)
      → Inv lib sdp s
      → s.process ≡ running
      → s.phase ≡ done
      → s.element.answer_promise ≡ answer
      → IsOver s ⊎ Continues lib sdp s
  after_reply s unmade v r p o =
      inr (offer_promise-Continues s s.element.offer_promise v r p o refl)
  after_reply s pending v r p o = inr (_, end_answer s replied none r o)
  after_reply s (ended replied (some text)) v r p o = inl (
      inr
        (p, done-has_replied s s.own_promise v p refl (ground (arith, v)), text, ground (arith, v)))
  after_reply s (ended replied none) v r p o = absurd (ground (arith, v))
  after_reply s (ended interrupted answer) v r p o = absurd (ground (arith, v))
  after_reply s (ended expired answer) v r p o = absurd (ground (arith, v))

  while_running :
      (s : Session) (phase : Phase)
      → Inv lib sdp s
      → s.process ≡ running
      → s.phase ≡ phase
      → IsOver s ⊎ Continues lib sdp s
  while_running s offering v r p = inr (_, offer s r p)
  while_running s asking v r p = inr (_, ask s r p)
  while_running s waiting v r p = inr (waiting-Continues s s.own_promise v r p refl)
  while_running s done v r p = after_reply s s.element.answer_promise v r p refl

  no_deadlock :
      (s : Session) (process : Process)
      → Inv lib sdp s
      → s.process ≡ process
      → IsOver s ⊎ Continues lib sdp s
  no_deadlock s running v r = while_running s s.phase v r refl
  no_deadlock s stopped v r = inl (inl (ground arith))
  no_deadlock s lost v r = inl (inl (ground arith))

  -- A request with a new element ends however its steps are interleaved: there are six at most, and a
  -- state that they reach can go on, or in it the process has ended, or the client has its reply and
  -- one local description was set.
  pub negotiation_ends :
      {e : Element} {t : Session} (new : IsNew e) (run : Steps lib sdp (begin e) t)
      → (count run ≤ 6) × (IsOver t ⊎ ((u : Session) × Step lib sdp t u))
  negotiation_ends {t} new run =
      let v = Steps-Inv new run in
      (omega (arith, Steps-rank new run), no_deadlock t t.process v refl)

  -- Whatever was interleaved, the reply is made of the end of the handler's own promise, and the local
  -- descriptions of the end of the other: at most one, its text. With an SDP that is read, the process
  -- runs exactly as long as that other promise has not ended badly and the handler has not followed a
  -- wild pointer, which it does only in place of a reply.
  pub negotiation_outcome :
      {e : Element} {t : Session}
      → IsNew e
      → Steps lib sdp (begin e) t
      → lib.parse_sdp sdp ≡ true
      → (t.reply ≡ reply_of lib t.phase t.own_promise)
        × (t.element.local_descriptions ≡ local_of t.element.answer_promise)
        × (t.process ≡ first_end (process_of t.element.answer_promise) (process_of_reply t.reply))
  negotiation_outcome new run good = ground (arith, Steps-Inv new run)
