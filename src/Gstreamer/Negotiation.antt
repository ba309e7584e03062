-- ===== src/Gstreamer/Negotiation.antt =====
-- One request of the GStreamer server from the call of set_offer on
-- (gstreamer/gstreamer-webrtc-echo.c, lines 205 to 246 and 340 to 403), as steps that interleave: those
-- of the handler, and those of the library, which ends each pending promise once, in any order and with
-- any result, and runs the promise's change function when it does.
pub mod Invariant
pub mod Outcomes
use webrtc_echoes.Base.{◌≡◌, Option, none, some, Bytes}
use webrtc_echoes.Gstreamer.Pipeline.{
  Element, Assertion, holds, aborts, undefined, PromiseResult, PromiseState, unmade, pending, ended,
  set_offer, on_offer_set, on_answer_created,
}
use webrtc_echoes.Gstreamer.Handler.{
  Library, Handled, replied_with, aborted, crash, Object, offer_description, offer_print,
  offer_json, request_copy, response, reply_to_promise, for_an_offer,
}

-- The handler is about to call set_offer, about to ask for an answer of its own, waiting for it, or
-- done.
pub data Phase : Type 0 where
  offering asking waiting done : Phase

-- A failed assertion ends the process; a wild pointer leaves nothing to say of it.
pub data Process : Type 0 where
  running stopped lost : Process

-- `own_promise` is the promise of the answer that the handler itself asks for.
pub record Session : Type 0 where
  pub process : Process
  pub phase : Phase
  pub own_promise : PromiseState
  pub element : Element
  pub reply : Option Handled

abbrev pub begin : Element → Session
begin e = record {
  process = running;
  phase = offering;
  own_promise = unmade;
  element = e;
  reply = none;
}

-- What an operation on the element makes of the session.
abbrev pub settle : Assertion Element → Session → Session
settle (holds e) s = record s { element = e }
settle aborts s = record s { process = stopped }
settle undefined s = record s { process = lost }

-- The element once the library has ended a promise of it.
abbrev pub end_offer_promise : PromiseResult → Element → Element
end_offer_promise result e = record e { offer_promise = ended result none }

abbrev pub end_answer_promise : PromiseResult → Option Bytes → Element → Element
end_answer_promise result answer e = record e { answer_promise = ended result answer }

-- The handler's wait, with the end of its own promise as the library's answer.
unfoldable pub finish : {Json : Type 0} → Library Json → PromiseResult → Option Bytes → Handled
unfolding reply_to_promise
finish lib result answer =
    reply_to_promise (record lib { answer_result = result; answer = answer }) for_an_offer

-- The process that the handler leaves with its reply.
abbrev pub process_after : Handled → Process
process_after (replied_with r left) = running
process_after aborted = stopped
process_after crash = lost

pub data Step {Json : Type 0} (lib : Library Json) (sdp : Bytes) : Session → Session → Type 0 where
  offer :
      (s : Session)
      → s.process ≡ running
      → s.phase ≡ offering
      → Step lib sdp s
          (settle (set_offer lib.parse_sdp sdp s.element) (record s { phase = asking }))
  ask :
      (s : Session)
      → s.process ≡ running
      → s.phase ≡ asking
      → Step lib sdp s (record s { phase = waiting; own_promise = pending })
  reply_to_client :
      (s : Session) (result : PromiseResult) (answer : Option Bytes)
      → s.process ≡ running
      → s.phase ≡ waiting
      → s.own_promise ≡ ended result answer
      → Step lib sdp s (record s {
        phase = done;
        reply = some (finish lib result answer);
        process = process_after (finish lib result answer);
      })
  end_own :
      (s : Session) (result : PromiseResult) (answer : Option Bytes)
      → s.process ≡ running
      → s.own_promise ≡ pending
      → Step lib sdp s (record s { own_promise = ended result answer })
  end_offer :
      (s : Session) (result : PromiseResult)
      → s.process ≡ running
      → s.element.offer_promise ≡ pending
      → Step lib sdp s (record s { element = on_offer_set (end_offer_promise result s.element) })
  end_answer :
      (s : Session) (result : PromiseResult) (answer : Option Bytes)
      → s.process ≡ running
      → s.element.answer_promise ≡ pending
      → Step lib sdp s (
          settle
            (on_answer_created result answer (end_answer_promise result answer s.element))
            (record s { element = end_answer_promise result answer s.element }))

pub data Steps {Json : Type 0} (lib : Library Json) (sdp : Bytes) (s : Session)
    : Session → Type 0 where
  here : Steps lib sdp s s
  next : {t u : Session} → Steps lib sdp s t → Step lib sdp t u → Steps lib sdp s u
