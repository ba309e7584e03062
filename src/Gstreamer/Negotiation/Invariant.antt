-- ===== src/Gstreamer/Negotiation/Invariant.antt =====
-- What holds of a request whenever its steps are interleaved.
use webrtc_echoes.Base.{
  ◌≡◌, Bool, true, false, not, ◌&&◌, ◌||◌, Option, none, some, List, [], ◌∷◌, arith, if◌then◌else◌,
  Bytes,
}
use webrtc_echoes.Gstreamer.Pipeline.{
  interrupted, expired, replied, PromiseState, unmade, ended, set_offer, on_offer_set,
  on_answer_created, set_local, Element,
}
use webrtc_echoes.Gstreamer.Handler.{Library, Handled}
use webrtc_echoes.Gstreamer.Negotiation.{
  Phase, offering, asking, done, Process, running, stopped, lost, Session, finish, process_after,
  Step, offer, ask, reply_to_client, end_own, end_offer, end_answer, begin, Steps, here, next,
}

-- What an ended promise of on_offer_set has made of the local descriptions.
abbrev pub local_of : PromiseState → List Bytes
local_of (ended replied (some text)) = text ∷ []
local_of _ = []

-- The process that goes with an ended promise of on_offer_set.
abbrev pub process_of : PromiseState → Process
process_of (ended replied (some text)) = running
process_of (ended replied none) = lost
process_of (ended interrupted answer) = stopped
process_of (ended expired answer) = stopped
process_of _ = running

-- The process that goes with a reply, or with none.
abbrev pub process_of_reply : Option Handled → Process
process_of_reply none = running
process_of_reply (some h) = process_after h

-- The first of two ends of the process.
abbrev pub first_end : Process → Process → Process
first_end running p = p
first_end stopped p = stopped
first_end lost p = lost

abbrev pub is_unmade : PromiseState → Bool
is_unmade unmade = true
is_unmade _ = false

abbrev pub has_ended : PromiseState → Bool
has_ended (ended result answer) = true
has_ended _ = false

abbrev pub has_asked : Phase → Bool
has_asked offering = false
has_asked asking = false
has_asked _ = true

abbrev pub is_offering : Phase → Bool
is_offering offering = true
is_offering _ = false

-- The reply of a handler that is done, by the end of its own promise.
abbrev pub reply_of : {Json : Type 0} → Library Json → Phase → PromiseState → Option Handled
reply_of lib done (ended result answer) = some (finish lib result answer)
reply_of lib _ _ = none

abbrev pub is_done : Phase → Bool
is_done done = true
is_done _ = false

pub record Inv {Json : Type 0} (lib : Library Json) (sdp : Bytes) (s : Session) : Type 0 where
  pub local : s.element.local_descriptions ≡ local_of s.element.answer_promise
  pub process_by_answer : s.process ≡ (
      if not (is_offering s.phase) && not (lib.parse_sdp sdp)
      then stopped
      else first_end (process_of s.element.answer_promise) (process_of_reply s.reply))
  pub own_made : is_unmade s.own_promise ≡ not (has_asked s.phase)
  pub own_ended : is_done s.phase ≡ true → has_ended s.own_promise ≡ true
  pub offer_made :
      is_unmade s.element.offer_promise ≡ (is_offering s.phase || not (lib.parse_sdp sdp))
  pub answer_made : is_unmade s.element.answer_promise ≡ not (has_ended s.element.offer_promise)
  pub replied_by_own : s.reply ≡ reply_of lib s.phase s.own_promise

pub Step-Inv :
    {Json : Type 0} {lib : Library Json} {sdp : Bytes} {s t : Session}
    → Step lib sdp s t
    → Inv lib sdp s
    → Inv lib sdp t
unfolding set_offer on_offer_set on_answer_created set_local
Step-Inv (offer s r p) v = ground arith
Step-Inv (ask s r p) v = ground arith
Step-Inv (reply_to_client s result answer r p o) v = ground arith
Step-Inv (end_own s result answer r o) v = ground arith
Step-Inv (end_offer s result r o) v = ground arith
Step-Inv (end_answer s result none r o) v = ground arith
Step-Inv (end_answer s result (some text) r o) v = ground arith

-- A request begins with an element on which nothing was asked.
abbrev pub IsNew : Element → Type 0
IsNew e = (e.offer_promise ≡ unmade) × (e.answer_promise ≡ unmade) × (e.local_descriptions ≡ [])

module _ {Json : Type 0} {lib : Library Json} {sdp : Bytes} where
  begin-Inv : (e : Element) → IsNew e → Inv lib sdp (begin e)
  begin-Inv e h = ground arith

  pub Steps-Inv : {e : Element} {t : Session} → IsNew e → Steps lib sdp (begin e) t → Inv lib sdp t
  Steps-Inv {e} h here = begin-Inv e h
  Steps-Inv h (next run st) = Step-Inv st (Steps-Inv h run)
