-- ===== src/Gstreamer/Pipeline.antt =====
-- The WebRTC element of the GStreamer server, and the callbacks on it
-- (gstreamer/gstreamer-webrtc-echo.c, lines 265 to 498).
pub mod Release
use webrtc_echoes.Base.{
  ℕ, ◌+◌, Bool, true, false, not, Option, none, some, List, [], ◌∷◌, ◌++◌, if◌then◌else◌, Bytes,
  codes,
}

pub data Signal : Type 0 where
  on_negotiation_needed on_ice_candidate on_new_transceiver : Signal
  notify_on_new_transceiver notify_ice_gathering_state notify_ice_connection_state : Signal
  notify_connection_state : Signal

-- How a promise of GStreamer ends.
pub data PromiseResult : Type 0 where
  interrupted replied expired : PromiseResult

-- A promise that is made is pending until the library ends it; the text is that of its reply's field
-- "answer", if it has one.
pub data PromiseState : Type 0 where
  unmade pending : PromiseState
  ended : PromiseResult → Option Bytes → PromiseState

-- The pipeline with its webrtcbin element. `playing` says whether the webrtcbin element plays: it does
-- with the pipeline, until it is set to the null state. The program takes one reference to each of the
-- two; `pipeline_unrefs` and `webrtcbin_unrefs` are how often it has given back each.
pub record Element : Type 0 where
  pub signals : List Signal
  pub offer_promise : PromiseState
  pub answer_promise : PromiseState
  pub playing : Bool
  pub watched : Bool
  pub pipeline_unrefs : ℕ
  pub webrtcbin_unrefs : ℕ
  pub local_descriptions : List Bytes

-- Whether gst_parse_launch succeeds, and whether the pipeline can be set to play.
pub record Launch : Type 0 where
  pub launches : Bool
  pub plays : Bool

abbrev pub connected : Element
connected = record {
  signals =
      on_negotiation_needed ∷ on_ice_candidate ∷ on_new_transceiver ∷ notify_on_new_transceiver
      ∷ notify_ice_gathering_state ∷ notify_ice_connection_state ∷ notify_connection_state ∷ [];
  offer_promise = unmade;
  answer_promise = unmade;
  playing = false;
  watched = false;
  pipeline_unrefs = 0;
  webrtcbin_unrefs = 0;
  local_descriptions = [];
}

unfoldable pub create_webrtc : Launch → Option Element
create_webrtc l =
    if not l.launches
    then none
    else if not l.plays
    then none
    else some (record connected { playing = true; watched = true })

-- g_assert_cmphex ends the process. What follows the use of a variable without a value is undefined.
pub data Assertion (A : Type 0) : Type 0 where
  holds : A → Assertion A
  aborts undefined : Assertion A

abbrev pub is_replied : PromiseResult → Bool
is_replied replied = true
is_replied _ = false

-- The signal that sets the remote description is emitted with the promise whose change function is
-- on_offer_set.
unfoldable pub set_offer : (Bytes → Bool) → Bytes → Element → Assertion Element
set_offer parse_sdp sdp e =
    if not (parse_sdp sdp) then aborts else holds (record e { offer_promise = pending })

-- Runs when the promise of set_offer ends in any way, and asks for an answer with the promise whose
-- change function is on_answer_created.
unfoldable pub on_offer_set : Element → Element
on_offer_set e = record e { answer_promise = pending }

-- `answer` has no initial value, and is used without a test.
unfoldable pub set_local : Option Bytes → Element → Assertion Element
set_local none e = undefined
set_local (some text) e =
    holds (record e { local_descriptions = e.local_descriptions ++ text ∷ [] })

-- Runs when that promise ends.
unfoldable pub on_answer_created : PromiseResult → Option Bytes → Element → Assertion Element
unfolding set_local
on_answer_created result answer e = if not (is_replied result) then aborts else set_local answer e

pub data ConnectionState : Type 0 where
  new_state connecting connected_state disconnected failed closed : ConnectionState

abbrev pub is_failed : ConnectionState → Bool
is_failed failed = true
is_failed _ = false

pub on_connection_state_notify : ConnectionState → Element → Element
on_connection_state_notify state e =
    if is_failed state
    then record e { playing = false; webrtcbin_unrefs = e.webrtcbin_unrefs + 1 }
    else e

-- The messages of the pipeline's bus. The callback keeps its watch whatever comes.
pub data BusMessage : Type 0 where
  end_of_stream other : BusMessage
  error_message : Bytes → BusMessage

pub bus_call : BusMessage → List Bytes × Bool
bus_call end_of_stream = (codes "End of stream" ∷ [], true)
bus_call (error_message message) = ((codes "Error: " ++ message) ∷ [], true)
bus_call other = ([], true)
