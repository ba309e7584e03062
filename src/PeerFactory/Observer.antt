-- ===== src/PeerFactory/Observer.antt =====
-- The observers (libwebrtc/PcObserver.h, lines 28 to 145, and PcObserver.cpp, lines 20 to 56). All
-- but one only write a line of text; CreateSdpObserver reports to the thread that waits.
use webrtc_echoes.Base.{Bool, true, Option, none, some, List, [], ◌∷◌, ◌++◌, Bytes, codes}

pub data Stream : Type 0 where
  out err : Stream

-- Texts of the library: the printed form of a state, an error, a candidate.
pub data Event : Type 0 where
  signaling_change data_channel ice_gathering_change ice_candidate : Bytes → Event
  add_track track : Event
  connection_change : Bytes → Event

pub on_event : Event → Stream × Bytes
on_event (signaling_change state) = (out, codes "OnSignalingChange " ++ (state ++ codes "."))
on_event (data_channel id) = (out, codes "OnDataChannel " ++ (id ++ codes "."))
on_event (ice_gathering_change state) = (out, codes "OnIceGatheringChange " ++ (state ++ codes "."))
on_event (ice_candidate text) = (out, codes "OnIceCandidate " ++ (text ++ codes "."))
on_event add_track = (out, codes "OnAddTrack.")
on_event track = (out, codes "OnTrack.")
on_event (connection_change state) = (out, codes "OnConnectionChange to " ++ (state ++ codes "."))

-- An RTCError: none where it is ok, else its message.
abbrev pub RtcError : Type 0
RtcError = Option Bytes

abbrev bool_text : RtcError → Bytes
bool_text none = codes "true"
bool_text (some message) = codes "false"

pub on_set_remote_description_complete : RtcError → Stream × Bytes
on_set_remote_description_complete error =
    (out, codes "OnSetRemoteDescriptionComplete ok ? " ++ (bool_text error ++ codes "."))

-- The observers of the older interface, which nothing in the program creates.
pub data Session : Type 0 where
  set_remote set_local create_answer : Session

abbrev session_name : Session → Bytes
session_name set_remote = codes "SetRemoteDescriptionObserver"
session_name set_local = codes "SetLocalDescriptionObserver"
session_name create_answer = codes "CreateAnswerObserver"

-- OnSuccess and OnFailure of the three.
pub on_session_complete : Session → RtcError → Stream × Bytes
on_session_complete observer none = (out, session_name observer ++ codes "::OnSuccess")
on_session_complete observer (some message) =
    (err, session_name observer ++ (codes "::OnFailure: " ++ message))

-- What CreateSdpObserver shares with the waiting thread, by reference.
pub record Shared : Type 0 where
  pub is_ready : Bool
  pub notified : Bool

-- OnSetLocalDescriptionComplete: an error is printed, and the waiting thread is told all the same.
pub on_set_local_description_complete : RtcError → Shared → List (Stream × Bytes) × Shared
on_set_local_description_complete none s = (
  (out, codes "OnSetLocalDescriptionComplete.") ∷ [],
  record s { is_ready = true; notified = true },
)
on_set_local_description_complete (some message) s = (
  (out, codes "OnSetLocalDescriptionComplete.")
      ∷ (err, codes "OnSetLocalDescription error. " ++ message)
      ∷ [],
  record s { is_ready = true; notified = true },
)
