-- ===== src/PeerFactory/Create.antt =====
-- PcFactory::CreatePeerConnection (libwebrtc/PcFactory.cpp, lines 89 to 208).
pub mod Results
pub mod Answers
pub mod Exceptions
use webrtc_echoes.Base.{
  ℕ, Bool, not, Option, none, some, List, [], ◌∷◌, ◌++◌, if◌then◌else◌, length, set, take, ℤ, pos,
  negsuc, Bytes, codes,
}
use webrtc_echoes.PeerFactory.Factory.{Factory}

-- What the WebRTC library, the JSON library and the signalling thread answer during one call.
-- `parse` and `sdp_of` are none where nlohmann::json throws: on a text that is no JSON, and on a value
-- whose member "sdp" is no string. `dump` is none where it throws on text that is no UTF-8.
-- `ready_in_time` says whether isReady was seen true, at once or within the three seconds of the
-- wait; the threads behind it are in the module Wait.
pub record Library (Json : Type 0) : Type 0 where
  pub parse : Bytes → Option Json
  pub sdp_of : Json → Option Bytes
  pub new_connection : Option ℕ
  pub audio_track : Bool
  pub add_track : Bool
  pub parse_sdp : Bytes → Bool
  pub ready_in_time : Bool
  pub local_description : Option Bytes
  pub dump : List (Bytes × Bytes) → Option Bytes

-- A call returns a text, throws, or follows a null pointer.
pub data Answer : Type 0 where
  returned : Bytes → Answer
  thrown crashed : Answer

abbrev pub returned_or_thrown : Option Bytes → Answer
returned_or_thrown none = thrown
returned_or_thrown (some text) = returned text

-- std::string(buffer, length) with an int: a negative length becomes a huge size_t and throws.
abbrev pub offer_text : Bytes → ℤ → Option Bytes
offer_text buffer (pos n) = some (take n buffer)
offer_text buffer (negsuc n) = none

-- From the end of a wait that saw isReady.
unfoldable pub answer_from : (List (Bytes × Bytes) → Option Bytes) → Option Bytes → Answer
answer_from dump none = returned (codes "Failed to set local description.")
answer_from dump (some sdp) =
    returned_or_thrown (dump ((codes "type", codes "answer") ∷ (codes "sdp", sdp) ∷ []))

module _ {Json : Type 0} where
  -- From the parsed offer on.
  unfoldable pub negotiate : Library Json → Option Bytes → Answer
  unfolding answer_from
  negotiate lib none = thrown
  negotiate lib (some sdp) =
      if not (lib.parse_sdp sdp)
      then returned (codes "error")
      else if not lib.ready_in_time
      then returned []
      else answer_from lib.dump lib.local_description

  -- From the new peer connection on. It is stored before the offer is looked at.
  unfoldable pub add_connection : Library Json → Json → Option ℕ → Factory → Answer × Factory
  unfolding negotiate
  add_connection lib offer none f = (returned (codes "error"), f)
  add_connection lib offer (some pc) f =
      if not lib.audio_track
      then (returned (codes "error"), f)
      else if not lib.add_track
      then (returned (codes "error"), f)
      else (
        negotiate lib (lib.sdp_of offer),
        record f { peer_connections = f.peer_connections ++ pc ∷ [] },
      )

  unfoldable pub create_from : Library Json → Option Json → Factory → Answer × Factory
  unfolding add_connection
  create_from lib none f = (thrown, f)
  create_from lib (some offer) f =
      if not f.has_factory then (crashed, f) else add_connection lib offer lib.new_connection f

  abbrev pub parse_offer : Library Json → Option Bytes → Option Json
  parse_offer lib none = none
  parse_offer lib (some text) = lib.parse text

  unfoldable pub create_peer_connection : Library Json → Bytes → ℤ → Factory → Answer × Factory
  unfolding create_from
  create_peer_connection lib buffer length f =
      create_from lib (parse_offer lib (offer_text buffer length)) f
