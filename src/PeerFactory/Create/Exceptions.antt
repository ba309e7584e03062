-- ===== src/PeerFactory/Create/Exceptions.antt =====
-- When PcFactory::CreatePeerConnection (libwebrtc/PcFactory.cpp, lines 89 to 208) does not return.
use webrtc_echoes.Base.{
  ℕ, ◌≡◌, refl, Bool, true, false, not, ◌&&◌, ◌||◌, Option, none, some, [], ◌∷◌, if◌then◌else◌,
  length, ℤ, Bytes, codes,
}
use webrtc_echoes.PeerFactory.Factory.{Factory}
use webrtc_echoes.PeerFactory.Create.{
  Library, Answer, returned, thrown, returned_or_thrown, offer_text, parse_offer, answer_from,
  negotiate, create_from, add_connection, create_peer_connection, crashed,
}

abbrev pub ends_process : Answer → Bool
ends_process thrown = true
ends_process crashed = true
ends_process (returned text) = false

abbrev pub is_none {ℓ} : {A : Type ℓ} → Option A → Bool
is_none none = true
is_none (some a) = false

module _ {Json : Type 0} (lib : Library Json) where
  -- The local description is there and cannot be printed.
  abbrev fails_to_print : Option Bytes → Bool
  fails_to_print none = false
  fails_to_print (some sdp) =
      is_none (lib.dump ((codes "type", codes "answer") ∷ (codes "sdp", sdp) ∷ []))

  -- The offer has no SDP, or it is read and its answer, which is ready in time, cannot be printed.
  abbrev fails_to_answer : Option Bytes → Bool
  fails_to_answer none = true
  fails_to_answer (some sdp) =
      lib.parse_sdp sdp && (lib.ready_in_time && fails_to_print lib.local_description)

  -- A connection with a track is made, and cannot go on.
  abbrev fails_to_go_on : Option ℕ → Json → Bool
  fails_to_go_on pc offer =
      not (is_none pc) && (lib.audio_track && (lib.add_track && fails_to_answer (lib.sdp_of offer)))

  -- The text is no JSON, or there is no factory, or the connection cannot go on.
  abbrev pub fails : Bool → Option Json → Bool
  fails has_factory none = true
  fails has_factory (some offer) = not has_factory || fails_to_go_on lib.new_connection offer

  ends_process-printed :
      (text : Option Bytes) → ends_process (returned_or_thrown text) ≡ is_none text
  ends_process-printed none = refl
  ends_process-printed (some text) = refl

  ends_process-answer_from :
      (local : Option Bytes) → ends_process (answer_from lib.dump local) ≡ fails_to_print local
  unfolding answer_from
  ends_process-answer_from none = refl
  ends_process-answer_from (some sdp) =
      ends_process-printed (lib.dump ((codes "type", codes "answer") ∷ (codes "sdp", sdp) ∷ []))

  ends_process-unless :
      (b c : Bool) (text : Bytes) (answer : Answer)
      → ends_process answer ≡ c
      → ends_process (if not b then returned text else answer) ≡ (b && c)
  ends_process-unless true c text answer e = e
  ends_process-unless false c text answer e = refl

  ends_process-negotiate :
      (sdp : Option Bytes) → ends_process (negotiate lib sdp) ≡ fails_to_answer sdp
  unfolding negotiate
  ends_process-negotiate none = refl
  ends_process-negotiate (some sdp) =
      ends_process-unless (lib.parse_sdp sdp) _ _ _ (
        ends_process-unless lib.ready_in_time _ _ _
          (ends_process-answer_from lib.local_description))

  ends_process-tracks :
      (audio_track add_track c : Bool) (text : Bytes) (f : Factory) (made : Answer × Factory)
      → ends_process made.0 ≡ c
      → ends_process
          (if not audio_track
            then (returned text, f)
            else if not add_track
            then (returned text, f)
            else made).0
        ≡ (audio_track && (add_track && c))
  ends_process-tracks true true c text f made e = e
  ends_process-tracks true false c text f made e = refl
  ends_process-tracks false b c text f made e = refl

  ends_process-add_connection :
      (offer : Json) (pc : Option ℕ) (f : Factory)
      → ends_process (add_connection lib offer pc f).0 ≡ fails_to_go_on pc offer
  unfolding add_connection
  ends_process-add_connection offer none f = refl
  ends_process-add_connection offer (some pc) f =
      ends_process-tracks lib.audio_track lib.add_track _ (codes "error") f _
        (ends_process-negotiate (lib.sdp_of offer))

  ends_process-factory :
      (has_factory c : Bool) (f : Factory) (made : Answer × Factory)
      → ends_process made.0 ≡ c
      → ends_process (if not has_factory then (crashed, f) else made).0 ≡ (not has_factory || c)
  ends_process-factory true c f made e = e
  ends_process-factory false c f made e = refl

  ends_process-create_from :
      (offer : Option Json) (f : Factory)
      → ends_process (create_from lib offer f).0 ≡ fails f.has_factory offer
  unfolding create_from
  ends_process-create_from none f = refl
  ends_process-create_from (some offer) f =
      ends_process-factory f.has_factory _ f _
        (ends_process-add_connection offer lib.new_connection f)

  -- CreatePeerConnection does not return exactly where the text is no JSON; or where there is no
  -- factory; or where it makes the connection with its track, and then the JSON has no text for the
  -- SDP, or the SDP is read and set in time and the local description cannot be printed.
  pub create_peer_connection-fails :
      (buffer : Bytes) (length : ℤ) (f : Factory)
      → ends_process (create_peer_connection lib buffer length f).0
        ≡ fails f.has_factory (parse_offer lib (offer_text buffer length))
  unfolding create_peer_connection
  create_peer_connection-fails buffer length f =
      ends_process-create_from (parse_offer lib (offer_text buffer length)) f
