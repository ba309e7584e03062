-- ===== src/PeerFactory/Create/Answers.antt =====
-- What the text that PcFactory::CreatePeerConnection returns says of the call.
use webrtc_echoes.Base.{
  ℕ, ◌≡◌, refl, ◌⊎◌, inl, inr, true, Option, none, some, [], ◌∷◌, unless_either, ℤ, Bytes, codes,
}
use webrtc_echoes.PeerFactory.Factory.{Factory}
use webrtc_echoes.PeerFactory.Create.{
  Library, Answer, returned, thrown, returned_or_thrown, offer_text, parse_offer, answer_from,
  negotiate, create_from, add_connection, create_peer_connection, crashed,
}

abbrev pub IsErrorText : Bytes → Type 0
IsErrorText text =
    (text ≡ codes "error") ⊎ ((text ≡ []) ⊎ (text ≡ codes "Failed to set local description."))

module _ {Json : Type 0} (lib : Library Json) (buffer : Bytes) (length : ℤ) where
  -- A text that is no error text is the library's JSON of the connection's local description, and
  -- the offer was JSON with an SDP that the library reads, for which isReady was seen in time.
  abbrev pub IsGenuine : Answer → Type 0
  IsGenuine thrown = Unit {0}
  IsGenuine crashed = Unit {0}
  IsGenuine (returned text) =
      IsErrorText text
      ⊎ ((offer : Json) × (remote : Bytes) × (sdp : Bytes) × (parse_offer lib
              (offer_text buffer length)
            ≡ some offer)
          × (lib.sdp_of offer ≡ some remote)
          × (lib.parse_sdp remote ≡ true)
          × (lib.ready_in_time ≡ true)
          × (lib.local_description ≡ some sdp)
          × (lib.dump ((codes "type", codes "answer") ∷ (codes "sdp", sdp) ∷ []) ≡ some text))

  answer_from-IsGenuine :
      (offer : Json) (remote : Bytes) (local : Option Bytes)
      → parse_offer lib (offer_text buffer length) ≡ some offer
      → lib.sdp_of offer ≡ some remote
      → lib.parse_sdp remote ≡ true
      → lib.ready_in_time ≡ true
      → lib.local_description ≡ local
      → IsGenuine (answer_from lib.dump local)
  unfolding answer_from
  answer_from-IsGenuine offer remote none p s r t l = inl (inr (inr refl))
  answer_from-IsGenuine offer remote (some sdp) p s r t l =
      dumped (lib.dump ((codes "type", codes "answer") ∷ (codes "sdp", sdp) ∷ [])) refl
    where
      dumped :
          (text : Option Bytes)
          → lib.dump ((codes "type", codes "answer") ∷ (codes "sdp", sdp) ∷ []) ≡ text
          → IsGenuine (returned_or_thrown text)
      dumped none d = tt
      dumped (some text) d = inr (offer, remote, sdp, p, s, r, t, l, d)

  negotiate-IsGenuine :
      (offer : Json) (remote : Option Bytes)
      → parse_offer lib (offer_text buffer length) ≡ some offer
      → lib.sdp_of offer ≡ remote
      → IsGenuine (negotiate lib remote)
  unfolding negotiate
  negotiate-IsGenuine offer none p s = tt
  negotiate-IsGenuine offer (some remote) p s =
      unless_either IsGenuine (lib.parse_sdp remote) (λ r. inl (inl refl))
        (λ r.
          unless_either IsGenuine lib.ready_in_time (λ t. inl (inr (inl refl)))
            (λ t. answer_from-IsGenuine offer remote lib.local_description p s r t refl))

  add_connection-IsGenuine :
      (offer : Json) (pc : Option ℕ) (f : Factory)
      → parse_offer lib (offer_text buffer length) ≡ some offer
      → IsGenuine (add_connection lib offer pc f).0
  unfolding add_connection
  add_connection-IsGenuine offer none f p = inl (inl refl)
  add_connection-IsGenuine offer (some pc) f p =
      unless_either (λ (h : Answer × Factory). IsGenuine h.0) lib.audio_track (λ t. inl (inl refl))
        (λ t.
          unless_either (λ (h : Answer × Factory). IsGenuine h.0) lib.add_track
            (λ a. inl (inl refl)) (λ a. negotiate-IsGenuine offer (lib.sdp_of offer) p refl))

  create_from-IsGenuine :
      (offer : Option Json) (f : Factory)
      → parse_offer lib (offer_text buffer length) ≡ offer
      → IsGenuine (create_from lib offer f).0
  unfolding create_from
  create_from-IsGenuine none f p = tt
  create_from-IsGenuine (some offer) f p =
      unless_either (λ (h : Answer × Factory). IsGenuine h.0) f.has_factory (λ n. tt)
        (λ n. add_connection-IsGenuine offer lib.new_connection f p)

  -- CreatePeerConnection throws or follows a null pointer, or returns one of its three error texts,
  -- or returns the JSON of the connection's local description; the last only for an offer that is
  -- JSON with an SDP that the library reads, and once isReady was seen in time.
  pub create_peer_connection-IsGenuine :
      (f : Factory) → IsGenuine (create_peer_connection lib buffer length f).0
  unfolding create_peer_connection
  create_peer_connection-IsGenuine f =
      create_from-IsGenuine (parse_offer lib (offer_text buffer length)) f refl
