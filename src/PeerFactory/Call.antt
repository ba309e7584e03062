-- ===== src/PeerFactory/Call.antt =====
-- CreatePeerConnection (libwebrtc/PcFactory.cpp, lines 89 to 208) with the two threads of its wait: the
-- answer of the wait is the end to which the threads come.
use webrtc_echoes.Base.{◌≡◌, subst, ◌⊎◌, inl, inr, Bool, true, false, arith, length, ℤ, Bytes}
use webrtc_echoes.PeerFactory.Factory.{Factory}
use webrtc_echoes.PeerFactory.Create.{Library, returned, create_peer_connection}
use webrtc_echoes.PeerFactory.Create.Answers.{
  IsErrorText, IsGenuine, create_peer_connection-IsGenuine,
}
use webrtc_echoes.PeerFactory.Wait.{Threads, Caller, Reach, answered, finished}
use webrtc_echoes.PeerFactory.Wait.Invariant.{Inv, Reach-Inv}
use webrtc_echoes.PeerFactory.Wait.Outcomes.{answered_safe}

-- Whether the caller went on with isReady seen.
abbrev pub is_completed : Caller → Bool
is_completed answered = true
is_completed _ = false

is_completed-answered : (c : Caller) → is_completed c ≡ true → c ≡ answered
is_completed-answered c e = ground arith

-- The threads have done with the frame of the call.
abbrev pub IsSettled : Threads → Type 0
IsSettled t =
    (t.caller ≡ answered) × (t.signaller ≡ finished) × (t.frame_live ≡ false) × (t.faulted ≡ false)

answered-IsSettled : {t : Threads} → Reach t → t.caller ≡ answered → IsSettled t
answered-IsSettled r e =
    let v : Inv _ = Reach-Inv r in
    let (done, ready, sound) = answered_safe r e in (e, done, ground (arith, v), sound)

module _ {Json : Type 0} where
  abbrev pub waited : Library Json → Threads → Library Json
  waited lib t = record lib { ready_in_time = is_completed t.caller }

  genuine-IsSettled :
      (lib : Library Json) (buffer : Bytes) (length : ℤ) {t : Threads} (text : Bytes)
      → Reach t
      → IsGenuine (waited lib t) buffer length (returned text)
      → IsErrorText text ⊎ IsSettled t
  genuine-IsSettled lib buffer length text r (inl e) = inl e
  genuine-IsSettled lib buffer length {t} text r (inr (offer, remote, sdp, p, s, k, ready, l, d)) =
      inr (answered-IsSettled r (is_completed-answered t.caller ready))

  -- Whatever the libraries answer, and to whatever end the threads come: a text other than the three
  -- error texts is returned only where the call saw isReady, the signalling thread has done with the
  -- frame, and there was no fault.
  pub create_peer_connection-IsSettled :
      (lib : Library Json) (buffer : Bytes) (length : ℤ) (f : Factory) {t : Threads} (text : Bytes)
      → Reach t
      → (create_peer_connection (waited lib t) buffer length f).0 ≡ returned text
      → IsErrorText text ⊎ IsSettled t
  create_peer_connection-IsSettled lib buffer length f {t} text r e =
      genuine-IsSettled lib buffer length text r (
        subst (IsGenuine (waited lib t) buffer length) e
          (create_peer_connection-IsGenuine (waited lib t) buffer length f))
