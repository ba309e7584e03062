-- ===== src/Gstreamer/Notices.antt =====
-- The callbacks of the WebRTC element that print and do nothing else
-- (gstreamer/gstreamer-webrtc-echo.c, lines 405 to 452).
use webrtc_echoes.Base.{Bool, List, [], ◌∷◌, ◌++◌, if◌then◌else◌, Bytes, codes}

-- The texts are the element's name and the printed numbers of its states; `remote_is_set` says whether
-- the element has a remote description.
pub data Notice : Type 0 where
  negotiation_needed : Bytes → Bytes → Bool → Notice
  ice_candidate new_transceiver : Notice
  ice_gathering_state ice_connection_state : Bytes → Notice

abbrev quoted : Bytes → Bytes
quoted text = codes "'" ++ (text ++ codes "'.")

-- The lines printed.
pub on_notice : Notice → List Bytes
on_notice (negotiation_needed name state remote_is_set) =
    codes "on_negotiation_needed"
    ∷ (codes "The name of the element is " ++ quoted name)
    ∷ (codes "The signaling state of the element is " ++ quoted state)
    ∷ (if remote_is_set
        then codes "Remote description is set."
        else codes "Remote description is not set.")
    ∷ []
on_notice ice_candidate = []
on_notice new_transceiver = codes "on_new_transceiver." ∷ []
on_notice (ice_gathering_state state) =
    (codes "on_ice_gathering_state_notify " ++ quoted state) ∷ []
on_notice (ice_connection_state state) =
    (codes "on_ice_connection_state_notify " ++ quoted state) ∷ []
