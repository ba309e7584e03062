-- ===== src/DataChannel/Echo.antt =====
-- The data channel test with the server of this repository at its other end.
use webrtc_echoes.Base.{
  ℕ, ◌≡◌, refl, true, false, Option, List, [], ◌∷◌, ◌==◌, if◌then◌else◌, ℤ, pos, Bytes, eqb_iff,
}
use webrtc_echoes.DataChannel.Client.Promise.{Error}
use webrtc_echoes.DataChannel.Client.Session.{Message, text, message, channel_open, session}
use webrtc_echoes.DataChannel.Client.Verdict.{session-passes}
use webrtc_echoes.DataChannel.Server.{Library, new_connection}
use webrtc_echoes.DataChannel.Server
use webrtc_echoes.DataChannel.Client.Session
use webrtc_echoes.DataChannel.Server.Echoing.{channel_echoed, run-Echoes}

-- The messages of one channel.
abbrev pub on_channel : ℕ → List (ℕ × Message) → List Message
on_channel channel [] = []
on_channel channel ((k, m) ∷ ms) =
    let rest = on_channel channel ms in if k == channel then m ∷ rest else rest

abbrev pub arriving : List Message → List Session.Event
arriving [] = []
arriving (m ∷ ms) = message m ∷ arriving ms

-- The client opens its channel, sends its text, and receives what the server sends on the channel.
abbrev pub echo_session : Library → ℕ → Bytes → Bytes → List Server.Event → Option Error × ℤ
echo_session lib channel random_text path es =
    session true random_text path
      (channel_open ∷ arriving (on_channel channel (Server.run lib es new_connection).channel_sent))

-- Where the client's text is the first message that the server sends back on its channel, amid any
-- traffic on other channels and tracks, the server's echo makes the client exit with 0.
pub echo_session_passes :
    (lib : Library) (channel : ℕ) (random_text path : Bytes) (es : List Server.Event)
    (later : List Message)
    → on_channel channel (channel_echoed lib false es) ≡ text random_text ∷ later
    → (echo_session lib channel random_text path es).1 ≡ pos 0
echo_session_passes lib channel random_text path es later h =
    let echoed : (Server.run lib es new_connection).channel_sent ≡ channel_echoed lib false es =
      (run-Echoes lib es new_connection).channels in
    rw (echoed, h, session-passes, (eqb_iff random_text random_text).1 refl)
