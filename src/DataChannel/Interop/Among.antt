-- ===== src/DataChannel/Interop/Among.antt =====
-- The client's main function against the server of this repository, among other clients.
use webrtc_echoes.Base.{
  ℕ, ◌≡◌, ap, ◌∙◌, false, Option, none, some, List, [], ◌∷◌, ◌++◌, get_elem?, any, Bytes,
}
use webrtc_echoes.DataChannel.Client.Session.{Message, Exchange, channel_open}
use webrtc_echoes.DataChannel.Client.Session
use webrtc_echoes.DataChannel.Server.{Library, Response}
use webrtc_echoes.DataChannel.Server.Responses.{response_of}
use webrtc_echoes.DataChannel.Server.Program.{Happening, arrives, Request, serve, defined}
use webrtc_echoes.DataChannel.Server.Program.Alone.{own, alone, sessions}
use webrtc_echoes.DataChannel.Server.Program.Position.{arrivals, request_at, is_late, defined-serve}
use webrtc_echoes.DataChannel.Echo.{on_channel, arriving}
use webrtc_echoes.DataChannel.Post.{Transport, posting}
use webrtc_echoes.DataChannel.Handshake.{joined}
use webrtc_echoes.DataChannel.Interop.{sent_by}

-- The server's run in which this client's request comes after and before others.
abbrev among : List Happening → Library → List Happening → Bytes → List Request
among before lib after body = serve (before ++ arrives lib body ∷ after) []

abbrev response_at : Option Request → Option Response
response_at none = none
response_at (some r) = response_of r.handling

abbrev sent_at : Option Request → List (ℕ × Message)
sent_at none = []
sent_at (some r) = sent_by r.handling

abbrev number : ℕ → Option (List Request) → Option Request
number i none = none
number i (some rs) = get_elem? rs i

-- No gathering of any request completes after its handler has returned.
abbrev pub NoneLate : List Happening → Library → List Happening → Type 0
NoneLate before lib after =
    (body : Bytes) → any is_late (sessions 0 (before ++ arrives lib body ∷ after)) ≡ false

module _ (http : Transport (Option Response)) (before : List Happening) (lib : Library)
    (after : List Happening) (x : Exchange) where
  -- This client's request, given what it posts, in a run of which there is something to say.
  abbrev mine : Bytes → Option Request
  mine body = number (arrivals before) (defined (among before lib after body))

  mine-own :
      (body : Bytes)
      → NoneLate before lib after
      → mine body
        ≡ some (alone (record { library = lib; body = body; events = own (arrivals before) after }))
  mine-own body h =
      ap (number (arrivals before)) (defined-serve (before ++ arrives lib body ∷ after) (h body))
      ∙ request_at before after lib body

  -- The client's POST to the server.
  abbrev pub posting_among : Exchange
  posting_among = posting http (λ body. response_at (mine body)) x

  pub posting_among-joined :
      NoneLate before lib after → posting_among ≡ joined http lib (own (arrivals before) after) x
  posting_among-joined h i = posting http (λ body. response_at (mine-own body h i)) x

  -- After an exchange that came to its end the client opens its channel and receives what the server
  -- sends on the connection of its request.
  abbrev pub opens_among : Bytes × Bytes → ℕ → List Session.Event
  opens_among offer channel =
      channel_open ∷ arriving (on_channel channel (sent_at (mine (x.dump offer.0 offer.1))))
