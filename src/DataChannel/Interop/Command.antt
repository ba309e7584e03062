-- ===== src/DataChannel/Interop/Command.antt =====
-- The client's main function against the server of this repository, from its command line on.
use webrtc_echoes.Base.{
  ℕ, ◌≡◌, refl, ap, ◌∙◌, true, false, Option, some, List, ◌∷◌, ◌++◌, if◌then◌else◌, pos, negsuc,
  Bytes, codes,
}
use webrtc_echoes.DataChannel.Url.{find_last_of, split_url-append}
use webrtc_echoes.DataChannel.Args.{start, start_from, begins}
use webrtc_echoes.DataChannel.Args.Parsing.{
  Setting, command, IsPositional, AreInts, last_test, last_url, lead_or, start_lem,
}
use webrtc_echoes.DataChannel.Client.Session.{Message, text, Exchange}
use webrtc_echoes.DataChannel.Client.Program.{main, main_from, exit_code_of, test_text}
use webrtc_echoes.DataChannel.Server
use webrtc_echoes.DataChannel.Server.{Library, Response}
use webrtc_echoes.DataChannel.Server.Echoing.{channel_echoed}
use webrtc_echoes.DataChannel.Echo.{on_channel}
use webrtc_echoes.DataChannel.Post.{Transport, IsHttp, offer_path}
use webrtc_echoes.DataChannel.Handshake.{IsReadable, reply_of}
use webrtc_echoes.DataChannel.Interop.{interop_events, opens_channel, comes_through, interop-passes}
use webrtc_echoes.DataChannel.Client.Session

-- A command line that asks for the data channel test at the offer path of an address.
start_channel :
    (lead : Option Bytes) (chosen : List Setting) (address : Bytes)
    → IsPositional lead
    → AreInts chosen
    → last_test (pos 0) chosen ≡ pos 1
    → last_url (lead_or lead) chosen ≡ address ++ offer_path
    → start (command lead chosen) ≡ begins true address offer_path
unfolding start_from find_last_of
start_channel lead chosen address p ints t u =
    start_lem lead chosen p ints ∙ rw (t, u, split_url-append address (codes "offer") refl) refl

module _ (http : Transport (Option Server.Response)) (lib : Library) (x : Exchange)
    (v : IsHttp reply_of http) (r : IsReadable lib x) where
  -- Over HTTP, where each end reads what the other writes, whatever the client meets after its
  -- exchange, but that, where the exchange comes through, its channel opens and the client's text is
  -- the first message that the server sends back on it: a client whose command line, with numbers that
  -- an int holds, settles on the data channel test and on the offer path of any address exits with 0
  -- exactly if the exchange comes through, and with -1 otherwise.
  pub main-interop :
      (lead : Option Bytes) (chosen : List Setting) (address : Bytes) (draw : ℕ → ℕ)
      (offer : Bytes × Bytes) (channel : ℕ) (es : List Server.Event) (later : List Session.Event)
      (others : List Message)
      → IsPositional lead
      → AreInts chosen
      → last_test (pos 0) chosen ≡ pos 1
      → last_url (lead_or lead) chosen ≡ address ++ offer_path
      → x.local ≡ some offer
      → (comes_through lib x offer es ≡ true
          → (later ≡ opens_channel lib x offer channel es)
            × (on_channel channel (channel_echoed lib false es)
                ≡ text (test_text draw true) ∷ others))
      → exit_code_of (main draw (command lead chosen) (interop_events http lib x later es))
        ≡ some (if comes_through lib x offer es then pos 0 else negsuc 0)
  unfolding main main_from
  main-interop lead chosen address draw offer channel es later others p ints t u e h =
      ap (λ s. exit_code_of (main_from draw (interop_events http lib x later es) s))
        (start_channel lead chosen address p ints t u)
      ∙ ap some
          (interop-passes http lib x v r offer channel (test_text draw true) es later others e h)
