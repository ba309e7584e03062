-- ===== src/DataChannel/Interop.antt =====
-- The whole data channel test of the libdatachannel client against the server of this repository: the
-- offer and its answer, the channel, and the echo.
pub mod Command
pub mod Among
use webrtc_echoes.Base.{
  ℕ, ◌≡◌, refl, ap, subst, ◌∙◌, inl, inr, Bool, true, false, ◌&&◌, Option, none, some, List, [],
  ◌∷◌, arith, if◌then◌else◌, Bool-cases, pos, negsuc, Bytes, eqb_iff,
}
use webrtc_echoes.DataChannel.Client.Promise.{Error, bad_status}
use webrtc_echoes.DataChannel.Client.Session.{
  Message, text, message, channel_open, session, Exchange, Outcome, ok, throws, exchange,
}
use webrtc_echoes.DataChannel.Client.Session
use webrtc_echoes.DataChannel.Client.Verdict.{is_ok, passes, session-passes}
use webrtc_echoes.DataChannel.Server
use webrtc_echoes.DataChannel.Server.{
  Library, Handling, responded, refused, waiting, new_connection, post_offer, Response,
}
use webrtc_echoes.DataChannel.Server.Responses.{is_accepted}
use webrtc_echoes.DataChannel.Server.Echoing.{
  channel_echoed, HandlingEchoes, post_offer-HandlingEchoes,
}
use webrtc_echoes.DataChannel.Echo.{on_channel, arriving}
use webrtc_echoes.DataChannel.Post.{Transport, IsHttp, offer_path}
use webrtc_echoes.DataChannel.Handshake.{
  IsReadable, reply_of, joined, met, first_local, exchange-joined,
}

-- What the server sends on the channels of the connection that a request made.
abbrev pub sent_by : Handling → List (ℕ × Message)
sent_by (responded r d) = d.channel_sent
sent_by (refused r) = []
sent_by (waiting d) = d.channel_sent

sent_by-HandlingEchoes :
    (lib : Library) (es : List Server.Event) (h : Handling)
    → HandlingEchoes lib true new_connection es h
    → sent_by h ≡ channel_echoed lib false es
sent_by-HandlingEchoes lib es (responded r d) k = k.channels
sent_by-HandlingEchoes lib es (refused r) k = absurd (cc)
sent_by-HandlingEchoes lib es (waiting d) k = k.channels

-- The client posts its offer once gathering is complete; then come other events.
abbrev pub interop_events :
    Transport (Option Server.Response)
    → Library
    → Exchange
    → List Session.Event
    → List Server.Event
    → List Session.Event
interop_events http lib x later es = Session.gathering_complete (joined http lib es x) ∷ later

-- After an exchange that came to its end the client opens its channel and receives what the server
-- sends on it.
abbrev pub opens_channel :
    Library → Exchange → Bytes × Bytes → ℕ → List Server.Event → List Session.Event
opens_channel lib x offer channel es =
    channel_open
    ∷ arriving (on_channel channel (sent_by (post_offer lib (x.dump offer.0 offer.1) es)))

-- The exchange comes to its end.
abbrev pub comes_through : Library → Exchange → Bytes × Bytes → List Server.Event → Bool
comes_through lib x offer es = lib.set_remote offer && is_ok (met x (first_local es))

pub decided_if :
    (b rest : Bool)
    → (elim (if b then none else some false) [ none ↦ rest | some verdict ↦ verdict ])
      ≡ (if b then rest else false)
decided_if true rest = refl
decided_if false rest = refl

passes-gathered :
    (random_text path : Bytes) (y : Exchange) (events : List Session.Event)
    → passes true random_text path (Session.gathering_complete y ∷ events)
      ≡ (if is_ok (exchange path y) then passes true random_text path events else false)
passes-gathered random_text path y events =
    decided_if (is_ok (exchange path y)) (passes true random_text path events)

passes_echoed :
    (random_text path : Bytes) (ms later : List Message)
    → ms ≡ text random_text ∷ later
    → passes true random_text path (arriving ms) ≡ true
passes_echoed random_text path ms later e = rw (e, (eqb_iff random_text random_text).1 refl) refl

module _ (http : Transport (Option Server.Response)) (lib : Library) (x : Exchange)
    (v : IsHttp reply_of http) (r : IsReadable lib x) where
  -- What an accepted offer's connection sends.
  sent_by_accepted :
      (offer : Bytes × Bytes) (es : List Server.Event)
      → lib.set_remote offer ≡ true
      → sent_by (post_offer lib (x.dump offer.0 offer.1) es) ≡ channel_echoed lib false es
  sent_by_accepted offer es e =
      sent_by-HandlingEchoes lib es (post_offer lib (x.dump offer.0 offer.1) es) (
        subst
          (λ b. HandlingEchoes lib b new_connection es (post_offer lib (x.dump offer.0 offer.1) es))
          (ap (is_accepted lib) (r.offers offer) ∙ e)
          (post_offer-HandlingEchoes lib (x.dump offer.0 offer.1) es))

  -- Over HTTP, where each end reads what the other writes, whatever the client meets after its
  -- exchange, but that, where the exchange comes through, its channel opens, carries what the server
  -- sends, and the client's text is the first message that the server sends back on it: the client's
  -- whole test against this server exits with 0 exactly if the exchange comes through, and with -1
  -- otherwise.
  pub interop-passes :
      (offer : Bytes × Bytes) (channel : ℕ) (random_text : Bytes) (es : List Server.Event)
      (later : List Session.Event) (others : List Message)
      → x.local ≡ some offer
      → (comes_through lib x offer es ≡ true
          → (later ≡ opens_channel lib x offer channel es)
            × (on_channel channel (channel_echoed lib false es) ≡ text random_text ∷ others))
      → (session true random_text offer_path (interop_events http lib x later es)).1
        ≡ (if comes_through lib x offer es then pos 0 else negsuc 0)
  interop-passes offer channel random_text es later others e h =
      session-passes true random_text offer_path (interop_events http lib x later es)
      ∙ ap (λ b. if b then pos 0 else negsuc 0)
          (passes-gathered random_text offer_path (joined http lib es x) later
            ∙ ap (λ o. if is_ok o then passes true random_text offer_path later else false)
                (exchange-joined http lib x v r es offer e)
            ∙ after_exchange)
    where
      echoed : comes_through lib x offer es ≡ true → passes true random_text offer_path later ≡ true
      echoed k =
          ap (passes true random_text offer_path) ((h k).0)
          ∙ passes_echoed random_text offer_path
              (on_channel channel (sent_by (post_offer lib (x.dump offer.0 offer.1) es))) others
              (ap (on_channel channel) (sent_by_accepted offer es (ground arith)) ∙ (h k).1)

      after_exchange :
          (if is_ok (if lib.set_remote offer then met x (first_local es) else throws bad_status)
            then passes true random_text offer_path later
            else false)
          ≡ comes_through lib x offer es
      after_exchange = elim (Bool-cases (lib.set_remote offer)) [
        | inl k ↦ rw k (elim (Bool-cases (is_ok (met x (first_local es)))) [
          | inl m ↦ rw m (echoed (rw (k, m) refl))
          | inr m ↦ rw m refl
        ])
        | inr k ↦ rw k refl
      ]
