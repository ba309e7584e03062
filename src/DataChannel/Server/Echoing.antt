-- ===== src/DataChannel/Server/Echoing.antt =====
-- The server sends back what it receives.
use webrtc_echoes.Base.{
  ℕ, suc, ◌+◌, ◌≡◌, refl, sym, inl, inr, Bool, true, false, Option, none, some, List, [], ◌∷◌, ◌++◌,
  append_assoc, append-nil, arith, if◌then◌else◌, Bool-cases, length, Bytes,
}
use webrtc_echoes.DataChannel.Client.Session.{Message}
use webrtc_echoes.DataChannel.Server.Responses.{is_accepted}
use webrtc_echoes.DataChannel.Server.{
  run, on_event, Library, Event, handler_runs, gathering_complete, gathering_other, state_other,
  disconnected, channel_message, track_message, Connection, new_connection, returned, by_promise,
  get, with_description, post_offer, Promise, Handling, unsettled, failed, fulfilled, responded,
  refused, waiting,
}

-- The messages that the events bring, on data channels and on tracks, but for those that cannot be
-- sent, as it is for a connection that was closed, or was not, before the first of the events.
abbrev pub channel_echoed : Library → Bool → List Event → List (ℕ × Message)
channel_echoed lib closed [] = []
channel_echoed lib closed (disconnected ∷ es) = channel_echoed lib true es
channel_echoed lib closed (channel_message channel m ∷ es) =
    let rest = channel_echoed lib closed es in
    if lib.sends closed m then (channel, m) ∷ rest else rest
channel_echoed lib closed (_ ∷ es) = channel_echoed lib closed es

abbrev pub track_echoed : Library → Bool → List Event → List (ℕ × Message)
track_echoed lib closed [] = []
track_echoed lib closed (disconnected ∷ es) = track_echoed lib true es
track_echoed lib closed (track_message track m ∷ es) =
    let rest = track_echoed lib closed es in if lib.sends closed m then (track, m) ∷ rest else rest
track_echoed lib closed (_ ∷ es) = track_echoed lib closed es

abbrev messages : List Event → ℕ
messages [] = 0
messages (channel_message channel m ∷ es) = suc (messages es)
messages (track_message track m ∷ es) = suc (messages es)
messages (_ ∷ es) = messages es

-- What a connection has sent on its channels and tracks, given what it had sent and the events; and
-- that each other message has left its callback by an exception.
pub record Echoes (lib : Library) (c : Connection) (es : List Event) (d : Connection) : Type 0 where
  pub channels : d.channel_sent ≡ c.channel_sent ++ channel_echoed lib c.closed es
  pub tracks : d.track_sent ≡ c.track_sent ++ track_echoed lib c.closed es
  pub thrown :
      d.unsent + (length (channel_echoed lib c.closed es) + length (track_echoed lib c.closed es))
      ≡ c.unsent + messages es

Echoes-cons :
    (lib : Library) (e : Event) (es : List Event) (c d : Connection)
    → Echoes lib (on_event lib e c) es d
    → Echoes lib c (e ∷ es) d
unfolding on_event
Echoes-cons lib (channel_message channel m) es c d h = elim (Bool-cases (lib.sends c.closed m)) [
  | inl e ↦ record {
    channels = rw e (
        ground (
          arith,
          h,
          append_assoc c.channel_sent ((channel, m) ∷ []) (channel_echoed lib c.closed es),
        ));
    tracks = ground (arith, h, e);
    thrown = ground (arith, h, e);
  }
  | inr e ↦ record {
    channels = ground (arith, h, e);
    tracks = ground (arith, h, e);
    thrown = ground (arith, h, e);
  }
]
Echoes-cons lib (track_message track m) es c d h = elim (Bool-cases (lib.sends c.closed m)) [
  | inl e ↦ record {
    channels = ground (arith, h, e);
    tracks = rw e (
        ground
          (arith, h, append_assoc c.track_sent ((track, m) ∷ []) (track_echoed lib c.closed es)));
    thrown = ground (arith, h, e);
  }
  | inr e ↦ record {
    channels = ground (arith, h, e);
    tracks = ground (arith, h, e);
    thrown = ground (arith, h, e);
  }
]
Echoes-cons lib disconnected es c d h = record {
  channels = h.channels;
  tracks = h.tracks;
  thrown = h.thrown;
}
Echoes-cons lib handler_runs es c d h = record {
  channels = h.channels;
  tracks = h.tracks;
  thrown = h.thrown;
}
Echoes-cons lib gathering_other es c d h = record {
  channels = h.channels;
  tracks = h.tracks;
  thrown = h.thrown;
}
Echoes-cons lib state_other es c d h = record {
  channels = h.channels;
  tracks = h.tracks;
  thrown = h.thrown;
}
Echoes-cons lib (gathering_complete local) es c d h = record {
  channels = ground (arith, h);
  tracks = ground (arith, h);
  thrown = ground (arith, h);
}

-- Whatever else happens on a connection, it sends back on each channel and track the messages that
-- came on it and could be sent, unchanged and in the order in which they came.
pub run-Echoes : (lib : Library) (es : List Event) (c : Connection) → Echoes lib c es (run lib es c)
unfolding run
run-Echoes lib [] c = record {
  channels = sym (append-nil c.channel_sent);
  tracks = sym (append-nil c.track_sent);
  thrown = omega arith;
}
run-Echoes lib (e ∷ es) c = Echoes-cons lib e es c _ (run-Echoes lib es (on_event lib e c))

-- The connection of a request echoes, and there is one if the request is accepted.
abbrev pub HandlingEchoes : Library → Bool → Connection → List Event → Handling → Type 0
HandlingEchoes lib accepted c es (responded r d) = Echoes lib c es d
HandlingEchoes lib accepted c es (refused r) = accepted ≡ false
HandlingEchoes lib accepted c es (waiting d) = Echoes lib c es d

HandlingEchoes-cons :
    (lib : Library) (e : Event) (es : List Event) (c : Connection) (h : Handling)
    → HandlingEchoes lib true (on_event lib e c) es h
    → HandlingEchoes lib true c (e ∷ es) h
HandlingEchoes-cons lib e es c (responded r d) k = Echoes-cons lib e es c d k
HandlingEchoes-cons lib e es c (refused r) k = k
HandlingEchoes-cons lib e es c (waiting d) k = Echoes-cons lib e es c d k

by_promise-HandlingEchoes :
    (lib : Library) (es : List Event) (d : Connection) (rest : Handling) (p : Promise)
    → HandlingEchoes lib true d es rest
    → HandlingEchoes lib true d es (by_promise lib es d rest p)
by_promise-HandlingEchoes lib es d rest unsettled h = h
by_promise-HandlingEchoes lib es d rest failed h =
    let k = run-Echoes lib es (returned d) in
    record { channels = k.channels; tracks = k.tracks; thrown = k.thrown }
by_promise-HandlingEchoes lib es d rest (fulfilled body) h =
    let k = run-Echoes lib es (returned d) in
    record { channels = k.channels; tracks = k.tracks; thrown = k.thrown }

get-HandlingEchoes :
    (lib : Library) (es : List Event) (c : Connection) → HandlingEchoes lib true c es (get lib es c)
unfolding get on_event
get-HandlingEchoes lib [] c = record {
  channels = sym (append-nil c.channel_sent);
  tracks = sym (append-nil c.track_sent);
  thrown = omega arith;
}
get-HandlingEchoes lib (handler_runs ∷ es) c =
    HandlingEchoes-cons lib handler_runs es c (get lib (handler_runs ∷ es) c)
      (by_promise-HandlingEchoes lib es c (get lib es c) c.promise (get-HandlingEchoes lib es c))
get-HandlingEchoes lib (gathering_complete local ∷ es) c =
    HandlingEchoes-cons lib (gathering_complete local) es c
      (get lib (gathering_complete local ∷ es) c)
      (get-HandlingEchoes lib es (on_event lib (gathering_complete local) c))
get-HandlingEchoes lib (gathering_other ∷ es) c =
    HandlingEchoes-cons lib gathering_other es c (get lib (gathering_other ∷ es) c)
      (get-HandlingEchoes lib es (on_event lib gathering_other c))
get-HandlingEchoes lib (state_other ∷ es) c =
    HandlingEchoes-cons lib state_other es c (get lib (state_other ∷ es) c)
      (get-HandlingEchoes lib es (on_event lib state_other c))
get-HandlingEchoes lib (disconnected ∷ es) c =
    HandlingEchoes-cons lib disconnected es c (get lib (disconnected ∷ es) c)
      (get-HandlingEchoes lib es (on_event lib disconnected c))
get-HandlingEchoes lib (channel_message channel m ∷ es) c =
    HandlingEchoes-cons lib (channel_message channel m) es c
      (get lib (channel_message channel m ∷ es) c)
      (get-HandlingEchoes lib es (on_event lib (channel_message channel m) c))
get-HandlingEchoes lib (track_message track m ∷ es) c =
    HandlingEchoes-cons lib (track_message track m) es c (get lib (track_message track m ∷ es) c)
      (get-HandlingEchoes lib es (on_event lib (track_message track m) c))

-- The connection that a POST of an offer makes, whether the handler has responded or still waits,
-- has sent back on each channel and track exactly what came on it and could be sent at that time,
-- before or after the connection was closed, in order; each other message has left its callback by an
-- exception; and there is a connection if the offer is accepted.
pub post_offer-HandlingEchoes :
    (lib : Library) (body : Bytes) (es : List Event)
    → HandlingEchoes lib
        (is_accepted lib (lib.members body))
        new_connection
        es
        (post_offer lib body es)
unfolding post_offer
post_offer-HandlingEchoes lib body es = described (lib.members body)
  where
    described :
        (remote : Option (Bytes × Bytes))
        → HandlingEchoes lib
            (is_accepted lib remote)
            new_connection
            es
            (with_description lib es remote)
    described none = refl
    described (some remote) = elim (Bool-cases (lib.set_remote remote)) [
      | inl e ↦ rw e (get-HandlingEchoes lib es new_connection)
      | inr e ↦ rw e refl
    ]
