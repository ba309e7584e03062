-- ===== src/DataChannel/Server/Program/Stepwise.antt =====
-- The handler of the server, event by event.
use webrtc_echoes.Base.{
  ◌≡◌, refl, Bool, true, false, Option, none, some, List, [], ◌∷◌, if◌then◌else◌, Bytes,
}
use webrtc_echoes.DataChannel.Server.{
  Library, Event, handler_runs, gathering_complete, gathering_other, state_other, disconnected,
  channel_message, track_message, Connection, on_event, run, Handling, responded, refused, waiting,
  Promise, unsettled, failed, fulfilled, by_promise, get, with_description, post_offer, Response,
  returned, internal_error, answered,
}
use webrtc_echoes.DataChannel.Server.Program.{begin, on_next}

module _ (lib : Library) where
  abbrev pub on_all : List Event → Handling → Handling
  on_all [] h = h
  on_all (e ∷ es) h = on_all es (on_next lib e h)

  on_all-responded :
      (es : List Event) (r : Response) (c : Connection)
      → on_all es (responded r c) ≡ responded r (run lib es c)
  unfolding on_next run
  on_all-responded [] r c = refl
  on_all-responded (e ∷ es) r c = on_all-responded es r (on_event lib e c)

  on_all-refused : (es : List Event) (r : Response) → on_all es (refused r) ≡ refused r
  unfolding on_next
  on_all-refused [] r = refl
  on_all-refused (e ∷ es) r = on_all-refused es r

  on_all-by_promise :
      (es : List Event) (c : Connection) (rest : Handling) (p : Promise)
      → on_all es (waiting c) ≡ rest
      → on_all es (by_promise lib [] c (waiting c) p) ≡ by_promise lib es c rest p
  unfolding run
  on_all-by_promise es c rest unsettled h = h
  on_all-by_promise es c rest failed h = on_all-responded es internal_error (returned c)
  on_all-by_promise es c rest (fulfilled body) h = on_all-responded es (answered body) (returned c)

  -- Event by event, a waiting handler comes to what future.get does with all of them.
  on_all-get : (es : List Event) (c : Connection) → on_all es (waiting c) ≡ get lib es c
  unfolding on_next get
  on_all-get [] c = refl
  on_all-get (handler_runs ∷ es) c =
      on_all-by_promise es c (get lib es c) c.promise (on_all-get es c)
  on_all-get (gathering_complete local ∷ es) c =
      on_all-get es (on_event lib (gathering_complete local) c)
  on_all-get (gathering_other ∷ es) c = on_all-get es (on_event lib gathering_other c)
  on_all-get (state_other ∷ es) c = on_all-get es (on_event lib state_other c)
  on_all-get (disconnected ∷ es) c = on_all-get es (on_event lib disconnected c)
  on_all-get (channel_message channel m ∷ es) c =
      on_all-get es (on_event lib (channel_message channel m) c)
  on_all-get (track_message track m ∷ es) c = on_all-get es (on_event lib (track_message track m) c)

  on_all-if :
      (es : List Event) (b : Bool) (c : Connection) (r : Response)
      → on_all es (if b then waiting c else refused r) ≡ (if b then get lib es c else refused r)
  on_all-if es true c r = on_all-get es c
  on_all-if es false c r = on_all-refused es r

  on_all-with_description :
      (es : List Event) (remote : Option (Bytes × Bytes))
      → on_all es (with_description lib [] remote) ≡ with_description lib es remote
  unfolding get
  on_all-with_description es none = on_all-refused es internal_error
  on_all-with_description es (some remote) = on_all-if es (lib.set_remote remote) _ internal_error

  -- So a request comes to what the handler does with all its events.
  pub on_all-begin :
      (es : List Event) (body : Bytes) → on_all es (begin lib body) ≡ post_offer lib body es
  unfolding post_offer
  on_all-begin es body = on_all-with_description es (lib.members body)
