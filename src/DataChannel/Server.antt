-- ===== src/DataChannel/Server.antt =====
-- The libdatachannel server (libdatachannel/server.cpp): the handler of POST /offer with the callbacks
-- that it installs, and main.
pub mod Echoing
pub mod Responses
pub mod Lifetime
pub mod Program
use webrtc_echoes.Base.{
  ℕ, ◌+◌, Bool, true, false, not, Option, none, some, List, [], ◌∷◌, ◌++◌, if◌then◌else◌, ℤ, pos,
  negsuc, Bytes, codes,
}
use webrtc_echoes.DataChannel.Client.Session.{Message}

-- What the libraries answer while one request is handled. `members` is none where the body is no JSON,
-- where one of "sdp" and "type" is no string, or where they are no description; `dump` is none where
-- it throws; `sends` says, given whether the connection was closed, whether a channel or track takes a
-- message to send: send throws where it is closed or the message is too long.
pub record Library : Type 0 where
  pub members : Bytes → Option (Bytes × Bytes)
  pub set_remote : Bytes × Bytes → Bool
  pub dump : Bytes → Bytes → Option Bytes
  pub sends : Bool → Message → Bool

-- What happens on a connection, and `handler_runs`: the thread of the handler, in future.get, comes to
-- run and finds the promise as it is.
pub data Event : Type 0 where
  handler_runs : Event
  gathering_complete : Option (Bytes × Bytes) → Event
  gathering_other state_other disconnected : Event
  channel_message track_message : ℕ → Message → Event

-- The promise of the handler: a text, or an exception.
pub data Promise : Type 0 where
  unsettled failed : Promise
  fulfilled : Bytes → Promise

-- `sent` lists what was sent, with the channel or track, oldest first. `promise_live` says whether the
-- handler that owns the promise has not returned; `faulted`, that a callback touched it after that;
-- `escaped` counts the exceptions that left the gathering callback, `unsent` those of send.
pub record Connection : Type 0 where
  pub promise : Promise
  pub promise_live : Bool
  pub closed : Bool
  pub channel_sent : List (ℕ × Message)
  pub track_sent : List (ℕ × Message)
  pub escaped : ℕ
  pub unsent : ℕ
  pub faulted : Bool

-- The settings of a promise that is set already throw; in the callback set_exception stands in the
-- handler of the try block around set_value, so its exception leaves the callback.
abbrev pub settle : Promise → Connection → Connection
settle p c = elim c.promise [
  | unsettled ↦ record c { promise = p }
  | _ ↦ record c { escaped = c.escaped + 1 }
]

abbrev pub promised : Option Bytes → Promise
promised none = failed
promised (some body) = fulfilled body

abbrev pub answer_of : Library → Option (Bytes × Bytes) → Promise
answer_of lib none = failed
answer_of lib (some (sdp, type)) = promised (lib.dump sdp type)

-- A message is sent, or send throws, and the exception leaves the callback.
abbrev pub sent_if : Bool → ℕ × Message → List (ℕ × Message) → List (ℕ × Message)
sent_if taken m sent = if taken then sent ++ m ∷ [] else sent

abbrev pub thrown_if : Bool → ℕ → ℕ
thrown_if taken unsent = if taken then unsent else unsent + 1

pub on_event : Library → Event → Connection → Connection
on_event lib (gathering_complete local) c =
    if c.promise_live then settle (answer_of lib local) c else record c { faulted = true }
on_event lib handler_runs c = c
on_event lib gathering_other c = c
on_event lib state_other c = c
on_event lib disconnected c = record c { closed = true }
on_event lib (channel_message channel m) c =
    let taken = lib.sends c.closed m in
    record c {
      channel_sent = sent_if taken (channel, m) c.channel_sent;
      unsent = thrown_if taken c.unsent;
    }
on_event lib (track_message track m) c =
    let taken = lib.sends c.closed m in
    record c {
      track_sent = sent_if taken (track, m) c.track_sent;
      unsent = thrown_if taken c.unsent;
    }

pub run : Library → List Event → Connection → Connection
run lib [] c = c
run lib (e ∷ es) c = run lib es (on_event lib e c)

abbrev pub new_connection : Connection
new_connection = record {
  promise = unsettled;
  promise_live = true;
  closed = false;
  channel_sent = [];
  track_sent = [];
  escaped = 0;
  unsent = 0;
  faulted = false;
}

-- A status of none is left to the HTTP library.
pub record Response : Type 0 where
  pub status : Option ℕ
  pub body : Bytes
  pub content_type : Bytes

-- The exception handler of the server.
abbrev pub internal_error : Response
internal_error = record {
  status = some 500;
  body = codes "500 Internal Server Error";
  content_type = codes "text/plain";
}

abbrev pub answered : Bytes → Response
answered body = record { status = none; body = body; content_type = codes "application/json" }

-- The handler responds, and its connection lives on; or it is refused, and a connection that was made
-- is kept by its own callbacks, but has no description, so that nothing happens on it; or the handler
-- has not returned from future.get when the events are over.
pub data Handling : Type 0 where
  responded : Response → Connection → Handling
  refused : Response → Handling
  waiting : Connection → Handling

abbrev pub returned : Connection → Connection
returned c = record c { promise_live = false }

-- The handler that runs returns if its promise is settled, and the connection goes on with the events
-- left; otherwise it is `rest`, which waits for more.
abbrev pub by_promise : Library → List Event → Connection → Handling → Promise → Handling
by_promise lib es c rest unsettled = rest
by_promise lib es c rest failed = responded internal_error (run lib es (returned c))
by_promise lib es c rest (fulfilled body) = responded (answered body) (run lib es (returned c))

-- future.get, with the events that come.
pub get : Library → List Event → Connection → Handling
get lib [] c = waiting c
get lib (handler_runs ∷ es) c = let rest = get lib es c in by_promise lib es c rest c.promise
get lib (e ∷ es) c = get lib es (on_event lib e c)

abbrev pub with_description : Library → List Event → Option (Bytes × Bytes) → Handling
with_description lib events none = refused internal_error
with_description lib events (some remote) =
    let rest = get lib events new_connection in
    if lib.set_remote remote then rest else refused internal_error

pub post_offer : Library → Bytes → List Event → Handling
unfolding get
post_offer lib body events = with_description lib events (lib.members body)

-- main: the port of the first argument or 8080, and the exit code once listen has returned.
pub port_of : (Bytes → ℤ) → List Bytes → ℤ
port_of atoi [] = pos 8080
port_of atoi (arg ∷ args) = atoi arg

pub exit_code : Bool → ℤ
exit_code listened = if not listened then negsuc 0 else pos 0
