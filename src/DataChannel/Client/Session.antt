-- ===== src/DataChannel/Client/Session.antt =====
-- The callbacks of the client and its main loop.
use webrtc_echoes.Base.{
  ℕ, Bool, true, false, not, Option, none, some, List, [], ◌∷◌, ◌++◌, ◌==◌, if◌then◌else◌, ℤ, pos,
  negsuc, Bytes, eqb,
}
use webrtc_echoes.DataChannel.Client.Promise.{
  Error, bad_optional_access, request_failed, bad_status, bad_json, bad_answer, remote_refused,
  peer_connection_failed, unexpected_binary, unexpected_message, timeout, Promise, unsettled,
  fulfilled, broken, set_value, set_exception, copy_as_base,
}

-- What the libraries answer while the offer is posted. `local` holds the text and the type of the local
-- description, if there is one; `dump` is the JSON of a text and a type that are UTF-8, as an SDP is;
-- `post` is none for a request that fails, else the status and body;
-- `parse` is none where the body is no JSON, and `members` where one of "sdp" and "type" is no string
-- or they are no description.
pub record Exchange : Type 0 where
  pub local : Option (Bytes × Bytes)
  pub dump : Bytes → Bytes → Bytes
  pub post : Bytes → Bytes → Option (ℕ × Bytes)
  pub parse : Bytes → Bool
  pub members : Bytes → Option (Bytes × Bytes)
  pub set_remote : Bytes × Bytes → Bool

-- A step that fails throws.
pub data Outcome {ℓ} (A : Type ℓ) : Type ℓ where
  ok : A → Outcome A
  throws : Error → Outcome A

infixl 5 ◌>>=◌ ◌>>◌
abbrev pub ◌>>=◌ {ℓ κ} : {A : Type ℓ} {B : Type κ} → Outcome A → (A → Outcome B) → Outcome B
ok a >>= f = f a
throws e >>= f = throws e

abbrev pub ◌>>◌ {ℓ} : {B : Type ℓ} → Outcome (Unit {0}) → Outcome B → Outcome B
m >> k = m >>= λ _. k

abbrev pub or_throw {ℓ} : {A : Type ℓ} → Option A → Error → Outcome A
or_throw none e = throws e
or_throw (some a) e = ok a

abbrev pub check : Bool → Error → Outcome (Unit {0})
check true e = ok tt
check false e = throws e

-- The body of the callback for a gathering state of Complete: the remote description to set.
unfoldable pub exchange : Bytes → Exchange → Outcome (Bytes × Bytes)
exchange path x = do
  local ← or_throw x.local bad_optional_access
  response ← or_throw (x.post path (x.dump local.0 local.1)) request_failed
  check (response.0 == 200) bad_status
  check (x.parse response.1) bad_json
  remote ← or_throw (x.members response.1) bad_answer
  check (x.set_remote remote) remote_refused
  ok remote

pub data Message : Type 0 where
  text binary : Bytes → Message

-- What the library calls back for. The other gathering and connection states do nothing.
pub data Event : Type 0 where
  gathering_complete : Exchange → Event
  gathering_other state_other disconnected track_open channel_open : Event
  message : Message → Event

-- `channel_test` says which test is run, `random_text` is the text of the data channel test, `sent`
-- the messages sent, oldest first, and `escaped` the exceptions that left a callback.
pub record Client : Type 0 where
  pub channel_test : Bool
  pub random_text : Bytes
  pub path : Bytes
  pub promise : Promise
  pub remote : Option (Bytes × Bytes)
  pub closed : Bool
  pub sent : List Bytes
  pub escaped : List Error

abbrev pub escape : Option Error → List Error → List Error
escape none errors = errors
escape (some e) errors = errors ++ e ∷ []

-- Settling the promise from a callback that catches nothing.
abbrev pub settle : Promise × Option Error → Client → Client
settle (p, e) c = record c { promise = p; escaped = escape e c.escaped }

abbrev after_exchange : Outcome (Bytes × Bytes) → Client → Client
after_exchange (ok remote) c = record c { remote = some remote }
after_exchange (throws e) c = settle (set_exception e c.promise) c

pub on_gathering_complete : Exchange → Client → Client
on_gathering_complete x c = after_exchange (exchange c.path x) c

pub on_disconnected : Client → Client
on_disconnected c =
    let d = record c { closed = true } in settle (set_exception peer_connection_failed d.promise) d

pub on_track_open : Client → Client
on_track_open c = settle (set_value c.promise) c

pub on_channel_open : Client → Client
on_channel_open c = record c { sent = c.sent ++ c.random_text ∷ [] }

-- The body of the try block of the data channel's onMessage, up to set_value.
abbrev pub compare_message : Bytes → Message → Outcome (Unit {0})
compare_message expected (binary bytes) = throws unexpected_binary
compare_message expected (text str) =
    if not (eqb str expected) then throws (unexpected_message str) else ok tt

-- set_value stands inside the try block, and set_exception in its handler.
abbrev guarded : Promise × Option Error → Client → Client
guarded (p, none) c = record c { promise = p }
guarded (p, some e) c = settle (set_exception (copy_as_base e) p) c

abbrev after_compare : Outcome (Unit {0}) → Client → Client
after_compare (ok u) c = guarded (set_value c.promise) c
after_compare (throws e) c = settle (set_exception (copy_as_base e) c.promise) c

pub on_message : Message → Client → Client
on_message m c = after_compare (compare_message c.random_text m) c

-- The track's callback is installed for the peer connection test, those of the data channel for the
-- other.
unfoldable pub on_event : Event → Client → Client
unfolding on_gathering_complete on_disconnected on_track_open on_channel_open on_message
on_event (gathering_complete x) c = on_gathering_complete x c
on_event gathering_other c = c
on_event state_other c = c
on_event disconnected c = on_disconnected c
on_event track_open c = if c.channel_test then c else on_track_open c
on_event channel_open c = if c.channel_test then on_channel_open c else c
on_event (message m) c = if c.channel_test then on_message m c else c

unfoldable pub run : List Event → Client → Client
run [] c = c
run (e ∷ es) c = run es (on_event e c)

abbrev pub new_client : Bool → Bytes → Bytes → Client
new_client channel_test random_text path = record {
  channel_test = channel_test;
  random_text = random_text;
  path = path;
  promise = unsettled;
  remote = none;
  closed = false;
  sent = [];
  escaped = [];
}

-- The wait of ten seconds, and future.get: what main throws, if it throws.
abbrev pub wait_for : Promise → Option Error
wait_for unsettled = some timeout
wait_for fulfilled = none
wait_for (broken e) = some e

-- main returns 0, or prints the exception and returns -1.
unfoldable pub exit_code : Option Error → ℤ
exit_code none = pos 0
exit_code (some e) = negsuc 0

-- The client given the events of its ten seconds: what it reports, and its exit code.
unfoldable pub session : Bool → Bytes → Bytes → List Event → Option Error × ℤ
unfolding run exit_code
session channel_test random_text path events =
    let report = wait_for (run events (new_client channel_test random_text path)).promise in
    (report, exit_code report)
