-- ===== src/DataChannel/Server/Program.antt =====
-- The main function of the server (libdatachannel/server.cpp, lines 34 to 99) with all of its requests.
-- The HTTP library calls the handler for each request in a thread of its own, and the WebRTC library
-- calls back for each connection from another, so that whatever happens is interleaved.
pub mod Stepwise
pub mod Alone
pub mod Position
use webrtc_echoes.Base.{
  ℕ, zero, suc, Bool, true, false, Option, none, some, List, [], ◌∷◌, ◌++◌, if◌then◌else◌, any, ℤ,
  Bytes,
}
use webrtc_echoes.DataChannel.Server.{
  Library, Event, handler_runs, Connection, on_event, Handling, responded, refused, waiting,
  by_promise, post_offer, port_of, exit_code,
}

-- A request comes, with the answers of the libraries while it is handled; or something happens in its
-- thread or on its connection. Requests are numbered in the order in which they come.
pub data Happening : Type 0 where
  arrives : Library → Bytes → Happening
  happens : ℕ → Event → Happening

pub record Request : Type 0 where
  pub library : Library
  pub handling : Handling

-- A handler up to future.get.
abbrev pub begin : Library → Bytes → Handling
begin lib body = post_offer lib body []

-- One event later.
unfoldable pub on_next : Library → Event → Handling → Handling
unfolding on_event
on_next lib e (responded r c) = responded r (on_event lib e c)
on_next lib e (refused r) = refused r
on_next lib handler_runs (waiting c) = by_promise lib [] c (waiting c) c.promise
on_next lib e (waiting c) = waiting (on_event lib e c)

-- An event for a request that has not come is none.
unfoldable pub happen : ℕ → Event → List Request → List Request
unfolding on_next
happen i e [] = []
happen zero e (r ∷ rs) = record r { handling = on_next r.library e r.handling } ∷ rs
happen (suc i) e (r ∷ rs) = r ∷ happen i e rs

unfoldable pub serve : List Happening → List Request → List Request
unfolding happen
serve [] rs = rs
serve (arrives lib body ∷ hs) rs =
    serve hs (rs ++ record { library = lib; handling = begin lib body } ∷ [])
serve (happens i e ∷ hs) rs = serve hs (happen i e rs)

-- A callback has set a promise that had ended: a write to the stack of a thread that the HTTP library
-- may use for another request.
abbrev pub is_touched : Handling → Bool
is_touched (responded r c) = c.faulted
is_touched (refused r) = false
is_touched (waiting c) = c.faulted

-- Nothing is left to say of the program after that, of none of its requests.
abbrev pub defined : List Request → Option (List Request)
defined rs = if any (λ r. is_touched r.handling) rs then none else some rs

-- The program ends with an exit code, and, where it could not listen, with a report of the port.
pub record Ended : Type 0 where
  pub requests : Option (List Request)
  pub report : Option ℤ
  pub code : ℤ

-- `listens` says whether listen returns true, which it does once the server is stopped.
unfoldable pub main : (Bytes → ℤ) → List Bytes → Bool → List Happening → Ended
unfolding serve port_of exit_code
main atoi args listens hs =
    if listens
    then record { requests = defined (serve hs []); report = none; code = exit_code true }
    else record { requests = some []; report = some (port_of atoi args); code = exit_code false }
