-- ===== src/HttpServer/Lifecycle.antt =====
-- The construction, use and destruction of HttpSimpleServer, and the main program that goes through
-- them (libwebrtc/HttpSimpleServer.cpp, lines 20 to 88 and 159 to 166, HttpSimpleServer.h, lines 35 to
-- 57, and libwebrtc-webrtc-echo.cpp, lines 35 to 78).
pub mod Ownership
pub mod Closing
pub mod Ends
use webrtc_echoes.Base.{
  ℕ, Bool, true, false, not, Option, none, some, List, [], ◌∷◌, ◌++◌, if◌then◌else◌, set,
}
use webrtc_echoes.PeerFactory.Factory.{
  Factory, construct as construct_factory, destroy as destroy_factory,
}
use webrtc_echoes.PeerFactory.Create.{Library}
use webrtc_echoes.HttpServer.Handler.{
  Request, Allocator, Handled, replied, exception, crash, on_http_request, send, Arrival,
}

-- The objects of libevent that the server holds.
pub data Handle : Type 0 where
  event_base http signal_event : Handle

-- The calls of libevent, in the order they are made.
pub data EventCall : Type 0 where
  allocate free_handle : Handle → EventCall
  add_signal bind allow_methods set_callback dispatch loop_exit : EventCall

-- What main finds: which calls of libevent succeed,
-- and what the memory of _isDisposed reads as in the second
-- call of the destructor, when the object's lifetime has ended: that is undefined, so that it may be
-- anything. `adds_signal` is the result of event_add at least 0, `binds` and
-- `sets_callback` a result 0.
pub record Platform : Type 0 where
  pub gives : Handle → Bool
  pub adds_signal : Bool
  pub binds : Bool
  pub sets_callback : Bool
  pub rereads : Bool

-- `calls` lists the calls made so far, oldest first; it is the world's, not the object's, like
-- `has_signal`, whether SIGINT has its handler, and `rereads`, as in Platform.
pub record Server : Type 0 where
  pub is_disposed : Bool
  pub has_signal : Bool
  pub rereads : Bool
  pub calls : List EventCall

pub data Failure : Type 0 where
  no_event_base no_http no_signal_event not_bound no_callback : Failure

-- A method ends, or throws and leaves the calls made.
pub data Result : Type 0 where
  ok : Server → Result
  throws : Failure → List EventCall → Result

infixl 5 ◌>>=◌
abbrev pub ◌>>=◌ : Result → (Server → Result) → Result
◌>>=◌ (ok s) f = f s
◌>>=◌ (throws e calls) f = throws e calls

abbrev call_event : EventCall → Server → Server
call_event c s = record s { calls = s.calls ++ c ∷ [] }

abbrev acquire : Platform → Handle → Failure → Server → Result
acquire platform handle failure s =
    if platform.gives handle then ok (call_event (allocate handle) s) else throws failure s.calls

-- A failure to add the signal event is only printed.
unfoldable pub construct : Platform → List EventCall → Result
construct platform calls =
    acquire platform event_base no_event_base (record {
      is_disposed = false;
      has_signal = false;
      rereads = platform.rereads;
      calls = calls;
    })
    >>= λ s. acquire platform http no_http s >>= λ t.
        acquire platform signal_event no_signal_event t >>= λ u.
        ok (record (call_event add_signal u) { has_signal = platform.adds_signal })

unfoldable pub init : Platform → Server → Result
init platform s =
    let bound = call_event bind s in
    let allowed = call_event allow_methods bound in
    let set = call_event set_callback allowed in
    if not platform.binds
    then throws not_bound bound.calls
    else if not platform.sets_callback
    then throws no_callback set.calls
    else ok set

-- The destructor, which Stop calls by name.
unfoldable pub destroy : Server → Server
destroy s =
    if not s.is_disposed
    then (record s {
      is_disposed = true;
      calls =
          s.calls
          ++ loop_exit ∷ free_handle http ∷ free_handle signal_event ∷ free_handle event_base ∷ [];
    })
    else s

unfoldable pub stop : Server → Server
unfolding destroy
stop s = destroy s

unfoldable pub on_signal : Server → Server
on_signal s = call_event loop_exit s

-- Stop ends the object's lifetime.
abbrev pub end_lifetime : Bool → Server → Server
end_lifetime reads s = record s { is_disposed = reads }

-- The pointer after a request, or none where an exception or a null pointer ends the process. A call
-- whose time was up counts as survived here, although the signalling thread may yet use its frame.
abbrev pub survive : Handled → Option Factory → Option (Option Factory)
survive (replied r n) factory = some factory
survive exception factory = none
survive crash factory = none

-- The signal handler ends the loop once the requests are done; a signal that has no handler ends the
-- process.
abbrev pub with_requests : Server → Option (Option Factory) → Option (Option Factory × Server)
with_requests s none = none
with_requests s (some f) =
    if s.has_signal then some (f, on_signal (call_event dispatch s)) else none

module _ {Json : Type 0} where
  -- The requests that event_base_dispatch brings to OnHttpRequest until a signal ends it.
  unfoldable pub dispatch_requests : List (Arrival Json) → Option Factory → Option (Option Factory)
  dispatch_requests [] factory = some factory
  dispatch_requests (a ∷ arrivals) factory =
      let (handled, factory') = on_http_request a.memory a.library a.request factory in
      elim (survive handled factory') [ none ↦ none | some f ↦ dispatch_requests arrivals f ]

  unfoldable pub run :
      List (Arrival Json) → Option Factory → Server → Option (Option Factory × Server)
  run arrivals factory s = with_requests s (dispatch_requests arrivals factory)

-- How the program ends: by its last line, by an exception that nothing catches, or during a request or
-- by the signal.
-- The factory is the local object of main, after its destructor.
pub data Exit : Type 0 where
  exited : Option Factory → List EventCall → Exit
  uncaught : Failure → List EventCall → Exit
  killed : Exit

abbrev pub destroy_local : Option Factory → Option Factory
destroy_local none = none
destroy_local (some f) = some (destroy_factory f)

abbrev pub exit_from : Option (Option Factory × Server) → Exit
exit_from none = killed
exit_from (some (f, s)) = exited (destroy_local f) (destroy (end_lifetime s.rereads (stop s))).calls

module _ {Json : Type 0} where
  unfoldable pub serve_until_signal : List (Arrival Json) → Factory → Result → Exit
  serve_until_signal arrivals f (throws e calls) = uncaught e calls
  serve_until_signal arrivals f (ok s) = exit_from (run arrivals (some f) s)

  -- `made` says whether the library gives a factory; `rec` and `send` are what the memory of the
  -- audio device holds.
  unfoldable pub main : Platform → Bool → List ℕ → List ℕ → List (Arrival Json) → Exit
  main platform made rec send arrivals =
      serve_until_signal arrivals (construct_factory made rec send)
        (construct platform [] >>= λ s. init platform s)
