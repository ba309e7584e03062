-- ===== src/HttpServer/Lifecycle/Ends.antt =====
-- How the main program of the libwebrtc server ends, in every case.
use webrtc_echoes.Base.{Bool, true, false, not, Option, none, some, if◌then◌else◌}
use webrtc_echoes.PeerFactory.Factory.{Factory, construct as construct_factory}
use webrtc_echoes.HttpServer.Lifecycle.{
  Platform, Result, ok, throws, construct, Failure, no_event_base, no_http, no_signal_event,
  not_bound, no_callback, event_base, http, signal_event, Exit, exited, uncaught, killed,
}

-- By the last line of main, by an exception of the HTTP server that nothing catches, or in a request or
-- by the signal.
pub data How : Type 0 where
  finished died : How
  failed : Failure → How

abbrev pub how : Exit → How
how (exited f calls) = finished
how (uncaught e calls) = failed e
how killed = died

-- The first of the server's five steps that does not succeed. Adding the signal event is none.
abbrev pub first_failure : Platform → Option Failure
first_failure p =
    if not (p.gives event_base)
    then some no_event_base
    else if not (p.gives http)
    then some no_http
    else if not (p.gives signal_event)
    then some no_signal_event
    else if not p.binds
    then some not_bound
    else if not p.sets_callback
    then some no_callback
    else none

abbrev failure_of : Result → Option Failure
failure_of (ok s) = none
failure_of (throws e calls) = some e

abbrev is_over : {A : Type 0} → Option A → Bool
is_over none = true
is_over (some a) = false

-- What the server that has started, and with which its signal event was added, comes to.
abbrev pub comes_to : Bool → Option Failure → How
comes_to dies none = if dies then died else finished
comes_to dies (some e) = failed e
