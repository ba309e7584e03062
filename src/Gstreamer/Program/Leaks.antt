-- ===== src/Gstreamer/Program/Leaks.antt =====
-- What the main function of the GStreamer server acquires and gives back, and when it serves.
use webrtc_echoes.Base.{
  ℕ, suc, ◌+◌, Bool, true, false, ◌&&◌, Option, none, some, List, [], ◌∷◌, ◌==◌, eqb_ℤ, ℤ, pos,
}
use webrtc_echoes.Gstreamer.Service.{Arrival, Served, serving, ended, serve}
use webrtc_echoes.Gstreamer.Program.{
  Platform, Resource, main_loop, loop_thread, base, http_server, Call, acquire, release, dispatch,
  Course, exited, serves, died,
}

-- Resources by number, to compare them.
abbrev code : Resource → ℕ
code main_loop = 0
code loop_thread = 1
code base = 2
code http_server = 3

abbrev one : Bool → ℕ
one true = 1
one false = 0

-- How often a resource is taken, how often it is released, and how often the events are dispatched.
abbrev pub acquires : Resource → List Call → ℕ
acquires r [] = 0
acquires r (acquire t ∷ calls) = one (code t == code r) + acquires r calls
acquires r (_ ∷ calls) = acquires r calls

abbrev pub releases : Resource → List Call → ℕ
releases r [] = 0
releases r (release t ∷ calls) = one (code t == code r) + releases r calls
releases r (_ ∷ calls) = releases r calls

abbrev pub dispatches : List Call → ℕ
dispatches [] = 0
dispatches (dispatch ∷ calls) = suc (dispatches calls)
dispatches (_ ∷ calls) = dispatches calls

-- Whether everything up to the bound socket succeeds, and with the socket.
abbrev pub is_ready : Platform → Bool
is_ready p = p.main_loop_thread && (p.event_base && p.http)

abbrev pub is_served : Platform → Bool
is_served p = is_ready p && eqb_ℤ p.bind (pos 0)

abbrev pub calls_of : Course → List Call
calls_of (exited code calls) = calls
calls_of (serves replies held calls) = calls
calls_of (died replies calls) = calls

abbrev pub exit_of : Course → Option ℤ
exit_of (exited code calls) = some code
exit_of _ = none

abbrev pub still_serves : Served → Bool
still_serves (serving replies held) = true
still_serves (ended replies) = false

module _ {Json : Type 0} where
  -- The event loop fails after requests that the server has survived.
  abbrev pub comes_back : Platform → List (Arrival Json) → Bool
  comes_back p arrivals = is_served p && (p.loop_fails && still_serves (serve arrivals [] 0))
