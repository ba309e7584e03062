-- ===== src/Gstreamer/Program.antt =====
-- The main function of the GStreamer server (gstreamer/gstreamer-webrtc-echo.c, lines 63 to 130).
pub mod Leaks
use webrtc_echoes.Base.{ℕ, Bool, not, List, [], ◌∷◌, ◌++◌, if◌then◌else◌, eqb_ℤ, ℤ, pos, negsuc}
use webrtc_echoes.HttpServer.Handler.{Reply}
use webrtc_echoes.Gstreamer.Service.{Arrival, Served, serving, ended, serve}

-- What the libraries give main: objects, the results of the calls that return an int, and whether the
-- event loop comes to fail.
pub record Platform : Type 0 where
  pub main_loop_thread : Bool
  pub event_base : Bool
  pub http : Bool
  pub bind : ℤ
  pub set_callback : ℤ
  pub loop_fails : Bool

pub data Resource : Type 0 where
  main_loop loop_thread base http_server : Resource

-- The calls of the libraries in the order they are made, those that fail left out of the first.
pub data Call : Type 0 where
  acquire release : Resource → Call
  bind_socket allow_methods register_callback dispatch : Call

-- From the bound socket on. The result of evhttp_set_cb is not looked at.
abbrev pub serve_calls : List Call
serve_calls = allow_methods ∷ register_callback ∷ dispatch ∷ []

-- How far the program has come: it has exited with a code, or serves, or a request has ended it; with
-- the calls made.
pub data Course : Type 0 where
  exited : ℤ → List Call → Course
  serves : List Reply → ℕ → List Call → Course
  died : List Reply → List Call → Course

-- event_base_dispatch returns where the loop fails, which it may after any requests; nothing in the
-- program ends it.
abbrev pub after_dispatch : Bool → List Call → Served → Course
after_dispatch fails calls (serving replies held) =
    if fails
    then exited (pos 0) (calls ++ release main_loop ∷ release http_server ∷ [])
    else serves replies held calls
after_dispatch fails calls (ended replies) = died replies calls

module _ {Json : Type 0} where
  abbrev from_http : Platform → List (Arrival Json) → List Call → Course
  from_http p arrivals calls =
      if not (eqb_ℤ p.bind (pos 0))
      then exited p.bind (calls ++ bind_socket ∷ [])
      else after_dispatch p.loop_fails ((calls ++ bind_socket ∷ []) ++ serve_calls)
          (serve arrivals [] 0)

  -- With the requests that come before the loop fails, or until now.
  unfoldable pub main : Platform → List (Arrival Json) → Course
  main p arrivals =
      if not p.main_loop_thread
      then exited (negsuc 0) (acquire main_loop ∷ [])
      else if not p.event_base
      then exited (negsuc 0) (acquire main_loop ∷ acquire loop_thread ∷ [])
      else if not p.http
      then exited (negsuc 0) (acquire main_loop ∷ acquire loop_thread ∷ acquire base ∷ [])
      else from_http p arrivals
          (acquire main_loop ∷ acquire loop_thread ∷ acquire base ∷ acquire http_server ∷ [])
