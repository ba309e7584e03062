-- ===== src/Gstreamer/Service.antt =====
-- The requests that the GStreamer server handles one after another, as the event loop of its main
-- thread brings them (gstreamer/gstreamer-webrtc-echo.c, lines 117 to 263).
pub mod Leaks
pub mod Ends
use webrtc_echoes.Base.{ℕ, ◌+◌, List, [], ◌∷◌, ◌++◌, length}
use webrtc_echoes.HttpServer.Handler.{Request, Reply}
use webrtc_echoes.Gstreamer.Handler.{
  Library, Handled, replied_with, aborted, crash, on_http_request_cb,
}

-- One request, with what the libraries answer while it is handled.
pub record Arrival (Json : Type 0) : Type 0 where
  pub library : Library Json
  pub request : Request

-- The process still serves, or a failed assertion or a bad pointer has ended it; with the replies
-- sent, oldest first, and the number of objects that the requests hold for ever.
pub data Served : Type 0 where
  serving : List Reply → ℕ → Served
  ended : List Reply → Served

-- From the end of one handler call on; `rest` serves the requests that are left.
abbrev pub go_on : Handled → (List Reply → ℕ → Served) → List Reply → ℕ → Served
go_on (replied_with r left) rest replies held = rest (replies ++ r ∷ []) (held + length left)
go_on aborted rest replies held = ended replies
go_on crash rest replies held = ended replies

module _ {Json : Type 0} where
  unfoldable pub serve : List (Arrival Json) → List Reply → ℕ → Served
  serve [] replies held = serving replies held
  serve (a ∷ arrivals) replies held =
      go_on (on_http_request_cb a.library a.request).0 (serve arrivals) replies held
