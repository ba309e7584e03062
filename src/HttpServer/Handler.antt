-- ===== src/HttpServer/Handler.antt =====
-- HttpSimpleServer::OnHttpRequest (libwebrtc/HttpSimpleServer.cpp, lines 98 to 157).
pub mod Honesty
pub mod Fatal
pub mod Memory
use webrtc_echoes.Base.{
  ℕ, ◌+◌, ◌-◌, ◌%◌, Bool, true, false, not, Option, none, some, List, [], ◌∷◌, ltb, if◌then◌else◌,
  length, ℤ, pos, negsuc, Bytes, codes, c_str,
}
use webrtc_echoes.PeerFactory.Factory.{Factory}
use webrtc_echoes.PeerFactory.Create.{
  Library, Answer, returned, thrown, crashed, create_peer_connection,
}

-- The methods that evhttp knows.
pub data Method : Type 0 where
  get post head put delete options trace connect patch : Method

pub record Request : Type 0 where
  pub method : Method
  pub body : Bytes

-- Whether evbuffer_new and calloc give memory.
pub record Allocator : Type 0 where
  pub response_buffer : Bool
  pub request_buffer : Bool

pub record Reply : Type 0 where
  pub status : ℕ
  pub reason : Bytes
  pub headers : List (Bytes × Bytes)
  pub content : Option Bytes

-- A handler call sends one reply, with the number of its allocations that it never frees; or an
-- exception leaves it; or it follows a null pointer.
pub data Handled : Type 0 where
  replied : Reply → ℕ → Handled
  exception crash : Handled

abbrev pub allow_origin : Bytes × Bytes
allow_origin = (codes "Access-Control-Allow-Origin", codes "*")

abbrev pub json_content : Bytes × Bytes
json_content = (codes "Content-type", codes "application/json")

abbrev pub is_options : Method → Bool
is_options options = true
is_options _ = false

-- The conversion of a size_t to int.
abbrev pub to_int32 : ℕ → ℤ
to_int32 n = let m = n % 4294967296 in if ltb m 2147483648 then pos m else negsuc (4294967295 - m)

-- evbuffer_add_printf and evhttp_send_reply, with a response buffer that may be null.
unfoldable pub send : Allocator → ℕ → Bytes → List (Bytes × Bytes) → Bytes → ℕ → Handled
send memory status reason headers text live =
    if not memory.response_buffer
    then crash
    else (replied
        (record { status = status; reason = reason; headers = headers; content = some text })
        (live + 1))

unfoldable pub send_answer : Allocator → Answer → Handled
send_answer memory thrown = exception
send_answer memory crashed = crash
send_answer memory (returned text) =
    send memory 200 (codes "OK") (allow_origin ∷ json_content ∷ []) (c_str text) 1

abbrev pub bad_request : Bytes
bad_request = codes "Bad Request"

module _ {Json : Type 0} where
  unfoldable pub handle_offer :
      Allocator → Library Json → Bytes → Option Factory → Handled × Option Factory
  handle_offer memory lib body none =
      (send memory 400 bad_request (allow_origin ∷ []) (codes "No handler") 1, none)
  handle_offer memory lib body (some f) =
      let (answer, f') = create_peer_connection lib body (to_int32 (length body)) f in
      (send_answer memory answer, some f')

  unfoldable pub handle_body :
      Allocator → Library Json → Bytes → Option Factory → Handled × Option Factory
  handle_body memory lib body factory =
      if ltb 0 (length body)
      then if not memory.request_buffer
        then (crash, factory)
        else handle_offer memory lib body factory
      else (
        send memory 400 bad_request (allow_origin ∷ []) (codes "Request was missing the SDP offer.")
            0,
        factory,
      )

  -- `factory` is the static pointer _pcFactory.
  unfoldable pub on_http_request :
      Allocator → Library Json → Request → Option Factory → Handled × Option Factory
  on_http_request memory lib req factory =
      if is_options req.method
      then (
        replied
            (record {
              status = 200;
              reason = codes "OK";
              headers =
                  allow_origin
                  ∷ (codes "Access-Control-Allow-Methods", codes "POST")
                  ∷ (codes "Access-Control-Allow-Headers", codes "content-type")
                  ∷ [];
              content = none;
            })
            0,
        factory,
      )
      else handle_body memory lib req.body factory

-- One request, with the memory and the answers of the libraries while it is handled.
pub record Arrival (Json : Type 0) : Type 0 where
  pub memory : Allocator
  pub library : Library Json
  pub request : Request
