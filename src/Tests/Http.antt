-- ===== src/Tests/Http.antt =====
-- HttpSimpleServer at concrete inputs.
use webrtc_echoes.Base.{ℕ, ◌≡◌, refl, true, false, none, some, List, [], ◌∷◌, Bytes, codes}
use webrtc_echoes.PeerFactory.Factory.{
  Factory, construct as construct_factory, destroy as destroy_factory, close_all,
}
use webrtc_echoes.PeerFactory.Create.{
  Library, create_peer_connection, create_from, add_connection, negotiate, answer_from,
}
use webrtc_echoes.HttpServer.Handler.{
  Arrival, post, options, Request, Allocator, replied, exception, allow_origin, json_content,
  on_http_request, handle_body, handle_offer, send_answer, send,
}
use webrtc_echoes.HttpServer.Handler.Honesty.{IsHonest, on_http_request-IsHonest}
use webrtc_echoes.HttpServer.Handler.Memory.{serve_requests, serve_requests-costs}
use webrtc_echoes.HttpServer.Lifecycle.{
  Platform, main, EventCall, allocate, free_handle, event_base, http, signal_event, add_signal,
  bind, allow_methods, set_callback, dispatch, loop_exit, exited, construct, init,
  serve_until_signal, run, dispatch_requests, stop, destroy, on_signal,
}
use webrtc_echoes.HttpServer.Lifecycle.Closing.{main-closes}
use webrtc_echoes.HttpServer.Lifecycle.Ownership.{IsBalanced, main-IsBalanced}

-- Libraries that find no JSON, and libraries that make no connection.
abbrev no_json : Library Bytes
no_json = record {
  parse = λ text. none;
  sdp_of = λ json. some json;
  new_connection = none;
  audio_track = true;
  add_track = true;
  parse_sdp = λ sdp. true;
  ready_in_time = true;
  local_description = none;
  dump = λ members. none;
}

abbrev no_connection : Library Bytes
no_connection = record no_json { parse = λ text. some text }

abbrev working : Allocator
working = record { response_buffer = true; request_buffer = true }

abbrev offer : Request
offer = record { method = post; body = codes "offer" }

abbrev factory : Factory
factory = record {
  has_factory = true;
  dependencies = none;
  peer_connections = [];
  close_calls = [];
}

on_http_request-IsHonest_example :
    IsHonest working no_connection offer
      (some factory)
      (on_http_request working no_connection offer (some factory)).0
on_http_request-IsHonest_example =
    on_http_request-IsHonest working no_connection offer (some factory)

-- A body that is no JSON: the exception leaves the handler.
no_json_throws : on_http_request working no_json offer (some factory) ≡ (exception, some factory)
unfolding on_http_request handle_body handle_offer send_answer send create_peer_connection
    create_from add_connection
no_json_throws = refl

-- The text of an error goes out as a 200 called JSON.
error_as_200 : on_http_request working no_connection offer (some factory) ≡ (
  replied
      (record {
        status = 200;
        reason = codes "OK";
        headers = allow_origin ∷ json_content ∷ [];
        content = some (codes "error");
      })
      2,
  some factory,
)
unfolding on_http_request handle_body handle_offer send_answer send create_peer_connection
    create_from add_connection
error_as_200 = refl

abbrev three_arrivals : List (Arrival Bytes)
three_arrivals =
    record { memory = working; library = no_connection; request = offer }
    ∷ record {
      memory = working;
      library = no_connection;
      request = record { method = options; body = [] };
    }
    ∷ record {
      memory = working;
      library = no_connection;
      request = record { method = post; body = [] };
    }
    ∷ []

serve_requests-costs_example : serve_requests three_arrivals (some factory) 0 ≡ some 3
serve_requests-costs_example =
    serve_requests-costs three_arrivals factory 0 (refl, (refl, (refl, tt)))

abbrev all_well : Platform
all_well = record {
  gives = λ h. true;
  adds_signal = true;
  binds = true;
  sets_callback = true;
  rereads = true;
}

-- An offer that is answered, one whose SDP is refused, and a request without a body.
abbrev answering : ℕ → Library Bytes
answering pc = record no_connection {
  new_connection = some pc;
  local_description = some (codes "v=0");
  dump = λ members. some (codes "{}");
}

abbrev session_arrivals : List (Arrival Bytes)
session_arrivals =
    record { memory = working; library = answering 7; request = offer }
    ∷ record {
      memory = working;
      library = record (answering 8) { parse_sdp = λ sdp. false };
      request = offer;
    }
    ∷ record {
      memory = working;
      library = answering 9;
      request = record { method = post; body = [] };
    }
    ∷ []

abbrev session_calls : List EventCall
session_calls =
    allocate event_base
    ∷ allocate http
    ∷ allocate signal_event
    ∷ add_signal
    ∷ bind
    ∷ allow_methods
    ∷ set_callback
    ∷ dispatch
    ∷ loop_exit
    ∷ loop_exit
    ∷ free_handle http
    ∷ free_handle signal_event
    ∷ free_handle event_base
    ∷ []

abbrev closed_factory : Factory
closed_factory = record {
  has_factory = false;
  dependencies = none;
  peer_connections = [];
  close_calls = 7 ∷ 8 ∷ [];
}

session_ends :
    main all_well true [] [] session_arrivals ≡ exited (some closed_factory) session_calls
unfolding main construct init serve_until_signal run dispatch_requests stop destroy on_signal
    on_http_request handle_body handle_offer send_answer send create_peer_connection create_from
    add_connection negotiate answer_from construct_factory destroy_factory close_all
session_ends = refl

main-closes_example :
    (f : Factory) × (some closed_factory ≡ some f)
    × (f.close_calls ≡ 7 ∷ 8 ∷ [])
    × (f.peer_connections ≡ [])
    × (f.dependencies ≡ none)
main-closes_example = main-closes all_well true [] [] session_arrivals session_ends

main-IsBalanced_example : IsBalanced true (main all_well true [] [] session_arrivals)
main-IsBalanced_example = main-IsBalanced all_well true [] [] session_arrivals
