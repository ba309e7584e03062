-- ===== src/Lib.antt =====
-- A model of the C and C++ echo programs of the webrtc-echoes repository, with theorems about them.
--
-- The repository holds programs that test one WebRTC library against another. A client posts an SDP
-- offer to a server over HTTP; the server answers with its own SDP, and echoes what it then receives.
-- Three programs are modelled: the server on libwebrtc, the client and server on libdatachannel, and
-- the server on GStreamer. Each is the code of this repository with the libraries under it as
-- parameters.
--
-- The libwebrtc server. Its main (libwebrtc/libwebrtc-webrtc-echo.cpp) makes a PcFactory and a
-- HttpSimpleServer. The HTTP server hands the body of each request to
-- PcFactory::CreatePeerConnection, whose text is the reply. That method posts a task to the library's
-- signalling thread and waits for its observer. The factory gives the library a
-- FakeAudioCaptureModule as its audio device.
--   Capture        libwebrtc/fake_audio_capture_module.h and .cc. State holds the members and the
--                  constructor; Buffers the array loops (SetSendBuffer, ResetRecBuffer,
--                  CheckRecBuffer) and Create; Device every method of the interface, one constructor
--                  of a call type per method; Frames the methods with a P at the end of their names,
--                  of which the interface reaches none.
--   PeerFactory    libwebrtc/PcFactory.h and .cpp, PcObserver.h and .cpp. Factory holds the constructor
--                  and the destructor, Create the whole of CreatePeerConnection as one thread sees it,
--                  Wait the two threads from PostTask on, Call the method with these threads, Service
--                  one call after another over the signalling thread, Observer the callbacks.
--   HttpServer     libwebrtc/HttpSimpleServer.h and .cpp and the main program. Handler is
--                  OnHttpRequest; Lifecycle is construction, Init, Run, Stop, destruction and main.
--
-- The libdatachannel programs.
--   DataChannel    libdatachannel/client.cpp and server.cpp. Random, Args and Url are what the client
--                  does before it connects, Client the session with its promise and the whole of main,
--                  Server the handler of POST /offer with its callbacks, and in Program the whole of
--                  main, with its requests interleaved. Post is the client's POST to the handler of
--                  any server over HTTP. Echo, Handshake and Interop are the two programs together: at
--                  the ends of a channel, of the POST, and of the whole test, in Interop/Command from
--                  the client's command line on, and in Interop/Among with other clients.
--
-- The GStreamer server.
--   Gstreamer      gstreamer/gstreamer-webrtc-echo.c. Pipeline is create_webrtc, set_offer and the
--                  callbacks that change state, Notices the callbacks that print, Handler the HTTP
--                  handler as its thread sees it, Negotiation the handler and the callbacks of
--                  set_offer as steps that interleave, Service one request after another, Program is
--                  main.
--
-- The client with the other servers.
--   Interop        The POST of the libdatachannel client and the answer of the libwebrtc server, in
--                  Libwebrtc, and of the GStreamer server, in Gst; Command is the client's whole main
--                  with any of the three, in its peer connection test.
--
-- Base holds the library names that the parts share, lists, integers and texts over the native numbers.
-- Tests holds runs at concrete inputs, and the theorems applied to them.
--
-- How code becomes definitions. A member function is a function from the object's record to its result
-- and the record after it; its name is the source's in snake case. A method that throws returns a sum.
-- Texts are lists of byte values. Callbacks of a library are events in a list, which may come in any
-- order and number; that a waiting handler runs is an event too, in DataChannel/Server. What a library
-- answers is a field of a record that the model's functions take: Library in PeerFactory/Create,
-- DataChannel/Server and Gstreamer/Handler, Exchange in DataChannel/Client/Session, Transport where a
-- client meets a server, Engine in Capture/Frames, Platform for libevent. No law is assumed of them
-- beyond the hypotheses that a theorem names.
--
-- Bounds. The loops over sample arrays have their 440 rounds written out as the array's size; the other
-- loops are recursion over the list they consume, so no function needs fuel. The conversion of an int
-- to a sample wraps at 2 ^ 16, that of a size_t to an int at 2 ^ 32. The count of received frames and
-- the times in milliseconds have no upper bound in the model; the machine's would take some 2 ^ 31
-- frames and 2 ^ 63 milliseconds to pass. A test number of the command line that no int holds, for
-- which std::atoi is undefined, ends in an outcome of its own.
--
-- What is not modelled. The vendored libraries libwebrtc/json.hpp and gstreamer/cJSON.c are parameters.
-- Lines printed for information are left out, but for those of the observers and callbacks whose whole
-- body prints. The set-up of Windows sockets is left out. Requests of the libwebrtc server are handled
-- one after another, as its single event loop does. Each step of a thread is atomic. The two link tests
-- in libwebrtc/ are copies of a file of the WebRTC project, and buildtest.cpp only calls its library;
-- they are left out, as are the programs in other languages.
--
-- Undefined behaviour. An overflow in std::atoi and a callback of the libdatachannel server that sets an
-- ended promise have outcomes of their own. What the destructor of HttpSimpleServer reads when it is
-- called for the second time is a parameter. That the GStreamer handler reads a pointer that was never
-- set is an outcome, which the theorems about its client exclude. The use of a dead frame after a call
-- of CreatePeerConnection that ran out of time is a fault in PeerFactory/Wait and PeerFactory/Service;
-- HttpServer counts such a call as survived, and the theorems that say how its requests end exclude it.
pub mod Base
pub mod Capture
pub mod PeerFactory
pub mod HttpServer
pub mod DataChannel
pub mod Gstreamer
pub mod Interop
pub mod Tests
