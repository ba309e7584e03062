-- ===== src/Interop.antt =====
-- The libdatachannel client (libdatachannel/client.cpp) with the servers on the other libraries.
pub mod Libwebrtc
pub mod Gst
pub mod Command
