-- ===== src/DataChannel.antt =====
-- The libdatachannel peers: the client (libdatachannel/client.cpp) and the server
-- (libdatachannel/server.cpp).
pub mod Url
pub mod Random
pub mod Args
pub mod Client
pub mod Server
pub mod Echo
pub mod Post
pub mod Handshake
pub mod Interop
