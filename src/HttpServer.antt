-- ===== src/HttpServer.antt =====
-- HttpSimpleServer and the main program of the libwebrtc peer (libwebrtc/HttpSimpleServer.{h,cpp} and
-- libwebrtc/libwebrtc-webrtc-echo.cpp).
pub mod Handler
pub mod Lifecycle
