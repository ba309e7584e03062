-- ===== src/Gstreamer.antt =====
-- The GStreamer echo server (gstreamer/gstreamer-webrtc-echo.c).
pub mod Pipeline
pub mod Handler
pub mod Negotiation
pub mod Notices
pub mod Program
pub mod Service
