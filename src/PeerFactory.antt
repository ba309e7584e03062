-- ===== src/PeerFactory.antt =====
-- PcFactory and the observers of a peer connection (libwebrtc/PcFactory.{h,cpp} and
-- libwebrtc/PcObserver.{h,cpp}).
pub mod Factory
pub mod Observer
pub mod Create
pub mod Wait
pub mod Call
pub mod Service
