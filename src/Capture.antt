-- ===== src/Capture.antt =====
-- The audio device that the libwebrtc peer hands to the WebRTC engine:
-- libwebrtc/fake_audio_capture_module.{h,cc}. The children hold its state and buffers, the calls of
-- the AudioDeviceModule interface, the processing of frames, and the proofs.
pub mod State
pub mod Buffers
pub mod Device
pub mod Frames
