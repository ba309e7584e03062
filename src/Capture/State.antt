-- ===== src/Capture/State.antt =====
-- The state of FakeAudioCaptureModule, its constants and its constructor
-- (libwebrtc/fake_audio_capture_module.h, lines 41 to 220, and the .cc file, lines 40 to 65).
use webrtc_echoes.Base.{ℕ, Bool, false, List, Option, none}

-- A sample is a uint16_t: a number below 65536. The two `char` arrays are read and written only as
-- arrays of samples, and are modelled so. A registered callback is known by its address.
-- `frames_received` is an int, `next_frame_time` an int64_t of milliseconds.
pub record Capture : Type 0 where
  pub audio_callback : Option ℕ
  pub recording : Bool
  pub playing : Bool
  pub play_is_initialized : Bool
  pub rec_is_initialized : Bool
  pub current_mic_level : ℕ
  pub started : Bool
  pub next_frame_time : ℕ
  pub rec_buffer : List ℕ
  pub send_buffer : List ℕ
  pub frames_received : ℕ

abbrev pub high_sample_value : ℕ
high_sample_value = 10000

abbrev pub time_per_frame_ms : ℕ
time_per_frame_ms = 10

abbrev pub max_volume : ℕ
max_volume = 14392

abbrev pub number_samples : ℕ
number_samples = 440

-- The constructor gives no value to the two buffers: `rec` and `send` are what the memory held.
abbrev pub construct : List ℕ → List ℕ → Capture
construct rec send = record {
  audio_callback = none;
  recording = false;
  playing = false;
  play_is_initialized = false;
  rec_is_initialized = false;
  current_mic_level = max_volume;
  started = false;
  next_frame_time = 0;
  rec_buffer = rec;
  send_buffer = send;
  frames_received = 0;
}
