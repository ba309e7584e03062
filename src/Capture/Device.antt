-- ===== src/Capture/Device.antt =====
-- The AudioDeviceModule interface of FakeAudioCaptureModule, every method of it
-- (libwebrtc/fake_audio_capture_module.cc, lines 80 to 372 and 407 to 415, and the methods that the
-- .h file defines, lines 130 to 141). The children prove what a history of calls can do.
pub mod History
pub mod Idle
pub mod Gate
pub mod Directions
pub mod Aborts
use webrtc_echoes.Base.{
  ℕ, Bool, true, false, not, ◌||◌, Option, some, none, ℤ, pos, negsuc, if◌then◌else◌,
}
use webrtc_echoes.Capture.State.{Capture, max_volume}

-- What a method gives back: its result, and what it writes through its pointer if it writes.
pub data Reply : Type 0 where
  status : ℤ → Reply
  flag : Bool → Reply
  status_flag : ℤ → Bool → Reply
  status_value : ℤ → ℕ → Reply
  count : ℕ → Reply
  default_stats : Reply

-- RTC_DCHECK_NOTREACHED ends the process in a build that has debug checks.
pub data Outcome : Type 0 where
  returns : Reply → Capture → Outcome
  aborts : Outcome

abbrev pub ok : Reply
ok = status (pos 0)

abbrev pub fail : Reply
fail = status (negsuc 0)

abbrev pub not_reached : Bool → Reply → Capture → Outcome
not_reached dcheck_is_on r s = if dcheck_is_on then aborts else returns r s

-- Lines 84 to 160.
pub data SetupCall : Type 0 where
  active_audio_layer init terminate initialized playout_devices recording_devices : SetupCall
  register_audio_callback : Option ℕ → SetupCall
  playout_device_name recording_device_name set_playout_device set_recording_device : ℕ → SetupCall
  set_playout_device_type set_recording_device_type : SetupCall

-- Lines 162 to 240.
pub data StreamCall : Type 0 where
  playout_is_available init_playout playout_is_initialized : StreamCall
  recording_is_available init_recording recording_is_initialized : StreamCall
  start_playout stop_playout playing start_recording stop_recording recording : StreamCall

-- Lines 242 to 306.
pub data LevelCall : Type 0 where
  init_speaker speaker_is_initialized init_microphone microphone_is_initialized : LevelCall
  speaker_volume_is_available speaker_volume max_speaker_volume min_speaker_volume : LevelCall
  set_speaker_volume set_microphone_volume : ℕ → LevelCall
  microphone_volume_is_available microphone_volume max_microphone_volume : LevelCall
  min_microphone_volume : LevelCall

-- Lines 308 to 372 and 80 to 82, and lines 130 to 141 of the header.
pub data ChannelCall : Type 0 where
  speaker_mute_is_available speaker_mute microphone_mute_is_available microphone_mute : ChannelCall
  set_speaker_mute set_microphone_mute set_stereo_playout set_stereo_recording : Bool → ChannelCall
  stereo_playout_is_available stereo_playout stereo_recording_is_available : ChannelCall
  stereo_recording playout_delay : ChannelCall

pub data BuiltInCall : Type 0 where
  built_in_aec_is_available built_in_agc_is_available built_in_ns_is_available : BuiltInCall
  enable_built_in_aec enable_built_in_agc enable_built_in_ns : Bool → BuiltInCall
  get_playout_underrun_count get_stats frames_received : BuiltInCall

pub should_start_processing : Capture → Bool
should_start_processing s = s.recording || s.playing

pub update_processing : Bool → Capture → Capture
update_processing start s = if not start then record s { started = false } else s

pub setup : Bool → SetupCall → Capture → Outcome
setup dcheck active_audio_layer s = not_reached dcheck ok s
setup dcheck (register_audio_callback callback) s =
    returns ok (record s { audio_callback = callback })
setup dcheck init s = returns ok s
setup dcheck terminate s = returns ok s
setup dcheck initialized s = not_reached dcheck (flag false) s
setup dcheck playout_devices s = not_reached dcheck ok s
setup dcheck recording_devices s = not_reached dcheck ok s
setup dcheck (playout_device_name index) s = not_reached dcheck ok s
setup dcheck (recording_device_name index) s = not_reached dcheck ok s
setup dcheck (set_playout_device index) s = returns ok s
setup dcheck set_playout_device_type s =
    if s.play_is_initialized then returns fail s else returns ok s
setup dcheck (set_recording_device index) s = returns ok s
setup dcheck set_recording_device_type s =
    if s.rec_is_initialized then returns fail s else returns ok s

pub start_playout_method : Capture → Outcome
unfolding update_processing
start_playout_method s =
    if not s.play_is_initialized
    then returns fail s
    else returns ok (update_processing true (record s { playing = true }))

pub stop_playout_method : Capture → Outcome
unfolding update_processing should_start_processing
stop_playout_method s =
    let stopped = record s { playing = false } in
    returns ok (update_processing (should_start_processing stopped) stopped)

pub start_recording_method : Capture → Outcome
unfolding update_processing
start_recording_method s =
    if not s.rec_is_initialized
    then returns fail s
    else returns ok (update_processing true (record s { recording = true }))

pub stop_recording_method : Capture → Outcome
unfolding update_processing should_start_processing
stop_recording_method s =
    let stopped = record s { recording = false } in
    returns ok (update_processing (should_start_processing stopped) stopped)

unfoldable pub stream : Bool → StreamCall → Capture → Outcome
unfolding start_playout_method stop_playout_method start_recording_method stop_recording_method
stream dcheck playout_is_available s = not_reached dcheck ok s
stream dcheck init_playout s = returns ok (record s { play_is_initialized = true })
stream dcheck playout_is_initialized s = returns (flag s.play_is_initialized) s
stream dcheck recording_is_available s = not_reached dcheck ok s
stream dcheck init_recording s = returns ok (record s { rec_is_initialized = true })
stream dcheck recording_is_initialized s = returns (flag s.rec_is_initialized) s
stream dcheck start_playout s = start_playout_method s
stream dcheck stop_playout s = stop_playout_method s
stream dcheck playing s = returns (flag s.playing) s
stream dcheck start_recording s = start_recording_method s
stream dcheck stop_recording s = stop_recording_method s
stream dcheck recording s = returns (flag s.recording) s

pub level : LevelCall → Capture → Outcome
level init_speaker s = returns ok s
level speaker_is_initialized s = returns (flag false) s
level init_microphone s = returns ok s
level microphone_is_initialized s = returns (flag false) s
level speaker_volume_is_available s = returns ok s
level (set_speaker_volume volume) s = returns ok s
level speaker_volume s = returns ok s
level max_speaker_volume s = returns ok s
level min_speaker_volume s = returns ok s
level microphone_volume_is_available s = returns ok s
level (set_microphone_volume volume) s = returns ok (record s { current_mic_level = volume })
level microphone_volume s = returns (status_value (pos 0) s.current_mic_level) s
level max_microphone_volume s = returns (status_value (pos 0) max_volume) s
level min_microphone_volume s = returns ok s

pub channel : ChannelCall → Capture → Outcome
channel speaker_mute_is_available s = returns ok s
channel (set_speaker_mute enable) s = returns ok s
channel speaker_mute s = returns ok s
channel microphone_mute_is_available s = returns ok s
channel (set_microphone_mute enable) s = returns ok s
channel microphone_mute s = returns ok s
channel stereo_playout_is_available s = returns (status_flag (pos 0) true) s
channel (set_stereo_playout enable) s = returns ok s
channel stereo_playout s = returns ok s
channel stereo_recording_is_available s = returns (status_flag (pos 0) false) s
channel (set_stereo_recording enable) s = if not enable then returns ok s else returns fail s
channel stereo_recording s = returns ok s
channel playout_delay s = returns (status_value (pos 0) 0) s

pub built_in : BuiltInCall → Capture → Outcome
built_in built_in_aec_is_available s = returns (flag false) s
built_in (enable_built_in_aec enable) s = returns fail s
built_in built_in_agc_is_available s = returns (flag false) s
built_in (enable_built_in_agc enable) s = returns fail s
built_in built_in_ns_is_available s = returns (flag false) s
built_in (enable_built_in_ns enable) s = returns fail s
built_in get_playout_underrun_count s = returns fail s
built_in get_stats s = returns default_stats s
built_in frames_received s = returns (count s.frames_received) s
