-- ===== src/Tests/Device.antt =====
-- The audio device at concrete inputs.
use webrtc_echoes.Base.{
  ℕ, ◌^◌, ◌<◌, ◌≡◌, refl, sym, true, false, some, List, [], ◌∷◌, arith, replicate, pos,
}
use webrtc_echoes.Capture.State.{Capture, number_samples, high_sample_value, construct}
use webrtc_echoes.Capture.Buffers.{
  silence, fill, set_send_buffer, check_rec_buffer, initialize, create,
}
use webrtc_echoes.Capture.Buffers.Laws.{check_rec_buffer_lem}
use webrtc_echoes.Capture.Device.Aborts.{is_gone, run-is_gone}
use webrtc_echoes.Capture.Device.{
  stream, init_playout, start_playout, init_recording, start_recording, playout_devices,
}
use webrtc_echoes.Capture.Device.History.{Call, stream_call, call, run, setup_call}
use webrtc_echoes.Capture.Device.Idle.{run-create_idle}
use webrtc_echoes.Capture.Device.Directions.{closed, view, meanings, IsValid, run-create_refines}
use webrtc_echoes.Capture.Frames.{Engine, process_frames}
use webrtc_echoes.Capture.Frames.Timing.{process_frames_steady}
use webrtc_echoes.Capture.Frames.Signed.{process_frames_signed}
use webrtc_echoes.Capture.Frames.Limits.{process_frames-fits}
use webrtc_echoes.Capture.Frames.Counting.{process_frames_loopback}

abbrev memory : List ℕ
memory = replicate number_samples 0

-- A history that starts both directions and stops one.
abbrev busy : List Call
busy =
    stream_call start_playout
    ∷ stream_call init_playout
    ∷ stream_call start_playout
    ∷ stream_call init_recording
    ∷ stream_call start_recording
    ∷ []

-- The state after it.
abbrev busy_state : Capture
unfolding create initialize set_send_buffer fill
busy_state = record (create memory memory) {
  recording = true;
  playing = true;
  play_is_initialized = true;
  rec_is_initialized = true;
}

busy_history : run false busy (create memory memory) ≡ some busy_state
unfolding run call stream create initialize set_send_buffer fill
busy_history = refl

run-create_idle_example :
    (busy_state.started ≡ false)
    × (busy_state.frames_received ≡ 0)
    × (busy_state.next_frame_time ≡ 0)
    × (busy_state.rec_buffer ≡ memory)
    × (busy_state.send_buffer ≡ replicate number_samples high_sample_value)
run-create_idle_example = run-create_idle false memory memory busy refl busy_history

run-create_refines_example :
    (view busy_state ≡ meanings busy (record { play = closed; record_side = closed }))
    × IsValid busy_state
run-create_refines_example = run-create_refines false memory memory busy busy_history

-- A build with debug checks does not survive a question for the number of devices.

-- An engine that plays the high value, or nothing.
abbrev frame : ℕ → ℕ → ℕ → Engine
frame value first second = record {
  play = λ callback buffer. replicate number_samples value;
  level = λ callback samples level. level;
  first_time = first;
  second_time = second;
}

abbrev playing_state : Capture
playing_state = record (construct memory memory) { audio_callback = some 1; playing = true }

run-is_gone_example :
    is_gone (run true (setup_call playout_devices ∷ []) (construct memory memory)) ≡ true
run-is_gone_example = run-is_gone true (setup_call playout_devices ∷ []) (construct memory memory)

process_frames_steady_example :
    (process_frames (frame 0 1000 1004 ∷ frame 0 1040 1041 ∷ []) playing_state).next_frame_time
    ≡ 1020
process_frames_steady_example =
    process_frames_steady (frame 0 1000 1004) (frame 0 1040 1041 ∷ []) playing_state refl

process_frames-fits_example :
    let t = process_frames (frame 10000 0 0 ∷ frame 9999 7 0 ∷ []) playing_state in
    (t.frames_received < 2 ^ 31) × (t.next_frame_time < 2 ^ 63)
process_frames-fits_example =
    process_frames-fits (frame 10000 0 0 ∷ frame 9999 7 0 ∷ []) playing_state 7
      (omega arith, (omega arith, tt)) (omega arith) (omega arith) (omega arith)

looped : (create memory memory).send_buffer ≡ replicate number_samples high_sample_value
unfolding create initialize set_send_buffer fill
looped = refl

-- A module hears another one.
heard : (process_frames (frame 10000 0 0 ∷ frame 10000 0 0 ∷ []) playing_state).frames_received ≡ 2
heard =
    process_frames_loopback 1 memory memory (frame 10000 0 0 ∷ frame 10000 0 0 ∷ []) playing_state
      refl refl refl (sym looped, (sym looped, tt))

-- A frame of samples just below zero is counted, and a quiet one above it is not.
process_frames_signed_example :
    (process_frames (frame 65535 0 0 ∷ frame 9999 0 0 ∷ []) playing_state).frames_received ≡ 1
unfolding silence
process_frames_signed_example =
    process_frames_signed 1 (frame 65535 0 0 ∷ frame 9999 0 0 ∷ []) playing_state refl refl
      (refl, (refl, tt))

silent : check_rec_buffer (pos 1) (construct memory memory) ≡ false
silent = check_rec_buffer_lem (pos 1) (construct memory memory) refl
