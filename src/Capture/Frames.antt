-- ===== src/Capture/Frames.antt =====
-- The processing of frames by FakeAudioCaptureModule (libwebrtc/fake_audio_capture_module.cc, lines
-- 417 to 483). No method of the interface calls StartProcessP or ProcessFrameP.
pub mod Counting
pub mod Signed
pub mod Limits
pub mod Timing
use webrtc_echoes.Base.{
  ℕ, ◌+◌, ◌-◌, true, not, Option, none, some, List, [], ◌∷◌, ltb, if◌then◌else◌, pos,
}
use webrtc_echoes.Capture.State.{Capture, high_sample_value, time_per_frame_ms}
use webrtc_echoes.Capture.Buffers.{reset_rec_buffer, check_rec_buffer}

-- What the engine does during one frame. NeedMorePlayData leaves in the buffer what `play` makes of
-- the callback and the buffer. RecordedDataIsAvailable leaves in the level, which it is given by
-- reference, what `level` makes of the callback, the samples and the level. The two clock readings
-- are those of rtc::TimeMillis.
pub record Engine : Type 0 where
  pub play : ℕ → List ℕ → List ℕ
  pub level : ℕ → List ℕ → ℕ → ℕ
  pub first_time : ℕ
  pub second_time : ℕ

pub receive_frame_from : Option ℕ → Engine → Capture → Capture
unfolding reset_rec_buffer
receive_frame_from none e s = s
receive_frame_from (some callback) e s =
    let cleared = reset_rec_buffer s in
    let pulled = record cleared { rec_buffer = e.play callback cleared.rec_buffer } in
    if check_rec_buffer (pos high_sample_value) pulled
    then record pulled { frames_received = pulled.frames_received + 1 }
    else pulled

pub receive_frame : Engine → Capture → Capture
unfolding receive_frame_from
receive_frame e s = receive_frame_from s.audio_callback e s

pub send_frame_from : Option ℕ → Engine → Capture → Capture
send_frame_from none e s = s
send_frame_from (some callback) e s = record s {
  current_mic_level = e.level callback s.send_buffer s.current_mic_level;
}

pub send_frame : Engine → Capture → Capture
unfolding send_frame_from
send_frame e s = send_frame_from s.audio_callback e s

abbrev begin_timing : Engine → Capture → Capture
begin_timing e s =
    if not s.started then record s { next_frame_time = e.first_time; started = true } else s

abbrev do_receive : Engine → Capture → Capture
do_receive e s = if s.playing then receive_frame e s else s

abbrev do_send : Engine → Capture → Capture
do_send e s = if s.recording then send_frame e s else s

-- The milliseconds that ProcessFrameP works out to the next frame, and drops.
pub wait_time : ℕ → ℕ → ℕ
wait_time next current = if ltb current next then next - current else 0

-- The second reading of the clock is used for the wait alone.
pub process_frame : Engine → Capture → Capture × ℕ
unfolding wait_time
process_frame e s =
    let exchanged = do_send e (do_receive e (begin_timing e s)) in
    let next = exchanged.next_frame_time + time_per_frame_ms in
    (record exchanged { next_frame_time = next }, wait_time next e.second_time)

pub start_process : Engine → Capture → Capture
unfolding process_frame
start_process e s = if s.started then s else (process_frame e s).0

-- One frame after another.
pub process_frames : List Engine → Capture → Capture
process_frames [] s = s
process_frames (e ∷ es) s = process_frames es (process_frame e s).0
