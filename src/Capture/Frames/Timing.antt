-- ===== src/Capture/Frames/Timing.antt =====
-- The times of frames: they do not drift.
use webrtc_echoes.Base.{◌+◌, ◌*◌, ◌≤◌, ◌≡◌, ◌⊎◌, true, false, List, [], ◌∷◌, arith, length}
use webrtc_echoes.Capture.State.{Capture}
use webrtc_echoes.Capture.Frames.{Engine, receive_frame, send_frame, process_frame, process_frames}

process_frame_started :
    (e : Engine) (s : Capture)
    → s.started ≡ true
    → ((process_frame e s).0.started ≡ true)
      × ((process_frame e s).0.next_frame_time ≡ s.next_frame_time + 10)
unfolding process_frame receive_frame send_frame
process_frame_started e s h = ground arith

process_frames_started :
    (es : List Engine) (s : Capture)
    → s.started ≡ true
    → ((process_frames es s).started ≡ true)
      × ((process_frames es s).next_frame_time ≡ s.next_frame_time + 10 * length es)
unfolding process_frames
process_frames_started [] s h = ground arith
process_frames_started (e ∷ es) s h =
    let one = process_frame_started e s h in
    ground (arith, process_frames_started es (process_frame e s).0 one.0)

-- From a module that has not started, however late the frames run, the time of the next one is the
-- first reading of the clock and ten milliseconds for each frame processed since.
pub process_frames_steady :
    (e : Engine) (es : List Engine) (s : Capture)
    → s.started ≡ false
    → (process_frames (e ∷ es) s).next_frame_time ≡ e.first_time + 10 * length (e ∷ es)
unfolding process_frames process_frame receive_frame send_frame
process_frames_steady e es s h = ground (arith, process_frames_started es (process_frame e s).0)

-- The wait brings the clock up to the time of the next frame, or is 0 where that time has passed.
process_frame-wait :
    (e : Engine) (s : Capture)
    → let (t, wait) = process_frame e s in
      ((wait ≡ 0) ⊎ (e.second_time + wait ≡ t.next_frame_time))
      × (t.next_frame_time ≤ e.second_time + wait)
unfolding process_frame receive_frame send_frame
process_frame-wait e s = ground arith
