-- ===== src/Capture/Frames/Limits.antt =====
-- The machine integers of the frames (libwebrtc/fake_audio_capture_module.cc, lines 425 to 469):
-- frames_received_ is an int, and next_frame_time_ an int64_t of milliseconds.
use webrtc_echoes.Base.{
  ℕ, ◌+◌, ◌*◌, ◌^◌, ◌≤◌, ◌<◌, Option, none, some, List, [], ◌∷◌, arith, length, All,
}
use webrtc_echoes.Capture.State.{Capture}
use webrtc_echoes.Capture.Frames.{
  Engine, receive_frame_from, send_frame_from, receive_frame, send_frame, process_frame,
  process_frames,
}

receive_frame_from_limits :
    (callback : Option ℕ) (e : Engine) (s : Capture)
    → let t = receive_frame_from callback e s in
      (t.frames_received ≤ s.frames_received + 1) × (t.next_frame_time ≤ s.next_frame_time)
unfolding receive_frame_from
receive_frame_from_limits none e s = ground arith
receive_frame_from_limits (some callback) e s = ground arith

send_frame_from_limits :
    (callback : Option ℕ) (e : Engine) (s : Capture)
    → let t = send_frame_from callback e s in
      (t.frames_received ≤ s.frames_received) × (t.next_frame_time ≤ s.next_frame_time)
unfolding send_frame_from
send_frame_from_limits none e s = ground arith
send_frame_from_limits (some callback) e s = ground arith

process_frame_limits :
    (e : Engine) (s : Capture) (latest : ℕ)
    → e.first_time ≤ latest
    → s.next_frame_time ≤ latest
    → let t = (process_frame e s).0 in
      (t.frames_received ≤ s.frames_received + 1) × (t.next_frame_time ≤ latest + 10)
unfolding process_frame receive_frame send_frame
process_frame_limits e s latest first next = ground arith

-- The bounds move on with each frame.
process_frames_limits :
    (es : List Engine) (s : Capture) (latest : ℕ)
    → All (λ e. e.first_time ≤ latest) es
    → s.next_frame_time ≤ latest
    → let t = process_frames es s in
      (t.frames_received ≤ s.frames_received + length es)
      × (t.next_frame_time ≤ latest + 10 * length es)
unfolding process_frames
process_frames_limits [] s latest firsts next = (omega arith, omega arith)
process_frames_limits (e ∷ es) s latest firsts next =
    let (count, time) = process_frame_limits e s latest firsts.0 next in
    let (counts, times) =
      process_frames_limits es (process_frame e s).0 (latest + 10) (later es firsts.1) time in
    (omega (arith, count, counts), omega (arith, times))
  where
    later :
        (es : List Engine)
        → All (λ e. e.first_time ≤ latest) es
        → All (λ e. e.first_time ≤ latest + 10) es
    later [] h = tt
    later (e ∷ es) h = (omega (arith, h.0), later es h.1)

-- Far enough from the limits of int and int64_t nothing overflows, whatever the engine delivers: a run
-- of frames raises the count of received frames by their number at most, and with clock readings up to
-- a latest one it takes the time of the next frame ten milliseconds per frame beyond that at most.
pub process_frames-fits :
    (es : List Engine) (s : Capture) (latest : ℕ)
    → All (λ e. e.first_time ≤ latest) es
    → s.next_frame_time ≤ latest
    → s.frames_received + length es < 2 ^ 31
    → latest + 10 * length es < 2 ^ 63
    → let t = process_frames es s in (t.frames_received < 2 ^ 31) × (t.next_frame_time < 2 ^ 63)
process_frames-fits es s latest firsts next frames times =
    let (count, time) = process_frames_limits es s latest firsts next in
    (omega (arith, count), omega (arith, time))
