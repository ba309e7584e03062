-- ===== src/Capture/Frames/Counting.antt =====
-- Which frames FakeAudioCaptureModule counts, and that it hears another module of its kind.
use webrtc_echoes.Base.{
  ℕ, suc, ◌+◌, ◌≡◌, Bool, true, some, List, [], ◌∷◌, arith, leb, if◌then◌else◌, length, replicate,
  any, All, length-replicate, pos,
}
use webrtc_echoes.Capture.State.{Capture, number_samples, high_sample_value}
use webrtc_echoes.Capture.Buffers.{silence, create}
use webrtc_echoes.Capture.Buffers.Laws.{check_rec_buffer_lem}
use webrtc_echoes.Capture.Device.Idle.{create_lem}
use webrtc_echoes.Capture.Frames.{
  Engine, receive_frame, receive_frame_from, send_frame, process_frame, process_frames,
}

-- What the engine delivers to a cleared buffer reaches the high value somewhere.
abbrev pub is_heard : ℕ → Engine → Bool
is_heard callback e = any (leb high_sample_value) (e.play callback silence)

abbrev pub count_heard : ℕ → List Engine → ℕ
count_heard callback [] = 0
count_heard callback (e ∷ es) =
    let rest = count_heard callback es in if is_heard callback e then rest + 1 else rest

-- An array keeps its size.
abbrev pub KeepsSize : ℕ → Engine → Type 0
KeepsSize callback e = length (e.play callback silence) ≡ number_samples

receive_frame_counted :
    (callback : ℕ) (e : Engine) (s : Capture)
    → s.audio_callback ≡ some callback
    → KeepsSize callback e
    → let t = receive_frame e s in
      (t.frames_received
        ≡ (if is_heard callback e then s.frames_received + 1 else s.frames_received))
      × (t.playing ≡ s.playing)
      × (t.audio_callback ≡ s.audio_callback)
unfolding receive_frame
receive_frame_counted callback e s h size =
    let pulled : Capture = record s { rec_buffer = e.play callback silence } in
    rw (h, receive_frame_from)
      (ground (arith, check_rec_buffer_lem (pos high_sample_value) pulled size))

process_frame_counted :
    (callback : ℕ) (e : Engine) (s : Capture)
    → s.audio_callback ≡ some callback
    → s.playing ≡ true
    → KeepsSize callback e
    → let t = (process_frame e s).0 in
      (t.frames_received
        ≡ (if is_heard callback e then s.frames_received + 1 else s.frames_received))
      × (t.playing ≡ true)
      × (t.audio_callback ≡ some callback)
unfolding process_frame send_frame
process_frame_counted callback e s h p size =
    let begun : Capture = record s { next_frame_time = e.first_time; started = true } in
    ground (
      arith,
      receive_frame_counted callback e s h size,
      receive_frame_counted callback e begun h size,
    )

-- With a callback registered and playout on, a run of frames, each of which keeps the size of the
-- buffer, adds to the count of received frames the number of frames whose delivered buffer reaches
-- the high sample value, whatever the receive buffer held before.
pub process_frames_counted :
    (callback : ℕ) (es : List Engine) (s : Capture)
    → s.audio_callback ≡ some callback
    → s.playing ≡ true
    → All (KeepsSize callback) es
    → (process_frames es s).frames_received ≡ s.frames_received + count_heard callback es
unfolding process_frames
process_frames_counted callback [] s h p sizes = omega arith
process_frames_counted callback (e ∷ es) s h p sizes =
    let one = process_frame_counted callback e s h p sizes.0 in
    let rest = process_frames_counted callback es (process_frame e s).0 one.2 one.1 sizes.1 in
    ground (arith, one.0, rest)

any-replicate : (n v : ℕ) → any (leb v) (replicate (suc n) v) ≡ true
any-replicate n v = ground arith

-- An engine that delivers what a created module sends is heard.
loopback-is_heard :
    (callback : ℕ) (rec send : List ℕ) (e : Engine)
    → length send ≡ number_samples
    → e.play callback silence ≡ (create rec send).send_buffer
    → (is_heard callback e ≡ true) × KeepsSize callback e
loopback-is_heard callback rec send e size loop =
    rw (loop, (create_lem rec send size).0)
      (any-replicate 439 high_sample_value, length-replicate number_samples high_sample_value)

-- A module that plays, with a callback through which every frame delivers the send buffer of a
-- module created with a send buffer of the declared size, counts every frame.
pub process_frames_loopback :
    (callback : ℕ) (rec send : List ℕ) (es : List Engine) (s : Capture)
    → length send ≡ number_samples
    → s.audio_callback ≡ some callback
    → s.playing ≡ true
    → All (λ e. e.play callback silence ≡ (create rec send).send_buffer) es
    → (process_frames es s).frames_received ≡ s.frames_received + length es
unfolding process_frames
process_frames_loopback callback rec send [] s size h p loops = omega arith
process_frames_loopback callback rec send (e ∷ es) s size h p loops =
    let (heard, keeps) = loopback-is_heard callback rec send e size loops.0 in
    let one = process_frame_counted callback e s h p keeps in
    let rest =
      process_frames_loopback callback rec send es (process_frame e s).0 size one.2 one.1 loops.1 in
    ground (arith, heard, one.0, rest)
