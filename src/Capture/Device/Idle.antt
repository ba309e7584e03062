-- ===== src/Capture/Device/Idle.antt =====
-- No history of interface calls starts the processing of frames.
use webrtc_echoes.Base.{
  ℕ, ◌≡◌, refl, ◌∙◌, Bool, false, some, List, [], ◌∷◌, arith, length, replicate, pos,
}
use webrtc_echoes.Capture.State.{Capture, construct, number_samples, high_sample_value}
use webrtc_echoes.Capture.Buffers.{create, initialize, set_send_buffer}
use webrtc_echoes.Capture.Buffers.Laws.{set_send_buffer_lem}
use webrtc_echoes.Capture.Device.{setup, stream, level, channel, built_in}
use webrtc_echoes.Capture.Device.History.{
  Call, setup_call, stream_call, level_call, channel_call, built_in_call, call, after, run,
  run-cons,
}

-- The state that frames move and interface calls do not.
pub record SameFrames (s t : Capture) : Type 0 where
  pub frames_received_kept : t.frames_received ≡ s.frames_received
  pub next_frame_time_kept : t.next_frame_time ≡ s.next_frame_time
  pub rec_buffer_kept : t.rec_buffer ≡ s.rec_buffer
  pub send_buffer_kept : t.send_buffer ≡ s.send_buffer
  pub started_kept : s.started ≡ false → t.started ≡ false

call-SameFrames :
    (dcheck : Bool) (c : Call) (s : Capture) {t : Capture}
    → after (call dcheck c s) ≡ some t
    → SameFrames s t
unfolding call setup stream level channel built_in
call-SameFrames dcheck (setup_call c) s h = ground arith
call-SameFrames dcheck (stream_call c) s h = ground arith
call-SameFrames dcheck (level_call c) s h = ground arith
call-SameFrames dcheck (channel_call c) s h = ground arith
call-SameFrames dcheck (built_in_call c) s h = ground arith

SameFrames-trans : {s t u : Capture} → SameFrames s t → SameFrames t u → SameFrames s u
SameFrames-trans h k = ground arith

run-SameFrames :
    (dcheck : Bool) (cs : List Call) (s : Capture) {t : Capture}
    → run dcheck cs s ≡ some t
    → SameFrames s t
unfolding run
run-SameFrames dcheck [] s h = ground arith
run-SameFrames dcheck (c ∷ cs) s h =
    let (u, first, rest) = run-cons dcheck c cs s h in
    SameFrames-trans (call-SameFrames dcheck c s first) (run-SameFrames dcheck cs u rest)

pub create_lem :
    (rec send : List ℕ)
    → length send ≡ number_samples
    → ((create rec send).send_buffer ≡ replicate number_samples high_sample_value)
      × ((create rec send).started ≡ false)
      × ((create rec send).frames_received ≡ 0)
      × ((create rec send).next_frame_time ≡ 0)
      × ((create rec send).rec_buffer ≡ rec)
unfolding create initialize set_send_buffer
create_lem rec send size =
    (set_send_buffer_lem (pos high_sample_value) (construct rec send) size, refl, refl, refl, refl)

-- After every history of interface calls that does not abort, on a module created with a send buffer
-- of the declared size, whether or not it plays or records, processing has not started, no frame has
-- been received or timed, the receive buffer is as the module found it, and the send buffer holds the
-- high sample value throughout.
pub run-create_idle :
    (dcheck : Bool) (rec send : List ℕ) (cs : List Call) {t : Capture}
    → length send ≡ number_samples
    → run dcheck cs (create rec send) ≡ some t
    → (t.started ≡ false)
      × (t.frames_received ≡ 0)
      × (t.next_frame_time ≡ 0)
      × (t.rec_buffer ≡ rec)
      × (t.send_buffer ≡ replicate number_samples high_sample_value)
run-create_idle dcheck rec send cs size h =
    let k = run-SameFrames dcheck cs (create rec send) h in
    let made = create_lem rec send size in
    (
      k.started_kept made.1,
      k.frames_received_kept ∙ made.2,
      k.next_frame_time_kept ∙ made.3,
      k.rec_buffer_kept ∙ made.4,
      k.send_buffer_kept ∙ made.0,
    )
