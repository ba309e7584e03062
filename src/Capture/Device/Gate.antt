-- ===== src/Capture/Device/Gate.antt =====
-- Audio flows in a direction only after that direction was initialised and started.
use webrtc_echoes.Base.{ℕ, ◌≡◌, ◌⊎◌, Bool, true, some, List, arith}
use webrtc_echoes.Capture.State.{Capture}
use webrtc_echoes.Capture.Buffers.{create, initialize, set_send_buffer}
use webrtc_echoes.Capture.Device.{
  setup, stream, level, channel, built_in, init_playout, start_playout, init_recording,
  start_recording,
}
use webrtc_echoes.Capture.Device.History.{
  Call, setup_call, stream_call, level_call, channel_call, built_in_call, call, after, run, ordered,
  Ordered, run-StartsAfter,
}

play_init_from :
    (dcheck : Bool) (c : Call) (s : Capture) {t : Capture}
    → after (call dcheck c s) ≡ some t
    → t.play_is_initialized ≡ true
    → (s.play_is_initialized ≡ true) ⊎ (c ≡ stream_call init_playout)
unfolding call setup stream level channel built_in
play_init_from dcheck (setup_call c) s h k = ground arith
play_init_from dcheck (stream_call c) s h k = ground arith
play_init_from dcheck (level_call c) s h k = ground arith
play_init_from dcheck (channel_call c) s h k = ground arith
play_init_from dcheck (built_in_call c) s h k = ground arith

playing_from :
    (dcheck : Bool) (c : Call) (s : Capture) {t : Capture}
    → after (call dcheck c s) ≡ some t
    → t.playing ≡ true
    → (s.playing ≡ true) ⊎ ((c ≡ stream_call start_playout) × (s.play_is_initialized ≡ true))
unfolding call setup stream level channel built_in
playing_from dcheck (setup_call c) s h k = ground arith
playing_from dcheck (stream_call c) s h k = ground arith
playing_from dcheck (level_call c) s h k = ground arith
playing_from dcheck (channel_call c) s h k = ground arith
playing_from dcheck (built_in_call c) s h k = ground arith

rec_init_from :
    (dcheck : Bool) (c : Call) (s : Capture) {t : Capture}
    → after (call dcheck c s) ≡ some t
    → t.rec_is_initialized ≡ true
    → (s.rec_is_initialized ≡ true) ⊎ (c ≡ stream_call init_recording)
unfolding call setup stream level channel built_in
rec_init_from dcheck (setup_call c) s h k = ground arith
rec_init_from dcheck (stream_call c) s h k = ground arith
rec_init_from dcheck (level_call c) s h k = ground arith
rec_init_from dcheck (channel_call c) s h k = ground arith
rec_init_from dcheck (built_in_call c) s h k = ground arith

recording_from :
    (dcheck : Bool) (c : Call) (s : Capture) {t : Capture}
    → after (call dcheck c s) ≡ some t
    → t.recording ≡ true
    → (s.recording ≡ true) ⊎ ((c ≡ stream_call start_recording) × (s.rec_is_initialized ≡ true))
unfolding call setup stream level channel built_in
recording_from dcheck (setup_call c) s h k = ground arith
recording_from dcheck (stream_call c) s h k = ground arith
recording_from dcheck (level_call c) s h k = ground arith
recording_from dcheck (channel_call c) s h k = ground arith
recording_from dcheck (built_in_call c) s h k = ground arith

pub data Side : Type 0 where
  play_side record_side : Side

abbrev pub is_on : Side → Capture → Bool
is_on play_side s = s.playing
is_on record_side s = s.recording

abbrev pub init_call : Side → Call
init_call play_side = stream_call init_playout
init_call record_side = stream_call init_recording

abbrev pub start_call : Side → Call
start_call play_side = stream_call start_playout
start_call record_side = stream_call start_recording

module _ (dcheck : Bool) (rec send : List ℕ) (cs : List Call) {t : Capture} where
  run-create_playing :
      run dcheck cs (create rec send) ≡ some t
      → t.playing ≡ true
      → Ordered (stream_call init_playout) (stream_call start_playout) cs
  unfolding create initialize set_send_buffer
  run-create_playing h p =
      ordered (stream_call init_playout) (stream_call start_playout) cs (λ e. cc) (λ e. cc)
        (run-StartsAfter (λ s. s.playing ≡ true) (λ s. s.play_is_initialized ≡ true)
          (stream_call init_playout) (stream_call start_playout) dcheck
          (λ c s u. playing_from dcheck c s) (λ c s u. play_init_from dcheck c s) cs
          (create rec send) t h p)

  run-create_recording :
      run dcheck cs (create rec send) ≡ some t
      → t.recording ≡ true
      → Ordered (stream_call init_recording) (stream_call start_recording) cs
  unfolding create initialize set_send_buffer
  run-create_recording h p =
      ordered (stream_call init_recording) (stream_call start_recording) cs (λ e. cc) (λ e. cc)
        (run-StartsAfter (λ s. s.recording ≡ true) (λ s. s.rec_is_initialized ≡ true)
          (stream_call init_recording) (stream_call start_recording) dcheck
          (λ c s u. recording_from dcheck c s) (λ c s u. rec_init_from dcheck c s) cs
          (create rec send) t h p)

  -- If a created module plays or records after a history of interface calls, the history holds
  -- StartPlayout or StartRecording, and before that call InitPlayout or InitRecording.
  pub run-create_gated :
      (side : Side)
      → run dcheck cs (create rec send) ≡ some t
      → is_on side t ≡ true
      → Ordered (init_call side) (start_call side) cs
  run-create_gated play_side h p = run-create_playing h p
  run-create_gated record_side h p = run-create_recording h p
