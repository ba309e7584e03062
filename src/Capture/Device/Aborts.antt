-- ===== src/Capture/Device/Aborts.antt =====
-- The calls that a build with debug checks does not survive.
use webrtc_echoes.Base.{
  ◌≡◌, inl, inr, Bool, true, false, ◌&&◌, Option, none, some, List, [], ◌∷◌, arith, Option-cases,
  any,
}
use webrtc_echoes.Capture.State.{Capture}
use webrtc_echoes.Capture.Device.{
  setup, stream, level, channel, built_in, active_audio_layer, initialized, playout_devices,
  recording_devices, playout_device_name, recording_device_name, playout_is_available,
  recording_is_available,
}
use webrtc_echoes.Capture.Device.History.{
  Call, setup_call, stream_call, level_call, channel_call, built_in_call, call, after, run,
}

-- The methods that the engine is not expected to call.
abbrev pub is_unexpected : Call → Bool
is_unexpected (setup_call active_audio_layer) = true
is_unexpected (setup_call initialized) = true
is_unexpected (setup_call playout_devices) = true
is_unexpected (setup_call recording_devices) = true
is_unexpected (setup_call (playout_device_name index)) = true
is_unexpected (setup_call (recording_device_name index)) = true
is_unexpected (stream_call playout_is_available) = true
is_unexpected (stream_call recording_is_available) = true
is_unexpected _ = false

abbrev pub is_gone : Option Capture → Bool
is_gone none = true
is_gone (some s) = false

call-is_gone :
    (dcheck : Bool) (c : Call) (s : Capture)
    → is_gone (after (call dcheck c s)) ≡ (dcheck && is_unexpected c)
unfolding call setup stream level channel built_in
call-is_gone dcheck (setup_call c) s = ground arith
call-is_gone dcheck (stream_call c) s = ground arith
call-is_gone dcheck (level_call c) s = ground arith
call-is_gone dcheck (channel_call c) s = ground arith
call-is_gone dcheck (built_in_call c) s = ground arith

-- A history ends the process exactly when the build has debug checks and some call of the history
-- is one of the unexpected ones, whatever the state.
pub run-is_gone :
    (dcheck : Bool) (cs : List Call) (s : Capture)
    → is_gone (run dcheck cs s) ≡ (dcheck && any is_unexpected cs)
unfolding run
run-is_gone dcheck [] s = ground arith
run-is_gone dcheck (c ∷ cs) s = elim (Option-cases (after (call dcheck c s))) [
  | inl e ↦ rw (e, run) (ground (arith, call-is_gone dcheck c s))
  | inr (u, e) ↦ rw (e, run) (ground (arith, call-is_gone dcheck c s, run-is_gone dcheck cs u))
]
