-- ===== src/Capture/Device/Directions.antt =====
-- The specification of the two directions of FakeAudioCaptureModule, playout and recording, as two
-- independent machines of three states, and the refinement of it by the interface calls.
use webrtc_echoes.Base.{
  ℕ, ◌≡◌, sym, ap, subst, ◌∙◌, Bool, true, some, some-injective, List, [], ◌∷◌, arith,
  if◌then◌else◌,
}
use webrtc_echoes.Capture.State.{Capture}
use webrtc_echoes.Capture.Buffers.{create, initialize, set_send_buffer}
use webrtc_echoes.Capture.Device.{
  setup, stream, level, channel, built_in, init_playout, start_playout, stop_playout,
  init_recording, start_recording, stop_recording,
}
use webrtc_echoes.Capture.Device.History.{
  Call, setup_call, stream_call, level_call, channel_call, built_in_call, call, after, run,
  run-cons,
}

pub data Direction : Type 0 where
  closed ready active : Direction

pub record Directions : Type 0 where
  pub play : Direction
  pub record_side : Direction

abbrev pub open_up : Direction → Direction
open_up closed = ready
open_up d = d

abbrev pub activate : Direction → Direction
activate ready = active
activate d = d

abbrev pub rest : Direction → Direction
rest active = ready
rest d = d

-- What a call means. All calls but six mean nothing.
abbrev pub meaning : Call → Directions → Directions
meaning (stream_call init_playout) d = record d { play = open_up d.play }
meaning (stream_call start_playout) d = record d { play = activate d.play }
meaning (stream_call stop_playout) d = record d { play = rest d.play }
meaning (stream_call init_recording) d = record d { record_side = open_up d.record_side }
meaning (stream_call start_recording) d = record d { record_side = activate d.record_side }
meaning (stream_call stop_recording) d = record d { record_side = rest d.record_side }
meaning _ d = d

abbrev pub meanings : List Call → Directions → Directions
meanings [] d = d
meanings (c ∷ cs) d = meanings cs (meaning c d)

abbrev pub direction : Bool → Bool → Direction
direction initialized on = if on then active else if initialized then ready else closed

abbrev pub view : Capture → Directions
view s = record {
  play = direction s.play_is_initialized s.playing;
  record_side = direction s.rec_is_initialized s.recording;
}

-- A direction that is on has been initialised.
pub record IsValid (s : Capture) : Type 0 where
  pub play_valid : s.playing ≡ true → s.play_is_initialized ≡ true
  pub record_valid : s.recording ≡ true → s.rec_is_initialized ≡ true

call-view :
    (dcheck : Bool) (c : Call) (s : Capture) {t : Capture}
    → IsValid s
    → after (call dcheck c s) ≡ some t
    → (view t ≡ meaning c (view s)) × IsValid t
unfolding call setup stream level channel built_in
call-view dcheck (setup_call c) s v h = ground arith
call-view dcheck (stream_call c) s v h = ground arith
call-view dcheck (level_call c) s v h = ground arith
call-view dcheck (channel_call c) s v h = ground arith
call-view dcheck (built_in_call c) s v h = ground arith

run-view :
    (dcheck : Bool) (cs : List Call) (s : Capture) {t : Capture}
    → IsValid s
    → run dcheck cs s ≡ some t
    → (view t ≡ meanings cs (view s)) × IsValid t
unfolding run
run-view dcheck [] s {t} v h = let e = some-injective s t h in (ap view (sym e), subst IsValid e v)
run-view dcheck (c ∷ cs) s v h =
    let (u, first, later) = run-cons dcheck c cs s h in
    let step = call-view dcheck c s v first in
    let all = run-view dcheck cs u step.1 later in (all.0 ∙ ap (meanings cs) step.0, all.1)

-- From a created module every history that does not abort takes the two directions where the
-- specification takes them from `closed`, and a direction that is on has been initialised.
pub run-create_refines :
    (dcheck : Bool) (rec send : List ℕ) (cs : List Call) {t : Capture}
    → run dcheck cs (create rec send) ≡ some t
    → (view t ≡ meanings cs (record { play = closed; record_side = closed })) × IsValid t
unfolding create initialize set_send_buffer
run-create_refines dcheck rec send cs h =
    run-view dcheck cs (create rec send) (record { play_valid = λ e. cc; record_valid = λ e. cc }) h
