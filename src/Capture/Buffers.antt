-- ===== src/Capture/Buffers.antt =====
-- The sample buffers of FakeAudioCaptureModule (libwebrtc/fake_audio_capture_module.cc, lines 71 to
-- 78 and 374 to 405).
pub mod Laws
use webrtc_echoes.Base.{
  ℕ, zero, suc, ◌+◌, ◌-◌, ◌%◌, Bool, true, false, List, replicate, get_or, set, ℤ, pos, negsuc, leb,
  if◌then◌else◌,
}
use webrtc_echoes.Capture.State.{Capture, number_samples, high_sample_value, construct}

-- The conversion of an int to uint16_t.
abbrev pub to_u16 : ℤ → ℕ
to_u16 (pos n) = n % 65536
to_u16 (negsuc n) = 65535 - n % 65536

-- `sample >= value`, where the sample is promoted to int.
abbrev pub at_least : ℤ → ℕ → Bool
at_least (pos v) s = leb v s
at_least (negsuc v) s = true

-- The loop of SetSendBuffer from index `i`, with the rounds left.
unfoldable pub fill : ℕ → ℕ → ℕ → List ℕ → List ℕ
fill zero i v buffer = buffer
fill (suc rounds) i v buffer = fill rounds (i + 1) v (set buffer i v)

unfoldable pub set_send_buffer : ℤ → Capture → Capture
set_send_buffer value s = record s {
  send_buffer = fill number_samples 0 (to_u16 value) s.send_buffer;
}

-- memset of the whole array.
unfoldable pub silence : List ℕ
silence = replicate number_samples 0

unfoldable pub reset_rec_buffer : Capture → Capture
reset_rec_buffer s = record s { rec_buffer = silence }

-- The loop of CheckRecBuffer from index `i`, with the rounds left.
pub check_from : ℕ → ℕ → ℤ → List ℕ → Bool
check_from zero i value buffer = false
check_from (suc rounds) i value buffer =
    let rest = check_from rounds (i + 1) value buffer in
    if at_least value (get_or buffer i 0) then true else rest

pub check_rec_buffer : ℤ → Capture → Bool
check_rec_buffer value s = check_from number_samples 0 value s.rec_buffer

-- Initialize and Create: Initialize always succeeds, so Create never returns null.
unfoldable pub initialize : Capture → Capture
initialize s = set_send_buffer (pos high_sample_value) s

unfoldable pub create : List ℕ → List ℕ → Capture
create rec send = initialize (construct rec send)
