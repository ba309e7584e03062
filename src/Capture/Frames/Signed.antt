-- ===== src/Capture/Frames/Signed.antt =====
-- The count of received frames (libwebrtc/fake_audio_capture_module.cc, lines 395 to 469) where the
-- delivered samples are the signed ones of PCM audio: a Sample is a uint16_t.
use webrtc_echoes.Base.{
  ℕ, ◌+◌, ◌-◌, ◌≡◌, refl, ap, ◌∙◌, Bool, true, some, List, [], ◌∷◌, arith, ltb, leb, if◌then◌else◌,
  any, All, ℤ, pos, negsuc,
}
use webrtc_echoes.Capture.State.{Capture, high_sample_value}
use webrtc_echoes.Capture.Buffers.{silence}
use webrtc_echoes.Capture.Frames.{Engine, process_frames}
use webrtc_echoes.Capture.Frames.Counting.{count_heard, KeepsSize, process_frames_counted}

-- The int16_t that has the bits of a sample.
abbrev pub as_int16 : ℕ → ℤ
as_int16 n = if ltb n 32768 then pos n else negsuc (65535 - n)

-- High, or below zero by however little.
abbrev pub is_high_or_negative : ℤ → Bool
is_high_or_negative (pos n) = leb high_sample_value n
is_high_or_negative (negsuc n) = true

is_high_or_negative-as_int16 : (n : ℕ) → is_high_or_negative (as_int16 n) ≡ leb high_sample_value n
is_high_or_negative-as_int16 n = ground arith

any-as_int16 :
    (samples : List ℕ)
    → any (leb high_sample_value) samples ≡ any (λ n. is_high_or_negative (as_int16 n)) samples
any-as_int16 [] = refl
any-as_int16 (n ∷ samples) = rw (is_high_or_negative-as_int16 n, any-as_int16 samples) refl

abbrev pub count_high_or_negative : ℕ → List Engine → ℕ
count_high_or_negative callback [] = 0
count_high_or_negative callback (e ∷ es) =
    let rest = count_high_or_negative callback es in
    if any (λ n. is_high_or_negative (as_int16 n)) (e.play callback silence) then rest + 1 else rest

count_heard-count_high_or_negative :
    (callback : ℕ) (es : List Engine) → count_heard callback es ≡ count_high_or_negative callback es
count_heard-count_high_or_negative callback [] = refl
count_heard-count_high_or_negative callback (e ∷ es) =
    ground (
      arith,
      any-as_int16 (e.play callback silence),
      count_heard-count_high_or_negative callback es,
    )

-- With a callback registered and playout on, a run of frames, each of which keeps the size of the
-- buffer, counts the frames that hold a sample which as a signed one is high or negative: one sample
-- just below zero is enough.
pub process_frames_signed :
    (callback : ℕ) (es : List Engine) (s : Capture)
    → s.audio_callback ≡ some callback
    → s.playing ≡ true
    → All (KeepsSize callback) es
    → (process_frames es s).frames_received ≡ s.frames_received + count_high_or_negative callback es
process_frames_signed callback es s h p sizes =
    process_frames_counted callback es s h p sizes
    ∙ ap (λ n. s.frames_received + n) (count_heard-count_high_or_negative callback es)
