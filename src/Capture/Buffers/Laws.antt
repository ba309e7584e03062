-- ===== src/Capture/Buffers/Laws.antt =====
-- The buffer loops of FakeAudioCaptureModule against descriptions of whole lists.
use webrtc_echoes.Base.{
  ℕ, ◌≡◌, refl, ◌∙◌, List, [], ◌∷◌, ◌++◌, append_assoc, arith, length, replicate, any, set-append,
  get_or-append, append-cons, length-snoc, ℤ,
}
use webrtc_echoes.Capture.State.{Capture, number_samples}
use webrtc_echoes.Capture.Buffers.{
  to_u16, at_least, fill, set_send_buffer, check_from, check_rec_buffer,
}

-- What the loop has passed, `seen`, stays; what it has not is overwritten.
fill_lem :
    (seen rest : List ℕ) (v : ℕ)
    → fill (length rest) (length seen) v (seen ++ rest) ≡ seen ++ replicate (length rest) v
unfolding fill
fill_lem seen [] v = refl
fill_lem seen (x ∷ rest) v =
    rw (fill, set-append seen rest x v, append-cons seen rest v, length-snoc seen v)
      (fill_lem (seen ++ v ∷ []) rest v ∙ append_assoc seen (v ∷ []) (replicate (length rest) v))

check_lem :
    (value : ℤ) (seen rest : List ℕ)
    → check_from (length rest) (length seen) value (seen ++ rest) ≡ any (at_least value) rest
unfolding check_from
check_lem value seen [] = refl
check_lem value seen (x ∷ rest) =
    rw (get_or-append seen rest x 0, append-cons seen rest x, length-snoc seen x)
      (ground (arith, check_lem value (seen ++ x ∷ []) rest))

fill_whole :
    (n : ℕ) (v : ℕ) (buffer : List ℕ) → length buffer ≡ n → fill n 0 v buffer ≡ replicate n v
fill_whole n v buffer size = rw (← size) (fill_lem [] buffer v)

check_whole :
    (n : ℕ) (value : ℤ) (buffer : List ℕ)
    → length buffer ≡ n
    → check_from n 0 value buffer ≡ any (at_least value) buffer
check_whole n value buffer size = rw (← size) (check_lem value [] buffer)

-- On an array of the declared size SetSendBuffer writes every sample, converted to uint16_t.
pub set_send_buffer_lem :
    (value : ℤ) (s : Capture)
    → length s.send_buffer ≡ number_samples
    → (set_send_buffer value s).send_buffer ≡ replicate number_samples (to_u16 value)
unfolding set_send_buffer
set_send_buffer_lem value s size = fill_whole number_samples (to_u16 value) s.send_buffer size

-- On an array of the declared size CheckRecBuffer says whether some sample reaches the value.
pub check_rec_buffer_lem :
    (value : ℤ) (s : Capture)
    → length s.rec_buffer ≡ number_samples
    → check_rec_buffer value s ≡ any (at_least value) s.rec_buffer
unfolding check_rec_buffer
check_rec_buffer_lem value s size = check_whole number_samples value s.rec_buffer size
