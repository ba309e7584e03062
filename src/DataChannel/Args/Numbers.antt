-- ===== src/DataChannel/Args/Numbers.antt =====
-- What std::atoi makes of a written number.
use webrtc_echoes.Base.{
  ℕ, ◌+◌, ◌*◌, ◌<◌, ◌≡◌, refl, ap, ◌∙◌, Bool, true, false, List, [], ◌∷◌, ◌++◌, append_assoc, arith,
  All, neg, pos, Bytes,
}
use webrtc_echoes.DataChannel.Args.{is_space, is_digit, digits_from, signed, atoi}

-- The number with these decimal digits, the last digit first.
abbrev pub number : List ℕ → ℕ
number [] = 0
number (d ∷ ds) = d + 10 * number ds

-- The digits as they are written, the last digit last.
abbrev pub digits_text : List ℕ → Bytes
digits_text [] = []
digits_text (d ∷ ds) = digits_text ds ++ (b'0' + d) ∷ []

abbrev pub starts_with_digit : Bytes → Bool
starts_with_digit [] = false
starts_with_digit (c ∷ s) = is_digit c

stops : (v : ℕ) (s : Bytes) → starts_with_digit s ≡ false → digits_from v s ≡ v
unfolding digits_from
stops v [] h = refl
stops v (c ∷ s) h = ground arith

digits_from-text :
    (ds : List ℕ) (rest : Bytes)
    → All (λ d. d < 10) ds
    → digits_from 0 (digits_text ds ++ rest) ≡ digits_from (number ds) rest
unfolding digits_from
digits_from-text [] rest h = refl
digits_from-text (d ∷ ds) rest (small, h) =
    ap (digits_from 0) (append_assoc (digits_text ds) ((b'0' + d) ∷ []) rest)
    ∙ digits_from-text ds ((b'0' + d) ∷ rest) h
    ∙ ground arith

digits_from-number :
    (ds : List ℕ) (rest : Bytes)
    → All (λ d. d < 10) ds
    → starts_with_digit rest ≡ false
    → digits_from 0 (digits_text ds ++ rest) ≡ number ds
digits_from-number ds rest h clean = digits_from-text ds rest h ∙ stops (number ds) rest clean

begins_with_digit :
    (d : ℕ) (ds : List ℕ) (rest : Bytes)
    → All (λ d. d < 10) (d ∷ ds)
    → starts_with_digit (digits_text (d ∷ ds) ++ rest) ≡ true
begins_with_digit d [] rest (small, h) = ground arith
begins_with_digit d (e ∷ ds) rest (small, h) =
    ap starts_with_digit (append_assoc (digits_text (e ∷ ds)) ((b'0' + d) ∷ []) rest)
    ∙ begins_with_digit e ds ((b'0' + d) ∷ rest) h

skip_spaces : (white s : Bytes) → All (λ c. is_space c ≡ true) white → atoi (white ++ s) ≡ atoi s
unfolding atoi
skip_spaces [] s h = refl
skip_spaces (c ∷ white) s (space, h) = rw (space, skip_spaces white s h)

atoi_digit : (s : Bytes) → starts_with_digit s ≡ true → atoi s ≡ pos (digits_from 0 s)
unfolding atoi signed
atoi_digit [] h = absurd (cc)
atoi_digit (c ∷ s) h = ground arith

-- Behind any white space, a number of at least one digit is read up to the first character that is no
-- digit, as itself, and negated if a minus sign stands before it.
pub atoi_lem :
    (white : Bytes) (d : ℕ) (ds : List ℕ) (rest : Bytes)
    → All (λ c. is_space c ≡ true) white
    → All (λ d. d < 10) (d ∷ ds)
    → starts_with_digit rest ≡ false
    → (atoi (white ++ (digits_text (d ∷ ds) ++ rest)) ≡ pos (number (d ∷ ds)))
      × (atoi (white ++ b'-' ∷ (digits_text (d ∷ ds) ++ rest)) ≡ neg (number (d ∷ ds)))
unfolding atoi signed
atoi_lem white d ds rest spaces small clean = (
  skip_spaces white (digits_text (d ∷ ds) ++ rest) spaces
      ∙ atoi_digit (digits_text (d ∷ ds) ++ rest) (begins_with_digit d ds rest small)
      ∙ ap pos (digits_from-number (d ∷ ds) rest small clean),
  skip_spaces white (b'-' ∷ (digits_text (d ∷ ds) ++ rest)) spaces
      ∙ ap neg (digits_from-number (d ∷ ds) rest small clean),
)
