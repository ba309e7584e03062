-- ===== src/DataChannel/Random.antt =====
-- randomString (libdatachannel/client.cpp, lines 37 to 44). The generator is the standard library's
-- uniform_int_distribution over the random device: `draw` gives its n-th draw, which lies between 0
-- and the last index of the alphabet.
use webrtc_echoes.Base.{
  ℕ, zero, suc, ◌+◌, ◌<◌, ◌≡◌, refl, ap, Bool, true, ◌&&◌, ◌||◌, [], ◌∷◌, arith, leb, length,
  get_or, All, All-get_or, Bytes, codes,
}

abbrev pub alphabet : Bytes
alphabet = codes "0123456789abcdefghijklmnopqrstuvwxyz"

-- std::generate over a string of `left` characters, from the n-th draw on.
unfoldable pub generate : (ℕ → ℕ) → ℕ → ℕ → Bytes
generate draw n zero = []
generate draw n (suc left) = get_or alphabet (draw n) 0 ∷ generate draw (n + 1) left

unfoldable pub random_string : (ℕ → ℕ) → ℕ → Bytes
unfolding generate
random_string draw length = generate draw 0 length

abbrev pub is_digit_or_lower : ℕ → Bool
is_digit_or_lower c = (leb b'0' c && leb c b'9') || (leb b'a' c && leb c b'z')

abbrev all_allowed : Bytes → Bool
all_allowed [] = true
all_allowed (c ∷ s) = is_digit_or_lower c && all_allowed s

all_allowed_lem : (s : Bytes) → all_allowed s ≡ true → All (λ c. is_digit_or_lower c ≡ true) s
all_allowed_lem [] h = tt
all_allowed_lem (c ∷ s) h = (ground arith, all_allowed_lem s (ground arith))

alphabet_allowed : All (λ c. is_digit_or_lower c ≡ true) alphabet
alphabet_allowed = all_allowed_lem alphabet refl

generate_lem :
    (draw : ℕ → ℕ) (n left : ℕ)
    → ((i : ℕ) → draw i < length alphabet)
    → (length (generate draw n left) ≡ left)
      × All (λ c. is_digit_or_lower c ≡ true) (generate draw n left)
unfolding generate
generate_lem draw n zero range = (refl, tt)
generate_lem draw n (suc left) range =
    let (size, rest) = generate_lem draw (n + 1) left range in
    (
      ap suc size,
      (
        All-get_or (λ c. is_digit_or_lower c ≡ true) alphabet (draw n) 0 alphabet_allowed (range n),
        rest,
      ),
    )

-- With draws in the range that the distribution promises, the random string has the length asked for
-- and holds digits and lower-case letters alone.
pub random_string_lem :
    (draw : ℕ → ℕ) (size : ℕ)
    → ((i : ℕ) → draw i < length alphabet)
    → (length (random_string draw size) ≡ size)
      × All (λ c. is_digit_or_lower c ≡ true) (random_string draw size)
unfolding random_string
random_string_lem draw size range = generate_lem draw 0 size range
