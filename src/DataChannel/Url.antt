-- ===== src/DataChannel/Url.antt =====
-- The split of the server's URL (libdatachannel/client.cpp, lines 86 to 91).
use webrtc_echoes.Base.{
  ℕ, suc, ◌+◌, ◌≡◌, refl, ap, ◌∙◌, ◌⊎◌, inl, inr, Bool, true, false, Option, none, some, [], ◌∷◌,
  ◌++◌, arith, ◌==◌, if◌then◌else◌, Bool-cases, length, take, drop, any, take-append-drop,
  take-length, drop-length, Bytes, codes,
}

abbrev pub slash : ℕ
slash = b'/'

-- std::string::find_last_of with one character; none is npos.
unfoldable pub find_last_of : ℕ → Bytes → Option ℕ
find_last_of c [] = none
find_last_of c (x ∷ s) = elim (find_last_of c s) [
  | some n ↦ some (n + 1)
  | none ↦ if x == c then some 0 else none
]

abbrev cut : Bytes → Option ℕ → Option (Bytes × Bytes)
cut url none = none
cut url (some separator) = some (take separator url, drop separator url)

-- The server and the path, or none where the URL is refused.
unfoldable pub split_url : Bytes → Option (Bytes × Bytes)
unfolding find_last_of
split_url url = cut url (find_last_of slash url)

abbrev pub has : ℕ → Bytes → Bool
has c = any (λ x. x == c)

-- find_last_of finds the last occurrence, or says that there is none.
find_last_of_lem :
    (c : ℕ) (s : Bytes)
    → (find_last_of c s ≡ none × (has c s ≡ false))
      ⊎ ((n : ℕ) × (tail : Bytes) × (find_last_of c s ≡ some n)
          × (drop n s ≡ c ∷ tail)
          × (has c tail ≡ false)
          × (has c s ≡ true))
unfolding find_last_of
find_last_of_lem c [] = inl (refl, refl)
find_last_of_lem c (x ∷ s) = elim (find_last_of_lem c s) [
  | inr (n, tail, found, rest, clean, held) ↦
      inr (suc n, tail, ground (arith, found), rest, clean, ground (arith, held))
  | inl (missing, clean) ↦ elim (Bool-cases (x == c)) [
    | inl e ↦ inr (0, s, ground (arith, missing), ground arith, clean, ground arith)
    | inr e ↦ inl (ground (arith, missing), ground (arith, clean))
  ]
]

-- A URL without a slash is refused. Any other is split in two parts that make it up, of which the
-- second begins with the URL's last slash.
pub split_url_lem :
    (url : Bytes)
    → ((split_url url ≡ none) × (has slash url ≡ false))
      ⊎ ((server : Bytes) × (path : Bytes) × (tail : Bytes) × (split_url url ≡ some (server, path))
          × (server ++ path ≡ url)
          × (path ≡ slash ∷ tail)
          × (has slash tail ≡ false))
unfolding split_url
split_url_lem url = elim (find_last_of_lem slash url) [
  | inl (missing, clean) ↦ inl (ap (cut url) missing, clean)
  | inr (n, tail, found, rest, clean, held) ↦
      inr (take n url, drop n url, tail, ap (cut url) found, take-append-drop n url, rest, clean)
]

-- The URL of a server with no path after its host is accepted: it is cut inside its "://", and the
-- host becomes the path.
pub split_url_host :
    (host : Bytes)
    → has slash host ≡ false
    → split_url (codes "http://" ++ host) ≡ some (codes "http:/", slash ∷ host)
unfolding split_url find_last_of
split_url_host host clean = elim (find_last_of_lem slash host) [
  | inl (missing, none_left) ↦ ground (arith, missing)
  | inr (n, tail, found, rest, rest_clean, held) ↦ absurd (cc)
]

find_last_of-append :
    (front tail : Bytes)
    → find_last_of slash tail ≡ none
    → find_last_of slash (front ++ slash ∷ tail) ≡ some (length front)
unfolding find_last_of
find_last_of-append [] tail e = rw e refl
find_last_of-append (x ∷ front) tail e = ground (arith, find_last_of-append front tail e)

-- A URL whose last slash stands before `tail` is cut there.
pub split_url-append :
    (front tail : Bytes)
    → find_last_of slash tail ≡ none
    → split_url (front ++ slash ∷ tail) ≡ some (front, slash ∷ tail)
unfolding split_url
split_url-append front tail e =
    ap (cut (front ++ slash ∷ tail)) (find_last_of-append front tail e)
    ∙ rw (take-length front (slash ∷ tail), drop-length front (slash ∷ tail)) refl
