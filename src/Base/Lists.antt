-- ===== src/Base/Lists.antt =====
-- Lists measured and indexed by native numbers, under the library's names.
use Prim.Native.Nat.{ℕ, zero, suc, ◌+◌, ◌<◌}
use mathlib.Core.Path.{◌≡◌, refl, ap}
use mathlib.Core.Bool.{Bool, false, ◌||◌}
use mathlib.Core.List.{List, [], ◌∷◌, ◌++◌, append-nil, append_assoc}
use mathlib.Core.Option.{Option, none, some}
use native.Mathlib.Omega.{arith}

module _ {ℓ} {A : Type ℓ} where
  abbrev pub length : List A → ℕ
  length [] = 0
  length (x ∷ xs) = suc (length xs)

  abbrev pub get_elem? : List A → ℕ → Option A
  get_elem? [] i = none
  get_elem? (x ∷ xs) zero = some x
  get_elem? (x ∷ xs) (suc i) = get_elem? xs i

  abbrev pub get_or : List A → ℕ → A → A
  get_or [] i d = d
  get_or (x ∷ xs) zero d = x
  get_or (x ∷ xs) (suc i) d = get_or xs i d

  -- A write out of bounds changes nothing.
  abbrev pub set : List A → ℕ → A → List A
  set [] i v = []
  set (x ∷ xs) zero v = v ∷ xs
  set (x ∷ xs) (suc i) v = x ∷ set xs i v

  abbrev pub take : ℕ → List A → List A
  take zero xs = []
  take (suc n) [] = []
  take (suc n) (x ∷ xs) = x ∷ take n xs

  abbrev pub drop : ℕ → List A → List A
  drop zero xs = xs
  drop (suc n) [] = []
  drop (suc n) (x ∷ xs) = drop n xs

  abbrev pub replicate : ℕ → A → List A
  replicate zero a = []
  replicate (suc n) a = a ∷ replicate n a

  abbrev pub any : (A → Bool) → List A → Bool
  any p [] = false
  any p (x ∷ xs) = p x || any p xs

  abbrev pub All {κ} : (A → Type κ) → List A → Type κ
  All P [] = Unit
  All P (x ∷ xs) = P x × All P xs

module _ {ℓ} {A : Type ℓ} where
  pub length-append : (xs ys : List A) → length (xs ++ ys) ≡ length xs + length ys
  length-append [] ys = omega arith
  length-append (x ∷ xs) ys = omega (arith, length-append xs ys)

  pub length-replicate : (n : ℕ) (a : A) → length (replicate n a) ≡ n
  length-replicate zero a = refl
  length-replicate (suc n) a = ap suc (length-replicate n a)

  pub take-append-drop : (n : ℕ) (xs : List A) → take n xs ++ drop n xs ≡ xs
  take-append-drop zero xs = refl
  take-append-drop (suc n) [] = refl
  take-append-drop (suc n) (x ∷ xs) = ap (◌∷◌ x) (take-append-drop n xs)

  pub take-all : (xs : List A) → take (length xs) xs ≡ xs
  take-all [] = refl
  take-all (x ∷ xs) = ap (◌∷◌ x) (take-all xs)

  pub take-length : (xs ys : List A) → take (length xs) (xs ++ ys) ≡ xs
  take-length [] ys = refl
  take-length (x ∷ xs) ys = ap (◌∷◌ x) (take-length xs ys)

  pub drop-length : (xs ys : List A) → drop (length xs) (xs ++ ys) ≡ ys
  drop-length [] ys = refl
  drop-length (x ∷ xs) ys = drop-length xs ys

-- For simp: lists joined, without what is empty and bracketed to the right.
pub ruleset list_laws = (append-nil, append_assoc)

-- A list cut at one element, which is what a loop over indices sees.
module _ {ℓ} {A : Type ℓ} where
  pub set-append :
      (seen rest : List A) (x v : A) → set (seen ++ x ∷ rest) (length seen) v ≡ seen ++ v ∷ rest
  set-append [] rest x v = refl
  set-append (y ∷ seen) rest x v = ap (◌∷◌ y) (set-append seen rest x v)

  pub get_or-append : (seen rest : List A) (x d : A) → get_or (seen ++ x ∷ rest) (length seen) d ≡ x
  get_or-append [] rest x d = refl
  get_or-append (y ∷ seen) rest x d = get_or-append seen rest x d

  pub get_elem?-append :
      (seen rest : List A) (x : A) → get_elem? (seen ++ x ∷ rest) (length seen) ≡ some x
  get_elem?-append [] rest x = refl
  get_elem?-append (y ∷ seen) rest x = get_elem?-append seen rest x

  pub append-cons : (seen rest : List A) (x : A) → seen ++ x ∷ rest ≡ (seen ++ x ∷ []) ++ rest
  append-cons [] rest x = refl
  append-cons (y ∷ seen) rest x = ap (◌∷◌ y) (append-cons seen rest x)

  pub length-snoc : (seen : List A) (x : A) → length seen + 1 ≡ length (seen ++ x ∷ [])
  length-snoc seen x = omega (arith, length-append seen (x ∷ []))

module _ {ℓ κ} {A : Type ℓ} (P : A → Type κ) where
  -- What holds of all elements holds of the one at an index in range.
  pub All-get_or : (xs : List A) (i : ℕ) (d : A) → All P xs → i < length xs → P (get_or xs i d)
  All-get_or [] i d h b = absurd (omega arith)
  All-get_or (x ∷ xs) zero d h b = h.0
  All-get_or (x ∷ xs) (suc i) d h b = All-get_or xs i d h.1 (omega arith)
