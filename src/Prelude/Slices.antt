-- ===== src/Prelude/Slices.antt =====
-- Lists cut in two and put together again.
use Prim.Native.Nat.{ℕ, zero, suc, ◌-◌, ◌<◌, ◌≤◌}
use mathlib.Core.Path.{◌≡◌, refl, ap}
use mathlib.Core.List.{List, [], ◌∷◌, ◌++◌}
use native.Mathlib.Omega.{arith}
use hafnium_verification.Prelude.Lists.{length, get_elem?, take, drop}

-- Every element meets a predicate.
abbrev pub All {ℓ κ} : {A : Type ℓ} → (A → Type κ) → List A → Type κ
All P [] = Unit
All P (x ∷ xs) = P x × All P xs

module _ {ℓ} {A : Type ℓ} where
  pub length-take_le : (i : ℕ) (xs : List A) → i ≤ length xs → length (take i xs) ≡ i
  length-take_le zero xs h = refl
  length-take_le (suc i) [] h = absurd (omega arith)
  length-take_le (suc i) (x ∷ xs) h = ap suc (length-take_le i xs (omega arith))

  pub length-drop : (i : ℕ) (xs : List A) → length (drop i xs) ≡ length xs - i
  length-drop zero xs = omega arith
  length-drop (suc i) [] = omega arith
  length-drop (suc i) (x ∷ xs) = omega (arith, length-drop i xs)

  pub get_elem?-splice_lt :
      (i j : ℕ) (xs ys : List A)
      → j < i
      → i ≤ length xs
      → get_elem? (take i xs ++ ys) j ≡ get_elem? xs j
  get_elem?-splice_lt zero j xs ys h k = elim h [ ]
  get_elem?-splice_lt (suc i) j [] ys h k = absurd (omega arith)
  get_elem?-splice_lt (suc i) zero (x ∷ xs) ys h k = refl
  get_elem?-splice_lt (suc i) (suc j) (x ∷ xs) ys h k =
      get_elem?-splice_lt i j xs ys (omega arith) (omega arith)

  pub get_elem?-splice_ge :
      (i j : ℕ) (xs ys : List A)
      → i ≤ j
      → i ≤ length xs
      → get_elem? (take i xs ++ ys) j ≡ get_elem? ys (j - i)
  get_elem?-splice_ge zero j xs ys h k = ap (get_elem? ys) (let e : j ≡ j - 0 = omega arith in e)
  get_elem?-splice_ge (suc i) j [] ys h k = absurd (omega arith)
  get_elem?-splice_ge (suc i) zero (x ∷ xs) ys h k = absurd (omega arith)
  get_elem?-splice_ge (suc i) (suc j) (x ∷ xs) ys h k =
      let e : suc j - suc i ≡ j - i = omega arith in
      rw e (get_elem?-splice_ge i j xs ys (omega arith) (omega arith))

  pub get_elem?-drop :
      (i j : ℕ) (xs : List A) → i ≤ j → get_elem? (drop i xs) (j - i) ≡ get_elem? xs j
  get_elem?-drop zero j xs h = ap (get_elem? xs) (let e : j - 0 ≡ j = omega arith in e)
  get_elem?-drop (suc i) j [] h = refl
  get_elem?-drop (suc i) zero (x ∷ xs) h = absurd (omega arith)
  get_elem?-drop (suc i) (suc j) (x ∷ xs) h =
      let e : suc j - suc i ≡ j - i = omega arith in rw e (get_elem?-drop i j xs (omega arith))

module _ {ℓ κ} {A : Type ℓ} (P : A → Type κ) where
  pub take-All : (i : ℕ) (xs : List A) → All P xs → All P (take i xs)
  take-All zero xs h = tt
  take-All (suc i) [] h = tt
  take-All (suc i) (x ∷ xs) h = (h.0, take-All i xs h.1)

  pub drop-All : (i : ℕ) (xs : List A) → All P xs → All P (drop i xs)
  drop-All zero xs h = h
  drop-All (suc i) [] h = tt
  drop-All (suc i) (x ∷ xs) h = drop-All i xs h.1

  pub append-All : (xs ys : List A) → All P xs → All P ys → All P (xs ++ ys)
  append-All [] ys h k = k
  append-All (x ∷ xs) ys h k = (h.0, append-All xs ys h.1 k)
