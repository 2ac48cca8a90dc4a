-- ===== src/Interrupts/Bits.antt =====
-- Words as lists of bits, the lowest first, and how many bits are set.
use hafnium_verification.Prelude.{
  ℕ, zero, suc, ◌≡◌, refl, ap, ◌+◌, ◌≤◌, ◌<◌, Bool, true, false, not, ◌&&◌, ◌||◌, List, [], ◌∷◌,
  some, get_elem?, arith, length,
}

abbrev pub replicate {ℓ} : {A : Type ℓ} → ℕ → A → List A
replicate zero x = []
replicate (suc n) x = x ∷ replicate n x

-- `&`, `|`, `!`, `1 << n` and `trailing_zeros`
abbrev pub land : List Bool → List Bool → List Bool
land [] bs = []
land (a ∷ xs) [] = []
land (a ∷ xs) (b ∷ bs) = (a && b) ∷ land xs bs

abbrev pub lor : List Bool → List Bool → List Bool
lor [] bs = []
lor (a ∷ xs) [] = []
lor (a ∷ xs) (b ∷ bs) = (a || b) ∷ lor xs bs

abbrev pub lnot : List Bool → List Bool
lnot [] = []
lnot (a ∷ xs) = not a ∷ lnot xs

abbrev pub one_hot : ℕ → ℕ → List Bool
one_hot zero n = []
one_hot (suc width) zero = true ∷ replicate width false
one_hot (suc width) (suc n) = false ∷ one_hot width n

abbrev pub is_zero : List Bool → Bool
is_zero [] = true
is_zero (a ∷ xs) = not a && is_zero xs

abbrev pub trailing_zeros : List Bool → ℕ
trailing_zeros [] = 0
trailing_zeros (true ∷ xs) = 0
trailing_zeros (false ∷ xs) = suc (trailing_zeros xs)

abbrev pub bit : Bool → ℕ
bit true = 1
bit false = 0

-- How many bits are set.
abbrev pub popcount : List Bool → ℕ
popcount [] = 0
popcount (a ∷ xs) = bit a + popcount xs

pub popcount_le : (xs : List Bool) → popcount xs ≤ length xs
popcount_le [] = omega arith
popcount_le (true ∷ xs) = omega (arith, popcount_le xs)
popcount_le (false ∷ xs) = omega (arith, popcount_le xs)

pub is_zero-popcount : (xs : List Bool) → is_zero xs ≡ true → popcount xs ≡ 0
is_zero-popcount [] h = refl
is_zero-popcount (true ∷ xs) h = ground (arith, h)
is_zero-popcount (false ∷ xs) h = omega (arith, is_zero-popcount xs h)

pub popcount-is_zero : (xs : List Bool) → is_zero xs ≡ false → 0 < popcount xs
popcount-is_zero [] h = ground (arith, h)
popcount-is_zero (true ∷ xs) h = omega arith
popcount-is_zero (false ∷ xs) h = omega (arith, popcount-is_zero xs h)

popcount-land_none : (xs : List Bool) (w : ℕ) → popcount (land xs (replicate w false)) ≡ 0
popcount-land_none [] w = refl
popcount-land_none (a ∷ xs) zero = refl
popcount-land_none (true ∷ xs) (suc w) = omega (arith, popcount-land_none xs w)
popcount-land_none (false ∷ xs) (suc w) = omega (arith, popcount-land_none xs w)

-- A mask of one bit takes at most one bit.
pub popcount-mask : (xs : List Bool) (w n : ℕ) → popcount (land xs (one_hot w n)) ≤ 1
popcount-mask [] w n = omega arith
popcount-mask (a ∷ xs) zero n = omega arith
popcount-mask (true ∷ xs) (suc w) zero = omega (arith, popcount-land_none xs w)
popcount-mask (false ∷ xs) (suc w) zero = omega (arith, popcount-land_none xs w)
popcount-mask (true ∷ xs) (suc w) (suc n) = omega (arith, popcount-mask xs w n)
popcount-mask (false ∷ xs) (suc w) (suc n) = omega (arith, popcount-mask xs w n)

-- Setting a bit of `b` adds that bit of what `a` has and `b` has not.
pub popcount-lor :
    (a b m : List Bool)
    → length a ≡ length m
    → length b ≡ length m
    → popcount (land a (lor b m)) ≡ popcount (land a b) + popcount (land (land a (lnot b)) m)
popcount-lor [] bs ms h k = refl
popcount-lor (a ∷ xs) [] [] h k = refl
popcount-lor (a ∷ xs) [] (m ∷ ms) h k = absurd (omega arith)
popcount-lor (a ∷ xs) (b ∷ bs) [] h k = absurd (omega arith)
popcount-lor (a ∷ xs) (b ∷ bs) (m ∷ ms) h k =
    let ih = popcount-lor xs bs ms (omega arith) (omega arith) in grind arith

pub land_comm : (a b : List Bool) → land a b ≡ land b a
land_comm [] [] = refl
land_comm [] (b ∷ bs) = refl
land_comm (a ∷ xs) [] = refl
land_comm (true ∷ xs) (true ∷ bs) = ap (λ cs. true ∷ cs) (land_comm xs bs)
land_comm (true ∷ xs) (false ∷ bs) = ap (λ cs. false ∷ cs) (land_comm xs bs)
land_comm (false ∷ xs) (true ∷ bs) = ap (λ cs. false ∷ cs) (land_comm xs bs)
land_comm (false ∷ xs) (false ∷ bs) = ap (λ cs. false ∷ cs) (land_comm xs bs)

-- Clearing a bit of `b` takes away that bit of what both have.
pub popcount-clear :
    (a b m : List Bool)
    → length a ≡ length m
    → length b ≡ length m
    → popcount (land a (land b (lnot m))) + popcount (land (land a b) m) ≡ popcount (land a b)
popcount-clear [] bs ms h k = refl
popcount-clear (a ∷ xs) [] ms h k = refl
popcount-clear (a ∷ xs) (b ∷ bs) [] h k = absurd (omega arith)
popcount-clear (a ∷ xs) (b ∷ bs) (m ∷ ms) h k =
    let ih = popcount-clear xs bs ms (omega arith) (omega arith) in grind arith

-- The lowest bit that is set is set.
pub popcount-lowest :
    (xs : List Bool) (w : ℕ)
    → length xs ≤ w
    → is_zero xs ≡ false
    → popcount (land xs (one_hot w (trailing_zeros xs))) ≡ 1
popcount-lowest [] w k h = ground (arith, h)
popcount-lowest (a ∷ xs) zero k h = absurd (omega arith)
popcount-lowest (true ∷ xs) (suc w) k h = omega (arith, popcount-land_none xs w)
popcount-lowest (false ∷ xs) (suc w) k h = omega (arith, popcount-lowest xs w (omega arith) h)

pub length-land : (a b : List Bool) → length a ≡ length b → length (land a b) ≡ length a
length-land [] b h = refl
length-land (a ∷ xs) [] h = absurd (omega arith)
length-land (a ∷ xs) (b ∷ bs) h = ap suc (length-land xs bs (omega arith))

pub length-lor : (a b : List Bool) → length a ≡ length b → length (lor a b) ≡ length a
length-lor [] b h = refl
length-lor (a ∷ xs) [] h = absurd (omega arith)
length-lor (a ∷ xs) (b ∷ bs) h = ap suc (length-lor xs bs (omega arith))

pub length-lnot : (a : List Bool) → length (lnot a) ≡ length a
length-lnot [] = refl
length-lnot (a ∷ xs) = ap suc (length-lnot xs)

pub length-replicate : (w : ℕ) (b : Bool) → length (replicate w b) ≡ w
length-replicate zero b = refl
length-replicate (suc w) b = ap suc (length-replicate w b)

pub length-one_hot : (w n : ℕ) → length (one_hot w n) ≡ w
length-one_hot zero n = refl
length-one_hot (suc w) zero = ap suc (length-replicate w false)
length-one_hot (suc w) (suc n) = ap suc (length-one_hot w n)

-- The lowest bit that is set lies in the word.
pub trailing_zeros_lt : (xs : List Bool) → is_zero xs ≡ false → trailing_zeros xs < length xs
trailing_zeros_lt [] h = ground (arith, h)
trailing_zeros_lt (true ∷ xs) h = omega arith
trailing_zeros_lt (false ∷ xs) h = omega (arith, trailing_zeros_lt xs h)

pub get_elem?-trailing_zeros :
    (xs : List Bool) → is_zero xs ≡ false → get_elem? xs (trailing_zeros xs) ≡ some true
get_elem?-trailing_zeros [] h = ground (arith, h)
get_elem?-trailing_zeros (true ∷ xs) h = refl
get_elem?-trailing_zeros (false ∷ xs) h = get_elem?-trailing_zeros xs h
