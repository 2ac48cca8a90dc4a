-- ===== src/Text/Strings.antt =====
-- What the functions on strings compute.
use hafnium_verification.Prelude.{
  ℕ, zero, suc, ◌≡◌, refl, ◌<◌, ◌≤◌, none, some, [], ◌∷◌, ◌++◌, arith, length, All,
}
use hafnium_verification.Text.{Bytes, strnlen_s, position}

-- The bytes of a string before its NUL.
abbrev pub IsText : Bytes → Type 0
IsText = All (λ c. 0 < c)

abbrev pub IsBytes : Bytes → Type 0
IsBytes = All (λ c. c < 256)

-- A string ends at its NUL, unless the bound comes first.
pub strnlen_s-text :
    (s rest : Bytes) (n : ℕ) → IsText s → length s < n → strnlen_s (s ++ 0 ∷ rest) n ≡ length s
unfolding strnlen_s
strnlen_s-text [] rest zero h k = absurd (omega arith)
strnlen_s-text [] rest (suc n) h k = refl
strnlen_s-text (c ∷ s) rest zero h k = absurd (omega arith)
strnlen_s-text (c ∷ s) rest (suc n) h k =
    ground (arith, h.0, strnlen_s-text s rest n h.1 (omega arith))

pub position-text : (s rest : Bytes) → IsText s → position 0 (s ++ 0 ∷ rest) ≡ some (length s)
unfolding position
position-text [] rest h = refl
position-text (c ∷ s) rest h = ground (arith, h.0, position-text s rest h.1)

pub position-none : (s : Bytes) → IsText s → position 0 s ≡ none
unfolding position
position-none [] h = refl
position-none (c ∷ s) h = ground (arith, h.0, position-none s h.1)

-- A string without a NUL within the bound has the bound's length.
pub strnlen_s-long :
    (s rest : Bytes) (n : ℕ) → IsText s → n ≤ length s → strnlen_s (s ++ rest) n ≡ n
unfolding strnlen_s
strnlen_s-long s rest zero h k = refl
strnlen_s-long [] rest (suc n) h k = absurd (omega arith)
strnlen_s-long (c ∷ s) rest (suc n) h k =
    ground (arith, h.0, strnlen_s-long s rest n h.1 (omega arith))
