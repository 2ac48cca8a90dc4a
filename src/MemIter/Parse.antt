-- ===== src/MemIter/Parse.antt =====
-- What the iterators read from a text of blanks, words and numbers.
use mathlib.Core.List.{foldl}
use hafnium_verification.Prelude.{
  ℕ, suc, ◌≡◌, refl, ap, ◌+◌, ◌-◌, ◌*◌, ◌%◌, ◌<◌, ◌≤◌, ◌≢◌, ◌↔◌, true, false, none, some, [], ◌∷◌,
  ◌++◌, arith, length, All, take, drop, leb, ◌==◌, if◌then◌else◌, word, Bool-cases, ==_iff, inl,
  inr,
}
use hafnium_verification.Text.{Bytes, memcmp_rs}
use hafnium_verification.Text.Strings.{IsText, IsBytes, strnlen_s-text, strnlen_s-long}
use native.Mathlib.Decide.{dec_lt}
use hafnium_verification.MemIter.{
  MemIter, at, len, get_limit, is_space, as_digit, skip_space, skip_word, parse_str, parse_digits,
  parse_uint, advance, iseq,
}

abbrev pub IsBlank : Bytes → Type 0
IsBlank = All (λ c. is_space c ≡ true)

abbrev pub IsWord : Bytes → Type 0
IsWord = All (λ c. is_space c ≡ false)

abbrev pub IsNumeral : Bytes → Type 0
IsNumeral = All (λ c. (48 ≤ c) × (c ≤ 57))

-- The bytes behind a piece of the text begin with one that ends it.
abbrev pub StartsWith : (ℕ → Type 0) → Bytes → Type 0
StartsWith P [] = Unit
StartsWith P (c ∷ _) = P c

-- The number that the digits spell, with no bound.
abbrev pub spelled : ℕ → Bytes → ℕ
spelled = foldl (λ value c. value * 10 + (c - 48))

pub take-append : (xs ys : Bytes) → take (length xs) (xs ++ ys) ≡ xs
take-append [] ys = refl
take-append (x ∷ xs) ys = ap (◌∷◌ x) (take-append xs ys)

skip_space-blank :
    (ws rest : Bytes) (p : ℕ)
    → IsBlank ws
    → StartsWith (λ c. is_space c ≡ false) rest
    → skip_space p (ws ++ rest) ≡ at (p + length ws) rest
unfolding skip_space
skip_space-blank [] [] p h k = let e : p + 0 ≡ p = omega arith in rw e refl
skip_space-blank [] (c ∷ rest) p h k = let e : p + 0 ≡ p = omega arith in rw (k, e) refl
skip_space-blank (w ∷ ws) rest p h k =
    let e : p + suc (length ws) ≡ p + 1 + length ws = omega arith in
    rw (h.0, e) (skip_space-blank ws rest (p + 1) h.1 k)

skip_word-word :
    (ws rest : Bytes) (p : ℕ)
    → IsWord ws
    → StartsWith (λ c. is_space c ≡ true) rest
    → skip_word p (ws ++ rest) ≡ at (p + length ws) rest
unfolding skip_word
skip_word-word [] [] p h k = let e : p + 0 ≡ p = omega arith in rw e refl
skip_word-word [] (c ∷ rest) p h k = let e : p + 0 ≡ p = omega arith in rw (k, e) refl
skip_word-word (w ∷ ws) rest p h k =
    let e : p + suc (length ws) ≡ p + 1 + length ws = omega arith in
    rw (h.0, e) (skip_word-word ws rest (p + 1) h.1 k)

-- A text of blanks, a word and something that ends the word is read as the word, where it stands, and
-- the iterator stops right behind the word.
pub parse_str-word :
    (p : ℕ) (ws s rest : Bytes)
    → IsBlank ws
    → s ≢ []
    → IsWord s
    → StartsWith (λ c. is_space c ≡ true) rest
    → parse_str (at p (ws ++ (s ++ rest)))
      ≡ (some (at (p + length ws) s), at (p + length ws + length s) rest)
unfolding parse_str
parse_str-word p ws [] rest blank ne solid ends = absurd (ne refl)
parse_str-word p ws (c ∷ s) rest blank ne solid ends =
    let q = p + length ws in
    let size : q + suc (length s) - q ≡ suc (length s) = omega arith in
    let found : (suc (length s) == 0) ≡ false = ground arith in
    rw
      (
        parse_str,
        skip_space-blank ws (c ∷ (s ++ rest)) p blank solid.0,
        skip_word-word (c ∷ s) rest q solid ends,
        size,
        take-append s rest,
        found,
      )
      refl

-- A text of blanks only holds no string, and the iterator stops at the limit.
pub parse_str-blank :
    (p : ℕ) (ws : Bytes) → IsBlank ws → parse_str (at p (ws ++ [])) ≡ (none, at (p + length ws) [])
unfolding parse_str skip_word
parse_str-blank p ws blank =
    let size : p + length ws - (p + length ws) ≡ 0 = omega arith in
    rw (skip_space-blank ws [] p blank tt, size) refl

as_digit-numeral : (d : ℕ) → 48 ≤ d → d ≤ 57 → as_digit d ≡ some (d - 48)
unfolding as_digit
as_digit-numeral d h k = ground arith

parse_digits-numeral :
    (ds rest : Bytes) (value total p : ℕ)
    → IsNumeral ds
    → StartsWith (λ c. as_digit c ≡ none) rest
    → value ≡ total % word
    → parse_digits value p (ds ++ rest) ≡ (spelled total ds % word, at (p + length ds) rest)
unfolding parse_digits
parse_digits-numeral [] [] value total p h k e = let a : p + 0 ≡ p = omega arith in rw (a, e) refl
parse_digits-numeral [] (c ∷ rest) value total p h k e =
    let a : p + 0 ≡ p = omega arith in rw (parse_digits, k, a, e) refl
parse_digits-numeral (d ∷ ds) rest value total p h k e =
    let digit = as_digit-numeral d h.0.0 h.0.1 in
    let place : p + suc (length ds) ≡ p + 1 + length ds = omega arith in
    rw (parse_digits, digit, place)
      (parse_digits-numeral ds rest _ (total * 10 + (d - 48)) (p + 1) h.1 k (rw e (omega arith)))

-- A text of blanks, a numeral and something that ends the numeral is read as the number that the
-- numeral spells modulo 2 ^ 64, and the iterator stops right behind the numeral.
pub parse_uint-numeral :
    (p : ℕ) (ws ds rest : Bytes)
    → IsBlank ws
    → ds ≢ []
    → IsNumeral ds
    → StartsWith (λ c. as_digit c ≡ none) rest
    → parse_uint (at p (ws ++ (ds ++ rest)))
      ≡ (some (spelled 0 ds % word), at (p + length ws + length ds) rest)
unfolding parse_uint
parse_uint-numeral p ws [] rest blank ne digits ends = absurd (ne refl)
parse_uint-numeral p ws (d ∷ ds) rest blank ne digits ends =
    let q = p + length ws in
    let solid : is_space d ≡ false = ground (arith, digits.0) in
    let moved : (q + suc (length ds) == q) ≡ false = ground arith in
    rw
      (
        parse_uint,
        skip_space-blank ws (d ∷ (ds ++ rest)) p blank solid,
        parse_digits-numeral (d ∷ ds) rest 0 0 q digits ends refl,
        moved,
      )
      refl

-- An iterator in 64-bit memory moves on by `v` bytes exactly if it holds them, and its limit stays.
pub advance_lem :
    (it : MemIter) (v : ℕ)
    → get_limit it < word
    → v < word
    → advance it v ≡ (if leb v (len it) then some (at (it.next + v) (drop v it.bytes)) else none)
unfolding advance
advance_lem it v h k = ground arith

memcmp_rs-text :
    (xs s rest : Bytes)
    → IsBytes xs
    → IsBytes s
    → length xs ≡ length s
    → ((memcmp_rs xs (s ++ rest) (length s) == 0) ≡ true) ↔ (xs ≡ s)
unfolding memcmp_rs
memcmp_rs-text [] [] rest h k e = (λ _. refl, λ _. refl)
memcmp_rs-text [] (y ∷ s) rest h k e = absurd (omega (arith, e))
memcmp_rs-text (x ∷ xs) [] rest h k e = absurd (omega (arith, e))
memcmp_rs-text (x ∷ xs) (y ∷ s) rest h k e =
    let ih = memcmp_rs-text xs s rest h.1 k.1 (omega (arith, e)) in grind (arith, ih, h.0, k.0)

iseq-same_length :
    (it : MemIter) (s rest : Bytes)
    → IsText s
    → len it ≡ length s
    → iseq it (s ++ 0 ∷ rest) ≡ (memcmp_rs it.bytes (s ++ 0 ∷ rest) (length s) == 0)
unfolding iseq
iseq-same_length it s rest t e =
    let size = strnlen_s-text s rest (len it + 1) t (omega (arith, e)) in
    let same : (length s == len it) ≡ true = ground (arith, e) in rw (iseq, size, same) refl

iseq-other_length :
    (it : MemIter) (s rest : Bytes) → IsText s → len it ≢ length s → iseq it (s ++ 0 ∷ rest) ≡ false
unfolding iseq
iseq-other_length it s rest t e = elim (dec_lt (length s) (len it + 1)) [
  | yes short ↦
      let other : (length s == len it) ≡ false = ground (arith, e) in
      rw (iseq, strnlen_s-text s rest (len it + 1) t short, other) refl
  | no long ↦
      let other : (len it + 1 == len it) ≡ false = ground arith in
      rw (iseq, strnlen_s-long s (0 ∷ rest) (len it + 1) t (omega (arith, long)), other) refl
]

-- An iterator holds the same bytes as a string without NULs exactly if `iseq` says so.
pub iseq_iff :
    (it : MemIter) (s rest : Bytes)
    → IsBytes it.bytes
    → IsBytes s
    → IsText s
    → (iseq it (s ++ 0 ∷ rest) ≡ true) ↔ (it.bytes ≡ s)
iseq_iff it s rest h k t = elim (Bool-cases (len it == length s)) [
  | inl e ↦
      let sizes = (==_iff (len it) (length s)).0 e in
      rw (iseq-same_length it s rest t sizes) (memcmp_rs-text it.bytes s (0 ∷ rest) h k sizes)
  | inr e ↦
      let ne : len it ≢ length s =
        λ sizes. absurd (let g = (==_iff (len it) (length s)).1 sizes in cc) in
      let refused = iseq-other_length it s rest t ne in
      (λ found. absurd (cc), λ same. absurd (ne (ap length same)))
]
