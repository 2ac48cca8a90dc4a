-- ===== src/Manifest/Strings.antt =====
-- The entries of a string list.
use hafnium_verification.Prelude.{
  ℕ, zero, suc, ◌≡◌, refl, sym, ◌+◌, ◌-◌, ◌≤◌, ◌<◌, ◌↔◌, Bool, true, false, ◌||◌, List, [], ◌∷◌,
  ◌++◌, some, ltb, leb, length, length-append, drop, arith, Bool-cases, inl, inr, All, word,
}
use hafnium_verification.Text.{Bytes, asciz}
use hafnium_verification.Text.Strings.{IsText, IsBytes, position-text, position-none}
use hafnium_verification.MemIter.{MemIter, at, iseq}
use hafnium_verification.MemIter.Parse.{take-append, advance_lem, iseq_iff}
use hafnium_verification.Fdt.Format.{same}
use hafnium_verification.Manifest.{
  ok, ◌>>=◌, StringList, string_list, last, has_next, get_next, contains_loop, contains,
  string_list_of,
}

-- The entries, each but the last with a NUL behind it.
abbrev pub separated : Bytes → List Bytes → Bytes
separated e [] = e
separated e (e' ∷ es) = e ++ 0 ∷ separated e' es

-- Entries are texts of at least one byte.
abbrev pub IsEntry : Bytes → Type 0
IsEntry e = IsText e × IsBytes e × (1 ≤ length e)

abbrev pub has_entry : Bytes → List Bytes → Bool
has_entry text [] = false
has_entry text (e ∷ es) = same e text || has_entry text es

pub same_iff : (xs ys : Bytes) → (same xs ys ≡ true) ↔ (xs ≡ ys)
same_iff [] [] = (λ _. refl, λ _. refl)
same_iff [] (y ∷ ys) = (λ e. absurd cc, λ e. absurd cc)
same_iff (x ∷ xs) [] = (λ e. absurd cc, λ e. absurd cc)
same_iff (x ∷ xs) (y ∷ ys) = let ih = same_iff xs ys in grind (arith, ih)

drop-append : (xs ys : Bytes) (c : ℕ) → drop (length xs + 1) (xs ++ c ∷ ys) ≡ ys
drop-append [] ys c = refl
drop-append (x ∷ xs) ys c =
    let e : suc (length xs) + 1 ≡ suc (length xs + 1) = omega arith in rw e (drop-append xs ys c)

eq_of_iff : (a b : Bool) → (a ≡ true → b ≡ true) → (b ≡ true → a ≡ true) → a ≡ b
eq_of_iff true b f g = sym (f refl)
eq_of_iff false true f g = g refl
eq_of_iff false false f g = refl

iseq-same :
    (p : ℕ) (e text : Bytes)
    → IsBytes e
    → IsBytes text
    → IsText text
    → iseq (at p e) (asciz text) ≡ same e text
iseq-same p e text h k t =
    let found = iseq_iff (at p e) text [] h k t in
    let equal = same_iff e text in
    eq_of_iff _ _ (λ a. equal.1 (found.0 a)) (λ a. found.1 (equal.0 a))

-- The first of several entries.
get_next-first :
    (p : ℕ) (e rest : Bytes)
    → IsText e
    → 1 ≤ length e
    → p + length (e ++ 0 ∷ rest) < word
    → get_next (string_list (at p (e ++ 0 ∷ rest)))
      ≡ ok (at p e, string_list (at (p + (length e + 1)) rest))
unfolding get_next
get_next-first p e rest t ne fits =
    let size : length (e ++ 0 ∷ rest) ≡ length e + suc (length rest) = length-append e (0 ∷ rest) in
    let some_left : ltb 0 (length (e ++ 0 ∷ rest)) ≡ true = ground (arith, size) in
    let room : leb (length e + 1) (length (e ++ 0 ∷ rest)) ≡ true = ground (arith, size) in
    let moved =
      advance_lem (at p (e ++ 0 ∷ rest)) (length e + 1) fits (omega (arith, fits, size)) in
    rw
      (
        get_next,
        some_left,
        position-text e rest t,
        moved,
        room,
        take-append e (0 ∷ rest),
        drop-append e rest 0,
      )
      refl

drop-all : (xs : Bytes) → drop (length xs) xs ≡ []
drop-all [] = refl
drop-all (x ∷ xs) = drop-all xs

get_next-last :
    (p : ℕ) (e : Bytes)
    → IsText e
    → 1 ≤ length e
    → p + length e < word
    → get_next (string_list (at p e)) ≡ ok (at p e, string_list (at (p + length e) []))
unfolding get_next
get_next-last p e t ne fits =
    let some_left : ltb 0 (length e) ≡ true = ground (arith, ne) in
    let room : leb (length e) (length e) ≡ true = ground arith in
    let moved = advance_lem (at p e) (length e) fits (omega (arith, fits)) in
    rw (get_next, some_left, position-none e t, moved, room, drop-all e) refl

contains_loop-step :
    (text : Bytes) (fuel : ℕ) (l rest : StringList) (entry : MemIter)
    → has_next l ≡ true
    → get_next l ≡ ok (entry, rest)
    → contains_loop text (suc fuel) l
      ≡ (elim (iseq entry text) [ true ↦ ok true | false ↦ contains_loop text fuel rest ])
unfolding contains_loop
contains_loop-step text fuel l rest entry some_left read = rw (contains_loop, some_left, read) refl

module _ (text : Bytes) (is_bytes : IsBytes text) (is_text : IsText text) where
  contains_loop-separated :
      (es : List Bytes) (e : Bytes) (fuel p : ℕ)
      → All IsEntry (e ∷ es)
      → length (separated e es) < fuel
      → p + length (separated e es) < word
      → contains_loop (asciz text) fuel (string_list (at p (separated e es)))
        ≡ ok (has_entry text (e ∷ es))
  unfolding contains_loop
  contains_loop-separated es e zero p h f fits = absurd (omega arith)
  contains_loop-separated [] e (suc zero) p h f fits = absurd (omega (arith, f, h.0.2))
  contains_loop-separated [] e (suc (suc fuel)) p h f fits =
      let some_left : ltb 0 (length e) ≡ true = ground (arith, h.0.2) in
      let compared = iseq-same p e text h.0.1 is_bytes is_text in
      let step =
        contains_loop-step (asciz text) (suc fuel) _ _ _ some_left
          (get_next-last p e h.0.0 h.0.2 fits) in
      elim (Bool-cases (same e text)) [
        | inl equal ↦ rw (step, compared, equal) refl
        | inr other ↦ rw (step, compared, other) refl
      ]
  contains_loop-separated (e' ∷ es) e (suc fuel) p h f fits =
      let rest = separated e' es in
      let size = length-append e (0 ∷ rest) in
      let some_left : ltb 0 (length (e ++ 0 ∷ rest)) ≡ true = ground (arith, size) in
      let compared = iseq-same p e text h.0.1 is_bytes is_text in
      let step =
        contains_loop-step (asciz text) fuel _ _ _ some_left
          (get_next-first p e rest h.0.0 h.0.2 fits) in
      let later =
        contains_loop-separated es e' fuel (p + (length e + 1)) h.1 (omega (arith, f, size))
          (omega (arith, fits, size)) in
      elim (Bool-cases (same e text)) [
        | inl equal ↦ rw (step, compared, equal) refl
        | inr other ↦ rw (step, compared, other) later
      ]

last-append : (xs : Bytes) (c : ℕ) → last (xs ++ (c ∷ [])) ≡ some c
last-append [] c = refl
last-append (x ∷ []) c = refl
last-append (x ∷ y ∷ xs) c = last-append (y ∷ xs) c

-- A property that holds entries of at least one byte, each with a NUL behind it, is read as a string
-- list, and `contains` says whether a text is one of the entries.
pub contains-separated :
    (p : ℕ) (e : Bytes) (es : List Bytes) (text : Bytes)
    → All IsEntry (e ∷ es)
    → IsBytes text
    → IsText text
    → p + length (separated e es) < word
    → (string_list_of p (separated e es ++ (0 ∷ [])) >>= (λ l. contains l (asciz text)))
      ≡ ok (has_entry text (e ∷ es))
unfolding string_list_of
contains-separated p e es text h b t fits =
    let s = separated e es in
    let size : length (s ++ (0 ∷ [])) - 1 ≡ length s = omega (arith, length-append s (0 ∷ [])) in
    rw (string_list_of, last-append s 0, size, take-append s (0 ∷ []))
      (contains_loop-separated text b t es e (length s + 1) p h (omega arith) fits)
