-- ===== src/Manifest/Names.antt =====
-- The names of the VMs' nodes, and numbers in decimal.
use mathlib.Core.List.{append-nil}
use hafnium_verification.Prelude.{
  ℕ, zero, suc, ◌≡◌, refl, sym, ap, ◌∙◌, ◌+◌, ◌-◌, ◌*◌, ◌/◌, ◌%◌, ◌^◌, ◌≤◌, ◌<◌, ◌≢◌, true, [], ◌∷◌,
  ◌++◌, some, ltb, leb, length, length-append, arith, Bool-cases, inl, inr, append-All, word,
}
use hafnium_verification.Text.{Bytes, ascii, asciz, decimal}
use hafnium_verification.Text.Strings.{IsText}
use hafnium_verification.MemIter.{at, parse_uint}
use hafnium_verification.MemIter.Parse.{IsNumeral, spelled, parse_uint-numeral}
use hafnium_verification.Manifest.{ok, generate_vm_node_name, write_str}

spelled-append : (xs : Bytes) (v c : ℕ) → spelled v (xs ++ (c ∷ [])) ≡ spelled v xs * 10 + (c - 48)
spelled-append [] v c = refl
spelled-append (x ∷ xs) v c = spelled-append xs (v * 10 + (x - 48)) c

append-ne_nil : (xs : Bytes) (c : ℕ) → xs ++ (c ∷ []) ≢ []
append-ne_nil [] c h = absurd cc
append-ne_nil (x ∷ xs) c h = absurd cc

-- Digits that spell the number, without going beyond the fuel.
pub record Spells (s : Bytes) (fuel n : ℕ) : Type 0 where
  pub numeral : IsNumeral s
  pub not_empty : s ≢ []
  pub few : length s ≤ fuel + 1
  pub value : spelled 0 s ≡ n

one_digit : (fuel n : ℕ) → n < 10 → Spells ((48 + n) ∷ []) fuel n
one_digit fuel n h = record {
  numeral = (omega (arith, h), tt);
  not_empty = λ e. absurd cc;
  few = omega arith;
  value = omega arith;
}

-- The least number that the fuel is not enough for.
abbrev pub limit : ℕ → ℕ
limit zero = 10
limit (suc fuel) = 10 * limit fuel

pub decimal-Spells : (fuel n : ℕ) → n < limit fuel → Spells (decimal fuel n) fuel n
unfolding decimal
decimal-Spells zero n h = one_digit 0 n (omega (arith, h))
decimal-Spells (suc fuel) n h = elim (Bool-cases (ltb n 10)) [
  | inl e ↦ rw (decimal, e) (one_digit (suc fuel) n (ground (arith, e)))
  | inr e ↦
      let ih = decimal-Spells fuel (n / 10) (omega (arith, h)) in
      let s = decimal fuel (n / 10) in
      rw (decimal, e)
        (record {
          numeral = append-All _ s _ ih.numeral (omega arith, tt);
          not_empty = append-ne_nil s _;
          few = rw length-append (omega (arith, ih.few));
          value = rw (spelled-append s 0 (48 + n % 10)) (omega (arith, ih.value));
        })
]

numeral-IsText : (s : Bytes) → IsNumeral s → IsText s
numeral-IsText [] h = tt
numeral-IsText (c ∷ s) h = (omega (arith, h.0), numeral-IsText s h.1)

-- A VM's name without its NUL.
abbrev pub vm_name : ℕ → Bytes
vm_name vm_id = ascii "vm" ++ decimal 4 vm_id

pub vm_name-IsText : (vm_id : ℕ) → vm_id < 2 ^ 16 → IsText (vm_name vm_id)
vm_name-IsText vm_id h =
    let digits = decimal-Spells 4 vm_id (omega (arith, h)) in
    append-All _ (ascii "vm") (decimal 4 vm_id) (omega arith, (omega arith, tt))
      (numeral-IsText (decimal 4 vm_id) digits.numeral)

-- For every 16-bit id the name fits into the buffer: it is "vm", the id's digits and a NUL.
pub generate_vm_node_name_lem :
    (vm_id : ℕ) → vm_id < 2 ^ 16 → generate_vm_node_name vm_id ≡ ok (asciz (vm_name vm_id))
unfolding generate_vm_node_name write_str
generate_vm_node_name_lem vm_id h =
    let digits = decimal-Spells 4 vm_id (omega (arith, h)) in
    let name = ascii "vm" ++ decimal 4 vm_id in
    let room₁ : leb (length (ascii "vm") + length (decimal 4 vm_id)) 8 ≡ true =
      ground (arith, digits.few) in
    let room₂ : leb (length name + 1) 8 ≡ true = ground (arith, digits.few) in
    rw (generate_vm_node_name, write_str, room₁, room₂) refl

-- The number of a VM's name is read back by `parse_uint`, which then stops at the end of the name.
pub parse_uint-decimal :
    (p n : ℕ)
    → n < 2 ^ 16
    → parse_uint (at p (decimal 4 n)) ≡ (some n, at (p + length (decimal 4 n)) [])
parse_uint-decimal p n h =
    let digits = decimal-Spells 4 n (omega (arith, h)) in
    let s = decimal 4 n in
    let read = parse_uint-numeral p [] s [] tt digits.not_empty digits.numeral tt in
    let place : p + 0 ≡ p = omega arith in
    let small : n % word ≡ n = omega (arith, h) in
    let value : spelled 0 s % word ≡ n = rw digits.value small in
    ap (λ bs. parse_uint (at p bs)) (sym (append-nil s)) ∙ read ∙ rw (value, place) refl
