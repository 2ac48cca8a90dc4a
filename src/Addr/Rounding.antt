-- ===== src/Addr/Rounding.antt =====
-- What the rounding of utils.rs computes, and when it wraps round.
use native.Mathlib.Nat.{mod-eq_of_lt, mul-mod_left, div-mul-le_self}
use native.Mathlib.Nat.{lt-div-mul-add}
use hafnium_verification.Prelude.{
  ℕ, ◌≡◌, ◌+◌, ◌*◌, ◌/◌, ◌%◌, ◌≤◌, ◌<◌, ◌∙◌, ap, arith, word, add_usize, sub_usize, none, some,
}
use hafnium_verification.Addr.{round_up, round_down, page_size, Pages, from_raw_u8}

-- `a + b - 1`, as the code computes it.
abbrev pre_ceil : ℕ → ℕ → ℕ
pre_ceil a b = sub_usize (add_usize a b) 1

round_up_value : (a b : ℕ) → a < word → b < word → 0 < b → round_up a b ≡ pre_ceil a b / b * b
unfolding round_up
round_up_value a b ha hb pos =
    mod-eq_of_lt {n = pre_ceil a b / b * b} {m = word}
      (omega (arith, div-mul-le_self (pre_ceil a b) b))

-- If `b` is positive and `a + b` is at most 2 ^ 64, `round_up` gives the least multiple of `b` that is
-- no less than `a`.
pub round_up_exact :
    (a b : ℕ)
    → 0 < b
    → b < word
    → a + b ≤ word
    → (a ≤ round_up a b) × (round_up a b < a + b) × (round_up a b % b ≡ 0)
round_up_exact a b pos hb fits =
    let v = round_up_value a b (omega arith) hb pos in
    let low = lt-div-mul-add {a = pre_ceil a b} {b = b} pos in
    let high = div-mul-le_self (pre_ceil a b) b in
    (
      omega (arith, v, low),
      omega (arith, v, high),
      ap (λ (n : ℕ). n % b) v ∙ mul-mod_left (pre_ceil a b / b) b,
    )

-- Where `a + b - 1` does not fit, the result falls below `a`.
pub round_up_wraps : (a b : ℕ) → 0 < b → a < word → b < word → word < a + b → round_up a b < a
round_up_wraps a b pos ha hb over =
    omega (arith, round_up_value a b ha hb pos, div-mul-le_self (pre_ceil a b) b)

-- `round_down` gives the greatest multiple of `b` that is no more than `a`.
pub round_down_exact :
    (a b : ℕ)
    → 0 < b
    → a < word
    → (round_down a b ≤ a) × (a < round_down a b + b) × (round_down a b % b ≡ 0)
unfolding round_down
round_down_exact a b pos ha =
    let v : round_down a b ≡ a / b * b =
      mod-eq_of_lt {n = a / b * b} {m = word} (omega (arith, div-mul-le_self a b)) in
    (
      omega (arith, v, div-mul-le_self a b),
      omega (arith, v, lt-div-mul-add {a = a} {b = b} pos),
      ap (λ (n : ℕ). n % b) v ∙ mul-mod_left (a / b) b,
    )

-- If the bytes end a page or more below 2 ^ 64, what `Pages::from_raw_u8` returns is page-aligned,
-- not empty and inside the bytes, and leaves less than a page at either end.
pub from_raw_u8-within :
    (ptr size : ℕ) (p : Pages)
    → ptr + size + page_size ≤ word
    → from_raw_u8 ptr size ≡ some p
    → (p.base % page_size ≡ 0)
      × (0 < p.count)
      × (ptr ≤ p.base)
      × (p.base + p.count * page_size ≤ ptr + size)
      × (ptr + size < p.base + p.count * page_size + page_size)
      × (p.base < ptr + page_size)
unfolding from_raw_u8
from_raw_u8-within ptr size p fits e =
    ground (arith, round_up_exact ptr page_size, round_down_exact (ptr + size) page_size)

-- If the bytes end a page or more below 2 ^ 64, `Pages::from_raw_u8` fails only if they hold no whole
-- page.
pub from_raw_u8-none :
    (ptr size : ℕ)
    → ptr + size + page_size ≤ word
    → from_raw_u8 ptr size ≡ none
    → (base : ℕ) → base % page_size ≡ 0
    → ptr ≤ base
    → ptr + size < base + page_size
unfolding from_raw_u8
from_raw_u8-none ptr size fits e base al lo =
    ground (arith, round_up_exact ptr page_size, round_down_exact (ptr + size) page_size)
