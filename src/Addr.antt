-- ===== src/Addr.antt =====
-- hfo2/src/utils.rs (rounding), page.rs (constants and `Pages::from_raw_u8`) and addr.rs.
pub mod Rounding
use hafnium_verification.Prelude.{
  ℕ, ◌/◌, ◌-◌, Bool, Option, none, some, ◌||◌, add_usize, sub_usize, mul_usize, leb, ltb, ◌==◌,
  if◌then◌else◌, ◌%◌,
}

abbrev pub page_bits : ℕ
page_bits = 12

-- 1 << PAGE_BITS
abbrev pub page_size : ℕ
page_size = 4096

abbrev pub page_level_bits : ℕ
page_level_bits = 9

abbrev pub div_ceil : ℕ → ℕ → ℕ
div_ceil a b = sub_usize (add_usize a b) 1 / b

abbrev pub div_floor : ℕ → ℕ → ℕ
div_floor a b = a / b

unfoldable pub round_up : ℕ → ℕ → ℕ
round_up a b = mul_usize (div_ceil a b) b

unfoldable pub round_down : ℕ → ℕ → ℕ
round_down a b = mul_usize (div_floor a b) b

-- `v & (a - 1) == 0`, where `a` is a power of 2: the mask leaves the remainder.
abbrev pub is_aligned : ℕ → ℕ → Bool
is_aligned v a = v % a == 0

-- Addresses: the three wrappers (`paddr_t`, `ipaddr_t`, `vaddr_t`) hold one `usize`, and their
-- conversions keep it.
abbrev pub pa_add : ℕ → ℕ → ℕ
pa_add pa n = add_usize pa n

abbrev pub ipa_add : ℕ → ℕ → ℕ
ipa_add ipa n = add_usize ipa n

abbrev pub pa_difference : ℕ → ℕ → ℕ
pa_difference start end = sub_usize end start

-- A run of `count` raw pages from `base` on.
pub record Pages : Type 0 where
  pub base : ℕ
  pub count : ℕ

-- The whole pages of the `size` bytes from `ptr` on, if there is one.
unfoldable pub from_raw_u8 : ℕ → ℕ → Option Pages
from_raw_u8 ptr size =
    let new_begin = round_up ptr page_size in
    let new_end = round_down (add_usize ptr size) page_size in
    if leb new_end new_begin || ltb (new_end - new_begin) page_size
    then none
    else some (record { base = new_begin; count = (new_end - new_begin) / page_size })
