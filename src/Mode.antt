-- ===== src/Mode.antt =====
-- hfo2/src/mm.rs, `bitflags! struct Mode`: the seven known bits, each a field. The crate's `from_bits`
-- and `!` keep the known bits only.
use hafnium_verification.Prelude.{Bool, true, false, not, ◌&&◌, ◌||◌}

pub record Mode : Type 0 where
  pub r : Bool
  pub w : Bool
  pub x : Bool
  pub d : Bool
  pub invalid : Bool
  pub unowned : Bool
  pub shared : Bool

abbrev pub empty : Mode
empty = record {
  r = false;
  w = false;
  x = false;
  d = false;
  invalid = false;
  unowned = false;
  shared = false;
}

abbrev pub mode_r : Mode
mode_r = record empty { r = true }

abbrev pub mode_w : Mode
mode_w = record empty { w = true }

abbrev pub mode_x : Mode
mode_x = record empty { x = true }

abbrev pub mode_invalid : Mode
mode_invalid = record empty { invalid = true }

abbrev pub mode_unowned : Mode
mode_unowned = record empty { unowned = true }

abbrev pub mode_shared : Mode
mode_shared = record empty { shared = true }

infixl 64 ◌∪◌
infixl 66 ◌∩◌
-- `|`
abbrev pub ◌∪◌ : Mode → Mode → Mode
a ∪ b = record {
  r = a.r || b.r;
  w = a.w || b.w;
  x = a.x || b.x;
  d = a.d || b.d;
  invalid = a.invalid || b.invalid;
  unowned = a.unowned || b.unowned;
  shared = a.shared || b.shared;
}

-- `&`
abbrev pub ◌∩◌ : Mode → Mode → Mode
a ∩ b = record {
  r = a.r && b.r;
  w = a.w && b.w;
  x = a.x && b.x;
  d = a.d && b.d;
  invalid = a.invalid && b.invalid;
  unowned = a.unowned && b.unowned;
  shared = a.shared && b.shared;
}

-- `!`
abbrev pub complement : Mode → Mode
complement a = record {
  r = not a.r;
  w = not a.w;
  x = not a.x;
  d = not a.d;
  invalid = not a.invalid;
  unowned = not a.unowned;
  shared = not a.shared;
}

abbrev pub same_bit : Bool → Bool → Bool
same_bit true b = b
same_bit false b = not b

abbrev pub mode_eq : Mode → Mode → Bool
mode_eq a b =
    same_bit a.r b.r
    && same_bit a.w b.w
    && same_bit a.x b.x
    && same_bit a.d b.d
    && same_bit a.invalid b.invalid
    && same_bit a.unowned b.unowned
    && same_bit a.shared b.shared

abbrev pub contains : Mode → Mode → Bool
contains a b = mode_eq (a ∩ b) b

abbrev pub intersects : Mode → Mode → Bool
intersects a b = not (mode_eq (a ∩ b) empty)

unfoldable pub valid_owned_exclusive : Mode → Bool
valid_owned_exclusive m = not (intersects m (mode_invalid ∪ mode_unowned ∪ mode_shared))
