-- ===== src/Prelude/Words.antt =====
-- `usize` and `u64` arithmetic, with its wrap-around.
use Prim.Native.Nat.{ℕ, ◌+◌, ◌-◌, ◌*◌, ◌%◌, ◌^◌}

abbrev pub word : ℕ
word = 2 ^ 64

abbrev pub add_usize : ℕ → ℕ → ℕ
add_usize a b = (a + b) % word

abbrev pub sub_usize : ℕ → ℕ → ℕ
sub_usize a b = (a + word - b) % word

abbrev pub mul_usize : ℕ → ℕ → ℕ
mul_usize a b = (a * b) % word
