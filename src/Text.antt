-- ===== src/Text.antt =====
-- hfo2/src/std.rs (`strnlen_s`, `memcmp_rs`) and src/arch/aarch64/std.c (`strcmp`): strings, which are
-- the lists of the bytes from a pointer on. A list that ends stands for a NUL, so a NULL pointer is [].
pub mod Strings
use Prim.Native.Char.{code}
use Prim.Native.String.{String}
use hafnium_verification.Prelude.{
  ℕ, zero, suc, ◌+◌, ◌-◌, ◌%◌, ◌^◌, Bool, true, false, ◌||◌, Option, none, some, List, [], ◌∷◌,
  ◌==◌, if◌then◌else◌, ◌++◌, ◌/◌, ltb,
}

abbrev pub Bytes : Type 0
Bytes = List ℕ

-- At most `strsz` bytes are looked at.
unfoldable pub strnlen_s : Bytes → ℕ → ℕ
strnlen_s str zero = 0
strnlen_s [] (suc strsz) = 0
strnlen_s (c ∷ cs) (suc strsz) = if c == 0 then 0 else suc (strnlen_s cs strsz)

-- The difference of two bytes is a byte.
unfoldable pub memcmp_rs : Bytes → Bytes → ℕ → ℕ
memcmp_rs xs ys zero = 0
memcmp_rs [] ys (suc n) = 0
memcmp_rs (x ∷ xs) [] (suc n) = x
memcmp_rs (x ∷ xs) (y ∷ ys) (suc n) =
    let cmp = (x + 2 ^ 8 - y) % 2 ^ 8 in
    let rest = memcmp_rs xs ys n in if cmp == 0 then rest else cmp

-- `strcmp(x, y) == 0`, where `x` is a place in memory.
unfoldable pub strcmp_is_zero : (ℕ → ℕ) → ℕ → Bytes → Bool
strcmp_is_zero mem x [] = mem x == 0
strcmp_is_zero mem x (c ∷ cs) =
    let rest = strcmp_is_zero mem (x + 1) cs in
    if (mem x == 0) || (c == 0) then mem x == c else if mem x == c then rest else false

-- `bytes.iter().position(|&c| c == wanted)`
unfoldable pub position : ℕ → Bytes → Option ℕ
position wanted [] = none
position wanted (c ∷ cs) = if c == wanted then some 0 else later (position wanted cs)
  where
    later : Option ℕ → Option ℕ
    later none = none
    later (some i) = some (suc i)

-- A slice: its address and how many bytes it has.
pub record Slice : Type 0 where
  pub ptr : ℕ
  pub size : ℕ

abbrev pub slice : ℕ → ℕ → Slice
slice p n = record { ptr = p; size = n }

-- The bytes of memory from an address on.
abbrev pub load : (ℕ → ℕ) → ℕ → ℕ → Bytes
load mem p zero = []
load mem p (suc n) = mem p ∷ load mem (p + 1) n

-- The bytes of a literal; they are its code points, since every literal of the source is ASCII.
abbrev pub ascii : String → Bytes
ascii String.[] = []
ascii (String.◌∷◌ c s) = code c ∷ ascii s

abbrev pub asciz : Bytes → Bytes
asciz s = s ++ 0 ∷ []

-- `{}` of a number that has at most `fuel + 1` digits.
unfoldable pub decimal : ℕ → ℕ → Bytes
decimal zero n = (48 + n) ∷ []
decimal (suc fuel) n =
    let higher = decimal fuel (n / 10) in
    if ltb n 10 then (48 + n) ∷ [] else higher ++ ((48 + n % 10) ∷ [])
