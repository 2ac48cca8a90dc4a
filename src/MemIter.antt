-- ===== src/MemIter.antt =====
-- hfo2/src/memiter.rs: iterators over a range of memory that nothing writes while they live. `next` is
-- the field of that name, and `bytes` are the bytes from there to `limit`.
pub mod Parse
use hafnium_verification.Prelude.{
  ℕ, ◌+◌, ◌-◌, ◌*◌, ◌%◌, ◌^◌, Bool, true, false, ◌&&◌, ◌||◌, Option, none, some, [], ◌∷◌, leb, ◌==◌,
  if◌then◌else◌, add_usize, word, length, take, drop,
}
use hafnium_verification.Text.{Bytes, strnlen_s, memcmp_rs}

pub record MemIter : Type 0 where
  pub next : ℕ
  pub bytes : Bytes

abbrev pub at : ℕ → Bytes → MemIter
at p bs = record { next = p; bytes = bs }

abbrev pub len : MemIter → ℕ
len it = length it.bytes

abbrev pub get_limit : MemIter → ℕ
get_limit it = it.next + len it

abbrev pub is_space : ℕ → Bool
is_space c = c == 32 || c == 9 || c == 10 || c == 13

unfoldable pub as_digit : ℕ → Option ℕ
as_digit c = if leb 48 c && leb c 57 then some (c - 48) else none

-- The loop peeks, so it ends at the limit.
unfoldable pub skip_space : ℕ → Bytes → MemIter
skip_space p [] = at p []
skip_space p (c ∷ cs) =
    let rest = skip_space (p + 1) cs in if is_space c then rest else at p (c ∷ cs)

unfoldable pub skip_word : ℕ → Bytes → MemIter
skip_word p [] = at p []
skip_word p (c ∷ cs) = let rest = skip_word (p + 1) cs in if is_space c then at p (c ∷ cs) else rest

-- The range of `size` bytes from the iterator's place on.
abbrev pub from_raw : MemIter → ℕ → MemIter
from_raw it size = at it.next (take size it.bytes)

-- The string, if there is one, and the iterator behind it.
unfoldable pub parse_str : MemIter → Option MemIter × MemIter
parse_str it =
    let start = skip_space it.next it.bytes in
    let stop = skip_word start.next start.bytes in
    let size = stop.next - start.next in
    (if size == 0 then none else some (from_raw start size), stop)

-- The loop over digits, with the value read so far.
unfoldable pub parse_digits : ℕ → ℕ → Bytes → ℕ × MemIter
parse_digits value p [] = (value, at p [])
parse_digits value p (c ∷ cs) = elim (as_digit c) [
  | none ↦ (value, at p (c ∷ cs))
  | some d ↦ parse_digits ((value * 10 + d) % word) (p + 1) cs
]

unfoldable pub parse_uint : MemIter → Option ℕ × MemIter
parse_uint it =
    let start = skip_space it.next it.bytes in
    let (value, stop) = parse_digits 0 start.next start.bytes in
    (if stop.next == start.next then none else some value, stop)

-- `none` is the error, which leaves the iterator as it was.
unfoldable pub advance : MemIter → ℕ → Option MemIter
advance it v =
    let p = add_usize it.next v in
    if leb it.next p && leb p (get_limit it)
    then some (at p (drop (p - it.next) it.bytes))
    else none

-- The place of the bytes that are read, and the iterator behind them.
unfoldable pub read : MemIter → ℕ → Option (ℕ × MemIter)
unfolding advance
read it v = elim (advance it v) [ none ↦ none | some after ↦ some (it.next, after) ]

unfoldable pub iseq : MemIter → Bytes → Bool
iseq it str =
    let size = strnlen_s str (len it + 1) in size == len it && memcmp_rs it.bytes str size == 0
