-- ===== src/Fdt.antt =====
-- hfo2/src/fdt.rs: the tokens of a flattened device tree, read from memory. A panic is an ending of its
-- own, and so is a loop that is given too little fuel; the fuel of a loop is the number of bytes left.
pub mod Bounds
pub mod Node
pub mod Lookup
pub mod Format
pub mod Tokens
pub mod Trees
pub mod Find
use hafnium_verification.Prelude.{
  ℕ, zero, suc, ◌+◌, ◌-◌, ◌*◌, ◌%◌, ◌^◌, Bool, true, false, ◌||◌, Option, none, some, ltb, ◌==◌,
  if◌then◌else◌,
}
use hafnium_verification.Outcome.{Outcome, got, fails, panicked, out_of_fuel, and_then}
use hafnium_verification.Text.{Slice, slice}

pub data FdtToken : Type 0 where
  begin_node end_node prop nop end : FdtToken

abbrev pub code : FdtToken → ℕ
code begin_node = 1
code end_node = 2
code prop = 3
code nop = 4
code end = 9

abbrev pub is : FdtToken → FdtToken → Bool
is a b = code a == code b

unfoldable pub try_from : ℕ → Option FdtToken
try_from value =
    if value == 1
    then some begin_node
    else if value == 2
    then some end_node
    else if value == 3
    then some prop
    else if value == 4
    then some nop
    else if value == 9
    then some end
    else none

pub record FdtTokenizer : Type 0 where
  pub cur : Slice
  pub strs : Slice

abbrev pub token_alignment : ℕ
token_alignment = 4

abbrev pub new : Slice → Slice → FdtTokenizer
new cur strs = record { cur = cur; strs = strs }

abbrev pub moved : FdtTokenizer → ℕ → ℕ → FdtTokenizer
moved t p n = record t { cur = slice p n }

-- `split_at` panics beyond the end: then there is no tokenizer.
unfoldable pub align : FdtTokenizer → Option FdtTokenizer
align t =
    let modular = t.cur.ptr % token_alignment in
    let padding = (token_alignment - modular) % token_alignment in
    if ltb t.cur.size padding
    then none
    else some (moved t (t.cur.ptr + padding) (t.cur.size - padding))

unfoldable pub bytes : FdtTokenizer → ℕ → Outcome FdtTokenizer Slice
bytes t size =
    let first = slice t.cur.ptr size in
    let rest = moved t (t.cur.ptr + size) (t.cur.size - size) in
    if ltb t.cur.size size
    then fails t
    else elim (align rest) [ none ↦ panicked | some t' ↦ got first t' ]

abbrev pub rewind : FdtTokenizer → FdtTokenizer
rewind t = moved t (t.cur.ptr - token_alignment) (t.cur.size + token_alignment)

abbrev pub collapse : FdtTokenizer → FdtTokenizer
collapse t = moved t (t.cur.ptr + t.cur.size) 0

module _ (mem : ℕ → ℕ) where
  -- `u32::from_be_bytes` of the four bytes at an address
  abbrev pub be32 : ℕ → ℕ
  be32 p = mem p * 2 ^ 24 + mem (p + 1) * 2 ^ 16 + mem (p + 2) * 2 ^ 8 + mem (p + 3)

  unfoldable pub u32 : FdtTokenizer → Outcome FdtTokenizer ℕ
  u32 t = and_then (bytes t 4) (λ first. got (be32 first.ptr)) fails

  -- `try_into().unwrap()` panics on a word that is no token.
  unfoldable pub token_loop : ℕ → FdtTokenizer → Outcome FdtTokenizer FdtToken
  token_loop zero t = out_of_fuel
  token_loop (suc fuel) t =
      and_then (u32 t)
        (λ v t'. elim (try_from v) [
          | none ↦ panicked
          | some k ↦ elim (is k nop) [ true ↦ token_loop fuel t' | false ↦ got k t' ]
        ])
        fails

  abbrev pub token : FdtTokenizer → Outcome FdtTokenizer FdtToken
  token t = token_loop (t.cur.size + 1) t

  unfoldable pub token_expect : FdtTokenizer → FdtToken → Outcome FdtTokenizer FdtToken
  token_expect t expect =
      and_then (token t) (λ k t'. if is k expect then got k t' else fails (rewind t')) fails

  -- The place of the first NUL among `n` bytes.
  unfoldable pub find_nul : ℕ → ℕ → Option ℕ
  find_nul p zero = none
  find_nul p (suc n) = let rest = find_nul (p + 1) n in if mem p == 0 then some p else rest

  -- A string, with its NUL.
  unfoldable pub str : FdtTokenizer → Outcome FdtTokenizer Slice
  str t = elim (find_nul t.cur.ptr t.cur.size) [
    | none ↦ fails t
    | some q ↦
        let size = q - t.cur.ptr + 1 in
        elim (align (moved t (t.cur.ptr + size) (t.cur.size - size))) [
          | none ↦ panicked
          | some t' ↦ got (slice t.cur.ptr size) t'
        ]
  ]

  -- What follows the token of a property: the name's address and the value. The guard collapses the
  -- tokenizer on a failure, and a name from beyond the end of the strings panics.
  unfoldable pub property_body : FdtTokenizer → Outcome FdtTokenizer (ℕ × Slice)
  property_body t =
      let give_up : FdtTokenizer → Outcome FdtTokenizer (ℕ × Slice) = λ t'. fails (collapse t') in
      and_then (u32 t)
        (λ size t₁.
          and_then (u32 t₁)
            (λ nameoff t₂.
              and_then (bytes t₂ size)
                (λ buf t₃.
                  if ltb t₃.strs.size nameoff
                  then panicked
                  else got (t₃.strs.ptr + nameoff, buf) t₃)
                give_up)
            give_up)
        give_up

  unfoldable pub next_property : FdtTokenizer → Outcome FdtTokenizer (ℕ × Slice)
  next_property t = and_then (token_expect t prop) (λ _ t'. property_body t') fails

  unfoldable pub next_subnode : FdtTokenizer → Outcome FdtTokenizer Slice
  next_subnode t =
      and_then (token_expect t begin_node)
        (λ _ t'. and_then (str t') got (λ t''. fails (collapse t''))) fails

  unfoldable pub skip_properties_loop : ℕ → FdtTokenizer → Outcome FdtTokenizer (Unit {0})
  skip_properties_loop zero t = out_of_fuel
  skip_properties_loop (suc fuel) t =
      and_then (next_property t) (λ _ t'. skip_properties_loop fuel t') (got tt)

  abbrev pub skip_properties : FdtTokenizer → Outcome FdtTokenizer (Unit {0})
  skip_properties t = skip_properties_loop (t.cur.size + 1) t

  -- The two loops of `skip_node` in one: a round enters a subnode, or else leaves a node.
  unfoldable pub skip_node_loop : ℕ → ℕ → FdtTokenizer → Outcome FdtTokenizer (Unit {0})
  skip_node_loop fuel zero t = got tt t
  skip_node_loop zero (suc pending) t = out_of_fuel
  skip_node_loop (suc fuel) (suc pending) t =
      and_then (next_subnode t)
        (λ _ t₁.
          and_then (skip_properties t₁) (λ _ t₂. skip_node_loop fuel (suc (suc pending)) t₂) fails)
        (λ t₁.
          and_then (token t₁)
            (λ k t₂. elim (is k end_node) [
              | true ↦ skip_node_loop fuel pending t₂
              | false ↦ fails (collapse t₂)
            ])
            fails)

  unfoldable pub skip_node : FdtTokenizer → Outcome FdtTokenizer (Unit {0})
  skip_node t = and_then (skip_properties t) (λ _ t'. skip_node_loop (t'.cur.size + 1) 1 t') fails
