-- ===== src/Interrupts.antt =====
-- hfo2/src/cpu.rs: `Interrupts`, the virtual interrupts of a vCPU.
-- A `u32` register is its 32 bits, the lowest first; an array of registers is a list.
pub mod Bits
pub mod Count
pub mod Ops
pub mod Deliver
use hafnium_verification.Prelude.{
  ℕ, zero, suc, ◌+◌, ◌-◌, ◌*◌, ◌/◌, ◌%◌, ◌^◌, Bool, true, false, not, Option, none, some, List, [],
  ◌∷◌, if◌then◌else◌, leb, ltb, ◌==◌, get_elem?, set,
}
use hafnium_verification.Interrupts.Bits.{
  replicate, land, lor, lnot, one_hot, is_zero, trailing_zeros,
}

abbrev pub num_intids : ℕ
num_intids = 64

abbrev pub invalid_intid : ℕ
invalid_intid = 4294967295

abbrev pub register_bits : ℕ
register_bits = 32

abbrev pub registers : ℕ
registers = num_intids / register_bits

pub record Interrupts : Type 0 where
  pub enabled : List (List Bool)
  pub pending : List (List Bool)
  pub enabled_and_pending_count : ℕ

unfoldable pub new : Interrupts
new = record {
  enabled = replicate registers (replicate register_bits false);
  pending = replicate registers (replicate register_bits false);
  enabled_and_pending_count = 0;
}

-- `id_to_index`: the register, and the mask of the bit.
unfoldable pub id_to_index : ℕ → Option (ℕ × List Bool)
id_to_index intid =
    if leb num_intids intid
    then none
    else some (intid / register_bits, one_hot register_bits (intid % register_bits))

-- `array[index]`, of an index in range.
abbrev pub register : List (List Bool) → ℕ → List Bool
register regs index = elim (get_elem? regs index) [ none ↦ [] | some reg ↦ reg ]

abbrev pub add_u32 : ℕ → ℕ → ℕ
add_u32 a b = (a + b) % 2 ^ 32

abbrev pub sub_u32 : ℕ → ℕ → ℕ
sub_u32 a b = (a + 2 ^ 32 - b) % 2 ^ 32

module _ (s : Interrupts) where
  open s use {enabled, pending, enabled_and_pending_count}

  -- `inject`, of an interrupt whose register and mask are known; `true` is `Ok`.
  abbrev pub inject_at : ℕ → List Bool → Bool × Interrupts
  inject_at index mask =
      let old = register pending index in
      let now = set pending index (lor old mask) in
      let count = add_u32 enabled_and_pending_count 1 in
      if is_zero (land (land (register enabled index) (lnot old)) mask)
      then (false, record s { pending = now })
      else (count == 1, record s { pending = now; enabled_and_pending_count = count })

  unfoldable pub inject : ℕ → Bool × Interrupts
  unfolding id_to_index
  inject intid = elim (id_to_index intid) [
    | none ↦ (false, s)
    | some (index, mask) ↦ inject_at index mask
  ]

  -- `enable`, likewise.
  abbrev pub enable_at : ℕ → List Bool → Bool → Interrupts
  enable_at index mask true = record s {
    enabled_and_pending_count =
        if not (is_zero (land (land (register pending index) (lnot (register enabled index))) mask))
        then add_u32 enabled_and_pending_count 1
        else enabled_and_pending_count;
    enabled = set enabled index (lor (register enabled index) mask);
  }
  enable_at index mask false = record s {
    enabled_and_pending_count =
        if not (is_zero (land (land (register pending index) (register enabled index)) mask))
        then sub_u32 enabled_and_pending_count 1
        else enabled_and_pending_count;
    enabled = set enabled index (land (register enabled index) (lnot mask));
  }

  unfoldable pub enable : ℕ → Bool → Bool × Interrupts
  unfolding id_to_index
  enable intid on = elim (id_to_index intid) [
    | none ↦ (false, s)
    | some (index, mask) ↦ (true, enable_at index mask on)
  ]

  unfoldable pub is_interrupted : Bool
  is_interrupted = ltb 0 enabled_and_pending_count

  -- What `get` does with the first register that has an enabled and pending interrupt.
  abbrev pub take_from : ℕ → ℕ × Interrupts
  take_from i =
      let bit = trailing_zeros (land (register enabled i) (register pending i)) in
      (
        i * register_bits + bit,
        record s {
          pending = set pending i (land (register pending i) (lnot (one_hot register_bits bit)));
          enabled_and_pending_count = sub_u32 enabled_and_pending_count 1;
        },
      )

  -- The loop of `get`, with `n` registers left from `i` on.
  abbrev pub get_from : ℕ → ℕ → ℕ × Interrupts
  get_from zero i = (invalid_intid, s)
  get_from (suc n) i =
      let rest = get_from n (i + 1) in
      if not (is_zero (land (register enabled i) (register pending i))) then take_from i else rest

  unfoldable pub get : ℕ × Interrupts
  get = get_from registers 0
