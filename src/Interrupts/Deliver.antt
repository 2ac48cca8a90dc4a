-- ===== src/Interrupts/Deliver.antt =====
-- `inject`, `enable` and `get` as the callers see them.
use hafnium_verification.Prelude.{
  ℕ, ◌≡◌, refl, ◌+◌, ◌*◌, ◌/◌, ◌%◌, ◌<◌, Bool, true, false, Option, some, List, [], ◌∷◌, arith,
  length, get_elem?, length-set, leb, ltb, Bool-cases, inl, inr,
}
use hafnium_verification.Interrupts.{
  Interrupts, new, id_to_index, register, inject, enable, get, take_from, is_interrupted,
  num_intids, invalid_intid,
}
use hafnium_verification.Interrupts.Bits.{
  land, lnot, one_hot, is_zero, trailing_zeros, popcount, is_zero-popcount, popcount-is_zero,
  popcount-lowest, trailing_zeros_lt, get_elem?-trailing_zeros, length-land,
}
use hafnium_verification.Interrupts.Count.{
  total, enabled_and_pending, IsValid, set-IsRegister, register-IsRegister, shrink,
  clear-IsRegister,
}
use hafnium_verification.Interrupts.Ops.{
  Injected, inject_at-Injected, enable_at-IsValid, count_le, mask-IsRegister,
}

total_two :
    (es ps : List (List Bool))
    → length es ≡ 2
    → length ps ≡ 2
    → total es ps
      ≡ popcount (land (register es 0) (register ps 0))
        + popcount (land (register es 1) (register ps 1))
total_two (e ∷ f ∷ []) (p ∷ q ∷ []) h k = omega arith
total_two [] ps h k = absurd (omega arith)
total_two (e ∷ []) ps h k = absurd (omega arith)
total_two (e ∷ f ∷ g ∷ es) ps h k = absurd (omega arith)
total_two (e ∷ f ∷ []) [] h k = absurd (omega arith)
total_two (e ∷ f ∷ []) (p ∷ []) h k = absurd (omega arith)
total_two (e ∷ f ∷ []) (p ∷ q ∷ r ∷ ps) h k = absurd (omega arith)

-- A new `Interrupts` counts right: nothing is enabled and pending.
pub new-IsValid : IsValid new
unfolding new
new-IsValid = record {
  counted = refl;
  enabled_len = refl;
  pending_len = refl;
  enabled_regs = (refl, (refl, tt));
  pending_regs = (refl, (refl, tt));
}

module _ (s : Interrupts) (valid : IsValid s) where
  open valid use {counted, enabled_len, pending_len, enabled_regs, pending_regs}

  -- If the count of `s` is right, it is after `inject` of any interrupt number, and `inject` says `Ok`
  -- if and only if nothing was enabled and pending before and something is after.
  pub inject_lem : (intid : ℕ) → Injected s (inject s intid)
  unfolding inject id_to_index
  inject_lem intid = elim (Bool-cases (leb num_intids intid)) [
    | inl e ↦ rw (e, inject, id_to_index) (record { valid = valid; told = ground arith })
    | inr e ↦
        rw (e, inject, id_to_index)
          (inject_at-Injected s valid (intid / 32) (intid % 32) (ground (arith, e)))
  ]

  -- If the count of `s` is right, it is after `enable` with any arguments, and `enable` says `Ok` if
  -- and only if the interrupt number is below 64.
  pub enable_lem :
      (intid : ℕ) (on : Bool)
      → IsValid (enable s intid on).1 × ((enable s intid on).0 ≡ ltb intid num_intids)
  unfolding enable id_to_index
  enable_lem intid on = elim (Bool-cases (leb num_intids intid)) [
    | inl e ↦ rw (e, enable, id_to_index) (valid, ground (arith, e))
    | inr e ↦
        rw (e, enable, id_to_index)
          (
            enable_at-IsValid s valid (intid / 32) (intid % 32) (ground (arith, e)) on,
            ground (arith, e),
          )
  ]

  -- The bit of an interrupt among those that are enabled and pending.
  abbrev pub bit_of : ℕ → Option Bool
  bit_of intid =
      get_elem? (land (register s.enabled (intid / 32)) (register s.pending (intid / 32)))
        (intid % 32)

  -- What a call of `get` does when an interrupt is enabled and pending.
  abbrev pub Took : ℕ × Interrupts → Type 0
  Took r =
      IsValid r.1
      × (r.0 < num_intids)
      × (bit_of r.0 ≡ some true)
      × (enabled_and_pending r.1 + 1 ≡ enabled_and_pending s)

  take_from-Took :
      (i : ℕ)
      → i < 2
      → is_zero (land (register s.enabled i) (register s.pending i)) ≡ false
      → Took (take_from s i)
  take_from-Took i h z =
      let e = register s.enabled i in
      let p = register s.pending i in
      let bit = trailing_zeros (land e p) in
      let mask = one_hot 32 bit in
      let in_e : i < length s.enabled = omega (arith, enabled_len) in
      let in_p : i < length s.pending = omega (arith, pending_len) in
      let is_mask = mask-IsRegister s valid i bit h in
      let less = shrink s.enabled s.pending i mask in_e in_p enabled_regs pending_regs is_mask in
      let len = length-land e p (
        omega (
          arith,
          register-IsRegister s.enabled i enabled_regs in_e,
          register-IsRegister s.pending i pending_regs in_p,
        )) in
      let short : bit < 32 = omega (
        arith,
        len,
        register-IsRegister s.enabled i enabled_regs in_e,
        trailing_zeros_lt (land e p) z,
      ) in
      let index : (i * 32 + bit) / 32 ≡ i = omega (arith, short) in
      let place : (i * 32 + bit) % 32 ≡ bit = omega (arith, short) in
      let one =
        popcount-lowest (land e p) 32
          (omega (arith, len, register-IsRegister s.enabled i enabled_regs in_e)) z in
      (
        record {
          counted = omega (arith, counted, less, one, count_le s valid);
          enabled_len = enabled_len;
          pending_len = omega (arith, length-set s.pending i (land p (lnot mask)), pending_len);
          enabled_regs = enabled_regs;
          pending_regs = set-IsRegister s.pending i (land p (lnot mask)) pending_regs (
              clear-IsRegister s.enabled s.pending i mask in_e in_p enabled_regs pending_regs
                is_mask);
        },
        omega (arith, short),
        rw (index, place) (get_elem?-trailing_zeros (land e p) z),
        omega (arith, less, one),
      )

  abbrev both : ℕ → List Bool
  both i = land (register s.enabled i) (register s.pending i)

  two_registers : enabled_and_pending s ≡ popcount (both 0) + popcount (both 1)
  two_registers = total_two s.enabled s.pending enabled_len pending_len

  -- If the count of `s` is right and an interrupt is enabled and pending, `get` returns the number of
  -- one, and afterwards the count is right and one interrupt less is enabled and pending.
  pub get_lem : is_interrupted s ≡ true → Took (get s)
  unfolding get is_interrupted
  get_lem h = elim (Bool-cases (is_zero (land (register s.enabled 0) (register s.pending 0)))) [
    | inr z ↦ rw (z, get) (take_from-Took 0 (omega arith) z)
    | inl z ↦ elim (Bool-cases (is_zero (land (register s.enabled 1) (register s.pending 1)))) [
      | inr y ↦ rw (z, y, get) (take_from-Took 1 (omega arith) y)
      | inl y ↦ absurd (
          ground (
            arith,
            h,
            counted,
            two_registers,
            is_zero-popcount (both 0) z,
            is_zero-popcount (both 1) y,
          ))
    ]
  ]

  none_zero : (i : ℕ) → popcount (both i) ≡ 0 → is_zero (both i) ≡ true
  none_zero i h = elim (Bool-cases (is_zero (both i))) [
    | inl z ↦ z
    | inr z ↦ absurd (omega (arith, h, popcount-is_zero (both i) z))
  ]

  -- If the count of `s` is right and no interrupt is enabled and pending, `get` returns
  -- `HF_INVALID_INTID` and changes nothing.
  pub get_none : is_interrupted s ≡ false → get s ≡ (invalid_intid, s)
  unfolding get is_interrupted
  get_none h =
      let c : enabled_and_pending s ≡ 0 = ground (arith, h, counted) in
      rw
        (
          none_zero 0 (omega (arith, c, two_registers)),
          none_zero 1 (omega (arith, c, two_registers)),
          get,
        )
        refl
