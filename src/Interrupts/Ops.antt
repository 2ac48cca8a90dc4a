-- ===== src/Interrupts/Ops.antt =====
-- The operations on virtual interrupts keep the count right.
use hafnium_verification.Prelude.{
  ℕ, ◌≡◌, ◌+◌, ◌≤◌, ◌<◌, Bool, true, false, not, ◌&&◌, List, arith, length, set, length-set, ◌==◌,
  Bool-cases, inl, inr,
}
use hafnium_verification.Interrupts.{
  Interrupts, register, inject_at, enable_at, add_u32, sub_u32, register_bits,
}
use hafnium_verification.Interrupts.Bits.{
  land, lor, lnot, one_hot, is_zero, popcount, is_zero-popcount, popcount-is_zero, popcount-mask,
  length-one_hot,
}
use hafnium_verification.Interrupts.Count.{
  total, enabled_and_pending, IsRegister, IsValid, total_comm, total_le, set-IsRegister, grow,
  shrink, lor-IsRegister, clear-IsRegister,
}

-- What a call of `inject` does: it keeps the count right, and says `Ok` if the vCPU had no interrupt
-- enabled and pending, and now has one.
pub record Injected (s : Interrupts) (r : Bool × Interrupts) : Type 0 where
  pub valid : IsValid r.1
  pub told : r.0 ≡ ((enabled_and_pending s == 0) && not (enabled_and_pending r.1 == 0))

module _ (s : Interrupts) (valid : IsValid s) where
  open valid use {counted, enabled_len, pending_len, enabled_regs, pending_regs}

  pub count_le : enabled_and_pending s ≤ 64
  count_le = omega (arith, total_le s.enabled s.pending enabled_regs pending_regs, enabled_len)

  module _ (i n : ℕ) (h : i < 2) where
    abbrev mask : List Bool
    mask = one_hot register_bits n

    abbrev e : List Bool
    e = register s.enabled i

    abbrev p : List Bool
    p = register s.pending i

    pub mask-IsRegister : IsRegister mask
    mask-IsRegister = length-one_hot 32 n

    in_enabled : i < length s.enabled
    in_enabled = omega (arith, enabled_len)

    in_pending : i < length s.pending
    in_pending = omega (arith, pending_len)

    inject_total :
        total s.enabled (set s.pending i (lor p mask))
        ≡ enabled_and_pending s + popcount (land (land e (lnot p)) mask)
    inject_total =
        grow s.enabled s.pending i mask in_enabled in_pending enabled_regs pending_regs
          mask-IsRegister

    pub inject_at-Injected : Injected s (inject_at s i mask)
    inject_at-Injected =
        let lens = length-set s.pending i (lor p mask) in
        let regs = set-IsRegister s.pending i (lor p mask) pending_regs (
          lor-IsRegister s.enabled s.pending i mask in_enabled in_pending enabled_regs pending_regs
            mask-IsRegister) in
        elim (Bool-cases (is_zero (land (land e (lnot p)) mask))) [
          | inl z ↦ rw z (record {
            valid = record {
              counted =
                  omega (
                    arith,
                    counted,
                    inject_total,
                    is_zero-popcount (land (land e (lnot p)) mask) z,
                  );
              enabled_len = enabled_len;
              pending_len = omega (arith, lens, pending_len);
              enabled_regs = enabled_regs;
              pending_regs = regs;
            };
            told = ground (arith, inject_total, is_zero-popcount (land (land e (lnot p)) mask) z);
          })
          | inr z ↦ rw z (record {
            valid = record {
              counted = omega (
                arith,
                counted,
                count_le,
                inject_total,
                popcount-is_zero (land (land e (lnot p)) mask) z,
                popcount-mask (land e (lnot p)) 32 n,
              );
              enabled_len = enabled_len;
              pending_len = omega (arith, lens, pending_len);
              enabled_regs = enabled_regs;
              pending_regs = regs;
            };
            told = ground (
              arith,
              counted,
              count_le,
              inject_total,
              popcount-is_zero (land (land e (lnot p)) mask) z,
              popcount-mask (land e (lnot p)) 32 n,
            );
          })
        ]

    enable_total :
        total (set s.enabled i (lor e mask)) s.pending
        ≡ enabled_and_pending s + popcount (land (land p (lnot e)) mask)
    enable_total = omega (
      arith,
      grow s.pending s.enabled i mask in_pending in_enabled pending_regs enabled_regs
          mask-IsRegister,
      total_comm (set s.enabled i (lor e mask)) s.pending,
      total_comm s.enabled s.pending,
    )

    disable_total :
        total (set s.enabled i (land e (lnot mask))) s.pending + popcount (land (land p e) mask)
        ≡ enabled_and_pending s
    disable_total = omega (
      arith,
      shrink s.pending s.enabled i mask in_pending in_enabled pending_regs enabled_regs
          mask-IsRegister,
      total_comm (set s.enabled i (land e (lnot mask))) s.pending,
      total_comm s.enabled s.pending,
    )

    with_enabled :
        (r : List Bool) (count : ℕ)
        → IsRegister r
        → count ≡ total (set s.enabled i r) s.pending
        → IsValid (record s { enabled = set s.enabled i r; enabled_and_pending_count = count })
    with_enabled r count is_reg c = record {
      counted = c;
      enabled_len = omega (arith, length-set s.enabled i r, enabled_len);
      pending_len = pending_len;
      enabled_regs = set-IsRegister s.enabled i r enabled_regs is_reg;
      pending_regs = pending_regs;
    }

    pub enable_at-IsValid : (on : Bool) → IsValid (enable_at s i mask on)
    enable_at-IsValid true =
        let x = land (land p (lnot e)) mask in
        let reg =
          lor-IsRegister s.pending s.enabled i mask in_pending in_enabled pending_regs enabled_regs
            mask-IsRegister in
        elim (Bool-cases (is_zero x)) [
          | inl z ↦ rw z (
              with_enabled (lor e mask) s.enabled_and_pending_count reg
                (omega (arith, counted, enable_total, is_zero-popcount x z)))
          | inr z ↦ rw z (
              with_enabled (lor e mask) (add_u32 s.enabled_and_pending_count 1) reg (
                omega (
                  arith,
                  counted,
                  count_le,
                  enable_total,
                  popcount-is_zero x z,
                  popcount-mask (land p (lnot e)) 32 n,
                )))
        ]
    enable_at-IsValid false =
        let x = land (land p e) mask in
        let reg =
          clear-IsRegister s.pending s.enabled i mask in_pending in_enabled pending_regs
            enabled_regs mask-IsRegister in
        elim (Bool-cases (is_zero x)) [
          | inl z ↦ rw z (
              with_enabled (land e (lnot mask)) s.enabled_and_pending_count reg
                (omega (arith, counted, disable_total, is_zero-popcount x z)))
          | inr z ↦ rw z (
              with_enabled (land e (lnot mask)) (sub_u32 s.enabled_and_pending_count 1) reg (
                omega (
                  arith,
                  counted,
                  count_le,
                  disable_total,
                  popcount-is_zero x z,
                  popcount-mask (land p e) 32 n,
                )))
        ]
