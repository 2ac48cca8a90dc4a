-- ===== src/Interrupts/Count.antt =====
-- The count of the interrupts that are both enabled and pending.
use hafnium_verification.Prelude.{
  ℕ, zero, suc, ◌≡◌, refl, ap, ◌+◌, ◌*◌, ◌≤◌, ◌<◌, Bool, List, [], ◌∷◌, arith, length, set, All,
}
use hafnium_verification.Interrupts.{Interrupts, register}
use hafnium_verification.Interrupts.Bits.{
  land, lor, lnot, popcount, popcount_le, popcount-lor, popcount-clear, land_comm, length-land,
  length-lor, length-lnot,
}

-- How many bits two arrays of registers have in common.
abbrev pub total : List (List Bool) → List (List Bool) → ℕ
total [] ps = 0
total (e ∷ es) [] = 0
total (e ∷ es) (p ∷ ps) = popcount (land e p) + total es ps

-- The number of interrupts that are enabled and pending.
abbrev pub enabled_and_pending : Interrupts → ℕ
enabled_and_pending s = total s.enabled s.pending

abbrev pub IsRegister : List Bool → Type 0
IsRegister reg = length reg ≡ 32

-- The field counts what it is named for, in two registers of 32 bits each.
pub record IsValid (s : Interrupts) : Type 0 where
  pub counted : s.enabled_and_pending_count ≡ enabled_and_pending s
  pub enabled_len : length s.enabled ≡ 2
  pub pending_len : length s.pending ≡ 2
  pub enabled_regs : All IsRegister s.enabled
  pub pending_regs : All IsRegister s.pending

pub register-IsRegister :
    (regs : List (List Bool)) (i : ℕ)
    → All IsRegister regs
    → i < length regs
    → IsRegister (register regs i)
register-IsRegister [] i h k = elim k [ ]
register-IsRegister (r ∷ regs) zero h k = h.0
register-IsRegister (r ∷ regs) (suc i) h k = register-IsRegister regs i h.1 (omega arith)

pub set-IsRegister :
    (regs : List (List Bool)) (i : ℕ) (r : List Bool)
    → All IsRegister regs
    → IsRegister r
    → All IsRegister (set regs i r)
set-IsRegister [] i r h k = tt
set-IsRegister (q ∷ regs) zero r h k = (k, h.1)
set-IsRegister (q ∷ regs) (suc i) r h k = (h.0, set-IsRegister regs i r h.1 k)

pub total_comm : (es ps : List (List Bool)) → total es ps ≡ total ps es
total_comm [] [] = refl
total_comm [] (p ∷ ps) = refl
total_comm (e ∷ es) [] = refl
total_comm (e ∷ es) (p ∷ ps) = omega (arith, total_comm es ps, ap popcount (land_comm e p))

pub total-set :
    (es ps : List (List Bool)) (i : ℕ) (r : List Bool)
    → i < length es
    → i < length ps
    → total es (set ps i r) + popcount (land (register es i) (register ps i))
      ≡ total es ps + popcount (land (register es i) r)
total-set [] ps i r h k = elim h [ ]
total-set (e ∷ es) [] i r h k = elim k [ ]
total-set (e ∷ es) (p ∷ ps) zero r h k = omega arith
total-set (e ∷ es) (p ∷ ps) (suc i) r h k =
    omega (arith, total-set es ps i r (omega arith) (omega arith))

pub total_le :
    (es ps : List (List Bool))
    → All IsRegister es
    → All IsRegister ps
    → total es ps ≤ 32 * length es
total_le [] ps h k = omega arith
total_le (e ∷ es) [] h k = omega arith
total_le (e ∷ es) (p ∷ ps) h k = omega (
  arith,
  popcount_le (land e p),
  length-land e p (omega (arith, h.0, k.0)),
  h.0,
  total_le es ps h.1 k.1,
)

-- Setting, and clearing, bits of one register.
module _ (es ps : List (List Bool)) (i : ℕ) (m : List Bool) (h : i < length es) (k : i < length ps)
    (e_regs : All IsRegister es) (p_regs : All IsRegister ps) (mask : IsRegister m) where
  abbrev e : List Bool
  e = register es i

  abbrev p : List Bool
  p = register ps i

  e_len : length e ≡ length m
  e_len = omega (arith, register-IsRegister es i e_regs h, mask)

  p_len : length p ≡ length m
  p_len = omega (arith, register-IsRegister ps i p_regs k, mask)

  pub grow : total es (set ps i (lor p m)) ≡ total es ps + popcount (land (land e (lnot p)) m)
  grow = omega (arith, total-set es ps i (lor p m) h k, popcount-lor e p m e_len p_len)

  pub shrink : total es (set ps i (land p (lnot m))) + popcount (land (land e p) m) ≡ total es ps
  shrink = omega (arith, total-set es ps i (land p (lnot m)) h k, popcount-clear e p m e_len p_len)

  pub lor-IsRegister : IsRegister (lor p m)
  lor-IsRegister = omega (arith, length-lor p m p_len, p_len, mask)

  pub clear-IsRegister : IsRegister (land p (lnot m))
  clear-IsRegister =
      omega (arith, length-land p (lnot m) (omega (arith, length-lnot m, p_len)), p_len, mask)
