-- ===== src/Abi/Packing.antt =====
-- The packing can be undone.
use hafnium_verification.Prelude.{
  ℕ, ◌≡◌, refl, ◌+◌, ◌*◌, ◌/◌, ◌%◌, ◌^◌, ◌<◌, if◌then◌else◌, ◌==◌, word, arith,
}
use hafnium_verification.Abi.{
  HfVCpuRunReturn, preempted, yield, wait_for_interrupt, wait_for_message, wake_up, message,
  notify_waiters, aborted, into_raw,
}

-- What the fields of a return value can hold: 56 bits of nanoseconds, and 16-bit numbers.
abbrev pub Fits : HfVCpuRunReturn → Type 0
Fits preempted = Unit
Fits yield = Unit
Fits (wait_for_interrupt ns) = ns < 2 ^ 56
Fits (wait_for_message ns) = ns < 2 ^ 56
Fits (wake_up vm_id vcpu) = (vm_id < 2 ^ 16) × (vcpu < 2 ^ 16)
Fits (message vm_id) = vm_id < 2 ^ 16
Fits notify_waiters = Unit
Fits aborted = Unit

-- The reading that the ABI gives to a packed value: the lowest byte says which it is.
unfoldable pub decode : ℕ → HfVCpuRunReturn
decode raw =
    let tag = raw % 256 in
    if tag == 1
    then yield
    else if tag == 2
    then wait_for_interrupt (raw / 256)
    else if tag == 3
    then wait_for_message (raw / 256)
    else if tag == 4
    then wake_up (raw / 2 ^ 32 % 2 ^ 16) (raw / 2 ^ 16 % 2 ^ 16)
    else if tag == 5
    then message (raw / 256 % 2 ^ 16)
    else if tag == 6
    then notify_waiters
    else if tag == 7
    then aborted
    else preempted

-- A value whose fields fit is read back from its packing as it was, and its packing is a 64-bit word.
pub decode-into_raw :
    (r : HfVCpuRunReturn) → Fits r → (decode (into_raw r) ≡ r) × (into_raw r < word)
unfolding decode into_raw
decode-into_raw preempted h = (refl, omega arith)
decode-into_raw yield h = (refl, omega arith)
decode-into_raw (wait_for_interrupt ns) h =
    let tag : (2 + ns * 2 ^ 8 % word) % 256 ≡ 2 = omega (arith, h) in
    let rest : (2 + ns * 2 ^ 8 % word) / 256 ≡ ns = omega (arith, h) in
    (rw (tag, rest) refl, omega (arith, h))
decode-into_raw (wait_for_message ns) h =
    let tag : (3 + ns * 2 ^ 8 % word) % 256 ≡ 3 = omega (arith, h) in
    let rest : (3 + ns * 2 ^ 8 % word) / 256 ≡ ns = omega (arith, h) in
    (rw (tag, rest) refl, omega (arith, h))
decode-into_raw (wake_up vm_id vcpu) h =
    let raw = 4 + vm_id * 2 ^ 32 + vcpu * 2 ^ 16 in
    let tag : raw % 256 ≡ 4 = omega (arith, h.0, h.1) in
    let first : raw / 2 ^ 32 % 2 ^ 16 ≡ vm_id = omega (arith, h.0, h.1) in
    let second : raw / 2 ^ 16 % 2 ^ 16 ≡ vcpu = omega (arith, h.0, h.1) in
    (rw (tag, first, second) refl, omega (arith, h.0, h.1))
decode-into_raw (message vm_id) h =
    let tag : (5 + vm_id * 2 ^ 8) % 256 ≡ 5 = omega (arith, h) in
    let rest : (5 + vm_id * 2 ^ 8) / 256 % 2 ^ 16 ≡ vm_id = omega (arith, h) in
    (rw (tag, rest) refl, omega (arith, h))
decode-into_raw notify_waiters h = (refl, omega arith)
decode-into_raw aborted h = (refl, omega arith)
