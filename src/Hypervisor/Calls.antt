-- ===== src/Hypervisor/Calls.antt =====
-- What the calls on mailboxes and interrupts promise.
use hafnium_verification.Prelude.{
  ℕ, zero, suc, ◌≡◌, refl, ◌∙◌, inl, inr, Bool, true, false, not, ◌&&◌, ◌||◌, none, some, List,
  arith, Bool-cases, Option-cases, of_some, if◌then◌else◌, ◌==◌, leb, get_elem?,
}
use hafnium_verification.Mailbox.{
  Mailbox, MailboxState, empty, received, read, try_read, set_empty, is_waiter_list_empty,
}
use hafnium_verification.Interrupts.{Interrupts, is_interrupted, num_intids}
use hafnium_verification.VCpu.{VCpu, Vm, primary_vm_id, vm_get}
use hafnium_verification.Spci.{SpciReturn, success}
use hafnium_verification.Hypervisor.{
  Next, stay, switch, Code, fail, ok, act, mailbox_clear, spci_msg_recv, interrupt_inject,
  internal_interrupt_inject, is_injection_allowed,
}

abbrev pub is_success : SpciReturn → Bool
is_success success = true
is_success other = false

abbrev pub is_received : MailboxState → Bool
is_received received = true
is_received empty = false
is_received read = false

abbrev pub is_read : MailboxState → Bool
is_read received = false
is_read empty = false
is_read read = true

abbrev pub is_fail : Code → Bool
is_fail fail = true
is_fail ok = false
is_fail act = false

abbrev pub is_switch : Next → Bool
is_switch stay = false
is_switch (switch ret status) = true

-- `spci_msg_recv` succeeds if and only if the caller is a secondary VM with a received message, which
-- is then read; else it leaves the mailbox alone, and it gives up the pCPU if and only if it is a
-- secondary VM without one that may block and has no interrupt to take.
pub msg_recv_lem :
    (vm_id : ℕ) (block : Bool) (interrupts : Interrupts) (m : Mailbox)
    → (let r = spci_msg_recv vm_id block interrupts m in
        let got = not (vm_id == primary_vm_id) && is_received m.state in
        (is_success r.0 ≡ got)
        × (r.2 ≡ (if got then record m { state = read } else m))
        × (is_switch r.1 ≡ (
            not (vm_id == primary_vm_id)
            && not (is_received m.state)
            && block
            && not (is_interrupted interrupts))))
unfolding spci_msg_recv try_read
msg_recv_lem vm_id block interrupts m = ground arith

-- `mailbox_clear` fails if and only if a received message has not been read, and then changes
-- nothing; else the mailbox is empty. It gives up the pCPU if and only if a secondary VM has cleared
-- a message that was read and there are waiters.
pub mailbox_clear_lem :
    (vm_id : ℕ) (m : Mailbox)
    → (let r = mailbox_clear vm_id m in
        (is_fail r.0 ≡ is_received m.state)
        × (r.2 ≡ (if is_received m.state then m else set_empty m))
        × (is_switch r.1
            ≡ (is_read m.state && not (is_waiter_list_empty m) && not (vm_id == primary_vm_id))))
unfolding mailbox_clear
mailbox_clear_lem vm_id m = ground arith

no_vcpu : (a b : Bool) → true ≡ not (a && b && false)
no_vcpu a b = ground arith

guarded : (a b c : Bool) → (a || not b) ≡ true → true ≡ not (not a && b && c)
guarded a b c h = ground (arith, h)

passed : (a b : Bool) → (a || not b) ≡ false → false ≡ not (not a && b && true)
passed a b h = ground (arith, h)

module _ {R : Type 0} where
  -- The VM and its vCPU exist.
  abbrev pub has_vcpu : List (Vm R) → ℕ → ℕ → Bool
  has_vcpu vms target_vm target_vcpu = elim (vm_get vms target_vm) [
    | none ↦ false
    | some found ↦ elim found [
      | none ↦ false
      | some vm ↦ elim (get_elem? vm.vcpus target_vcpu) [ none ↦ false | some v ↦ true ]
    ]
  ]

  inject_code :
      (current_vm : ℕ) (same : Bool) (target_vm target_vcpu intid : ℕ) (v : VCpu R)
      → is_fail (internal_interrupt_inject current_vm same target_vm target_vcpu intid v).0 ≡ false
  inject_code current_vm same target_vm target_vcpu intid v = ground arith

  -- When a call of `interrupt_inject` fails, and what it does then.
  abbrev pub Judged : ℕ → ℕ → ℕ → ℕ → List (Vm R) → Code × Next × List (Vm R) → Type 0
  Judged current_vm target_vm target_vcpu intid vms r =
      (is_fail r.0
        ≡ not (
            not (leb num_intids intid)
            && is_injection_allowed current_vm target_vm
            && has_vcpu vms target_vm target_vcpu))
      × ((if is_fail r.0 then vms else r.2) ≡ r.2)

  -- If `interrupt_inject` returns, it fails if and only if the interrupt number is 64 or above, the
  -- caller is neither the primary VM nor the target, or there is no such vCPU; if it fails, it changes
  -- no VM.
  pub interrupt_inject_lem :
      (current_vm : ℕ) (same : Bool) (target_vm target_vcpu intid : ℕ) (vms : List (Vm R))
      (r : Code × Next × List (Vm R))
      → interrupt_inject current_vm same target_vm target_vcpu intid vms ≡ some r
      → Judged current_vm target_vm target_vcpu intid vms r
  unfolding interrupt_inject
  interrupt_inject_lem current_vm same zero target_vcpu intid vms r h = absurd cc
  interrupt_inject_lem current_vm same (suc index) target_vcpu intid vms r h =
      let many = leb num_intids intid in
      let allowed = is_injection_allowed current_vm (suc index) in
      let P = Judged current_vm (suc index) target_vcpu intid vms in
      elim (Option-cases (get_elem? vms index)) [
        | inl e ↦
            of_some P (rw (e, interrupt_inject) at h)
              (rw (e, has_vcpu) (no_vcpu (not many) allowed), refl)
        | inr (vm, e) ↦ elim (Bool-cases (many || not allowed)) [
          | inl g ↦
              of_some P (rw (e, g, interrupt_inject) at h)
                (guarded many allowed (has_vcpu vms (suc index) target_vcpu) g, refl)
          | inr g ↦ elim (Option-cases (get_elem? vm.vcpus target_vcpu)) [
            | inl f ↦
                of_some P (rw (e, g, f, interrupt_inject) at h)
                  (rw (e, f, has_vcpu) (no_vcpu (not many) allowed), refl)
            | inr (v, f) ↦ of_some P (rw (e, g, f, interrupt_inject) at h) (
                let c = inject_code current_vm same (suc index) target_vcpu intid v in
                (rw (e, f, has_vcpu) (c ∙ passed many allowed g), rw c refl))
          ]
        ]
      ]
