-- ===== src/Hypervisor.antt =====
-- hfo2/src/hypervisor.rs: the calls on mailboxes and interrupts, and those that give up the pCPU.
-- A call returns its value and, as `Next`, whether it has switched to the primary VM: the value for
-- the primary VM's run, and the new status of the current vCPU.
pub mod Calls
pub mod Share
pub mod Send
pub mod Arrives
pub mod Delivery
pub mod Sharing
use hafnium_verification.Prelude.{
  ℕ, zero, suc, ◌-◌, Bool, true, false, not, ◌&&◌, ◌||◌, Option, none, some, List, [], ◌∷◌,
  if◌then◌else◌, ◌==◌, leb, get_elem?, set,
}
use hafnium_verification.Abi.{
  HfVCpuRunReturn, preempted, yield, wait_for_interrupt, wait_for_message, wake_up, message,
  notify_waiters, aborted,
}
use hafnium_verification.Mailbox.{
  Mailbox, MailboxState, empty, received, read, try_read, set_empty, is_waiter_list_empty,
  fetch_waiter, mem, enqueue_ready_list, dequeue_ready_list,
}
use hafnium_verification.Interrupts.{Interrupts, inject, is_interrupted, num_intids}
use hafnium_verification.VCpu.{
  VCpu, Vm, VCpuStatus, off, ready, blocked_mailbox, blocked_interrupt, status_aborted,
  primary_vm_id, sleep_indefinite, vm_get,
}
use hafnium_verification.Spci.{SpciReturn, success, interrupted, retry}

pub data Next : Type 0 where
  stay : Next
  switch : HfVCpuRunReturn → VCpuStatus → Next

abbrev pub preempt : Next
preempt = switch preempted ready

abbrev pub wait_for_interrupt_call : Next
wait_for_interrupt_call = switch (wait_for_interrupt sleep_indefinite) blocked_interrupt

abbrev pub vcpu_off : Next
vcpu_off = switch (wait_for_interrupt sleep_indefinite) off

abbrev pub spci_yield : ℕ → Next
spci_yield current_vm = if current_vm == primary_vm_id then stay else switch yield ready

-- The `i64` that calls return: -1, 0 and 1.
pub data Code : Type 0 where
  fail : Code
  ok : Code
  act : Code

abbrev pub waiter_result : ℕ → Mailbox → Code × Next
waiter_result vm_id m =
    if is_waiter_list_empty m
    then (ok, stay)
    else if vm_id == primary_vm_id
    then (act, stay)
    else (ok, switch notify_waiters ready)

unfoldable pub mailbox_clear : ℕ → Mailbox → Code × Next × Mailbox
mailbox_clear vm_id m = elim m.state [
  | empty ↦ (ok, stay, m)
  | received ↦ (fail, stay, m)
  | read ↦ let (code, next) = waiter_result vm_id (set_empty m) in (code, next, set_empty m)
]

-- `spci_msg_recv`, with the interrupts of the current vCPU.
unfoldable pub spci_msg_recv : ℕ → Bool → Interrupts → Mailbox → SpciReturn × Next × Mailbox
spci_msg_recv vm_id block interrupts m =
    let (got, m') = try_read m in
    if vm_id == primary_vm_id
    then (interrupted, stay, m)
    else if got
    then (success, stay, m')
    else if not block
    then (retry, stay, m')
    else if not (is_interrupted interrupts)
    then (interrupted, switch (wait_for_message sleep_indefinite) blocked_mailbox, m')
    else (interrupted, stay, m')

abbrev pub mailbox_writable_get : Mailbox → Option ℕ × Mailbox
mailbox_writable_get m = dequeue_ready_list m

-- `mailbox_waiter_get`, on the mailboxes in the order of the VMs; `none` outside is a panic.
unfoldable pub mailbox_waiter_get : ℕ → ℕ → List Mailbox → Option (Option ℕ × List Mailbox)
mailbox_waiter_get current_vm vm_id boxes =
    if not (current_vm == primary_vm_id) then some (none, boxes) else elim (vm_get boxes vm_id) [
      | none ↦ none
      | some found ↦ elim found [
        | none ↦ some (none, boxes)
        | some m ↦
            let (waiter, m') = fetch_waiter m in
            let boxes' = set boxes (vm_id - 1) m' in
            elim waiter [
              | none ↦ some (none, boxes')
              | some w ↦ elim (get_elem? boxes' (w - 1)) [
                | none ↦ some (some w, boxes')
                | some waiting ↦ some (
                  some w,
                  if mem vm_id waiting.ready_list
                      then boxes'
                      else set boxes' (w - 1) (enqueue_ready_list waiting vm_id),
                )
              ]
            ]
      ]
    ]

abbrev pub is_injection_allowed : ℕ → ℕ → Bool
is_injection_allowed current_vm target_vm =
    (current_vm == primary_vm_id) || (current_vm == target_vm)

module _ {R : Type 0} where
  -- `internal_interrupt_inject`; `same` is that the target is the current vCPU.
  abbrev pub internal_interrupt_inject : ℕ → Bool → ℕ → ℕ → ℕ → VCpu R → Code × Next × VCpu R
  internal_interrupt_inject current_vm same target_vm target_vcpu intid v =
      let (told, interrupts') = inject v.interrupts intid in
      let v' = record v { interrupts = interrupts' } in
      if not told
      then (ok, stay, v')
      else if current_vm == primary_vm_id
      then (act, stay, v')
      else if not same
      then (ok, switch (wake_up target_vm target_vcpu) ready, v')
      else (ok, stay, v')

  -- `interrupt_inject`; `none` is a panic.
  unfoldable pub interrupt_inject :
      ℕ → Bool → ℕ → ℕ → ℕ → List (Vm R) → Option (Code × Next × List (Vm R))
  interrupt_inject current_vm same target_vm target_vcpu intid vms = elim (vm_get vms target_vm) [
    | none ↦ none
    | some found ↦ elim found [
      | none ↦ some (fail, stay, vms)
      | some vm ↦
          if leb num_intids intid || not (is_injection_allowed current_vm target_vm)
          then some (fail, stay, vms)
          else elim (get_elem? vm.vcpus target_vcpu) [
            | none ↦ some (fail, stay, vms)
            | some v ↦
                let (code, next, v') =
                  internal_interrupt_inject current_vm same target_vm target_vcpu intid v in
                some (
                  code,
                  next,
                  set vms (target_vm - 1) (record vm { vcpus = set vm.vcpus target_vcpu v' }),
                )
          ]
    ]
  ]
