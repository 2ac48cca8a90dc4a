-- ===== src/VCpu.antt =====
-- hfo2/src/hypervisor.rs: `vcpu_prepare_run`, `vcpu_run`, `switch_to_primary` and their callers.
-- A `SpinLock` that is held across calls is a field `locked`; the others are taken and released
-- within a call. The registers are the architecture's, by the functions that the code calls.
pub mod Running
use hafnium_verification.Prelude.{
  ℕ, zero, suc, ◌+◌, ◌-◌, Bool, true, false, not, ◌&&◌, ◌||◌, Option, none, some, List, [], ◌∷◌,
  if◌then◌else◌, ◌==◌, get_elem?, set,
}
use hafnium_verification.Abi.{
  HfVCpuRunReturn, preempted, yield, wait_for_interrupt, wait_for_message, wake_up, message,
  notify_waiters, aborted, into_raw,
}
use hafnium_verification.Mailbox.{Mailbox, MailboxState, received, try_read}
use hafnium_verification.Interrupts.{Interrupts, inject, is_interrupted}

pub data VCpuStatus : Type 0 where
  off : VCpuStatus
  ready : VCpuStatus
  blocked_mailbox : VCpuStatus
  blocked_interrupt : VCpuStatus
  status_aborted : VCpuStatus

-- What the code calls of `ArchRegs`.
pub record ArchRegs (R : Type 0) : Type 0 where
  pub set_retval : R → ℕ → R
  pub timer_mask : R → R
  pub timer_enabled : R → Bool
  pub timer_remaining_ns : R → ℕ
  pub timer_pending : R → Bool

pub record VCpu (R : Type 0) : Type 0 where
  pub status : VCpuStatus
  pub cpu : ℕ
  pub regs : R
  pub interrupts : Interrupts
  pub locked : Bool

pub record Vm (R : Type 0) : Type 0 where
  pub id : ℕ
  pub aborting : Bool
  pub mailbox : Mailbox
  pub vcpus : List (VCpu R)

abbrev pub sleep_indefinite : ℕ
sleep_indefinite = 72057594037927935

abbrev pub primary_vm_id : ℕ
primary_vm_id = 1

abbrev pub virtual_timer_intid : ℕ
virtual_timer_intid = 3

-- `VmManager::get`; the outer `none` is the failed assertion of `get_vm_index`.
abbrev pub vm_get {ℓ} : {A : Type ℓ} → List A → ℕ → Option (Option A)
vm_get vms zero = none
vm_get vms (suc index) = some (get_elem? vms index)

-- How an attempt to run a vCPU ends: the value for the primary VM, or the vCPU runs, or a panic.
pub data Run : Type 0 where
  refused : HfVCpuRunReturn → Run
  running : Run
  crashed : Run

module _ {R : Type 0} (arch : ArchRegs R) where
  open arch use {set_retval, timer_mask, timer_enabled, timer_remaining_ns, timer_pending}

  -- What a run of a blocked vCPU returns.
  abbrev pub sleep_result : VCpu R → HfVCpuRunReturn → (ℕ → HfVCpuRunReturn) → HfVCpuRunReturn
  sleep_result v run_ret wait =
      if not (timer_enabled v.regs) then run_ret else wait (timer_remaining_ns v.regs)

  -- The vCPU is run: its lock is kept.
  abbrev pub start_run : ℕ → VCpu R → Mailbox → Run × VCpu R × Mailbox
  start_run current_cpu v m = (running, record v { cpu = current_cpu; locked = true }, m)

  -- The third arm of the `match`, and the last.
  abbrev pub run_if_woken :
      ℕ → VCpu R → Mailbox → HfVCpuRunReturn → (ℕ → HfVCpuRunReturn) → Run × VCpu R × Mailbox
  run_if_woken current_cpu v m run_ret wait =
      if not (is_interrupted v.interrupts) && not (timer_pending v.regs)
      then (refused (sleep_result v run_ret wait), v, m)
      else start_run current_cpu v m

  unfoldable pub vcpu_prepare_run :
      ℕ → Bool → VCpu R → Mailbox → HfVCpuRunReturn → Run × VCpu R × Mailbox
  vcpu_prepare_run current_cpu aborting v m run_ret =
      if v.locked
      then (refused run_ret, v, m)
      else if aborting
      then (refused run_ret, record v { status = status_aborted }, m)
      else elim v.status [
        | off ↦ (refused run_ret, v, m)
        | status_aborted ↦ (refused run_ret, v, m)
        | ready ↦ start_run current_cpu v m
        | blocked_interrupt ↦ run_if_woken current_cpu v m run_ret wait_for_interrupt
        | blocked_mailbox ↦
            let (ok, m') = try_read m in
            if ok
            then start_run current_cpu (record v { regs = set_retval v.regs 0 }) m'
            else run_if_woken current_cpu v m run_ret wait_for_message
      ]

  -- What `vcpu_run` does once the vCPU is locked: an expired timer becomes an interrupt.
  abbrev pub inject_timer : VCpu R → VCpu R
  inject_timer v =
      if timer_pending v.regs
      then record v {
        interrupts = (inject v.interrupts virtual_timer_intid).1;
        regs = timer_mask v.regs;
      }
      else v

  -- `vcpu_run` of a vCPU that exists.
  abbrev pub run_in : ℕ → Vm R → ℕ → VCpu R → Run × Vm R
  run_in current_cpu vm vcpu_idx v =
      let (run, v', m') =
        vcpu_prepare_run current_cpu vm.aborting v vm.mailbox
          (wait_for_interrupt sleep_indefinite) in
      elim run [
        | refused ret ↦ (refused ret, record vm { mailbox = m'; vcpus = set vm.vcpus vcpu_idx v' })
        | running ↦
            (running, record vm { mailbox = m'; vcpus = set vm.vcpus vcpu_idx (inject_timer v') })
        | crashed ↦ (crashed, vm)
      ]

  unfoldable pub vcpu_run : ℕ → ℕ → ℕ → ℕ → List (Vm R) → Run × List (Vm R)
  unfolding vcpu_prepare_run
  vcpu_run current_vm current_cpu vm_id vcpu_idx vms =
      let ret = wait_for_interrupt sleep_indefinite in
      if not (current_vm == primary_vm_id) || (vm_id == primary_vm_id)
      then (refused ret, vms)
      else elim (vm_get vms vm_id) [
        | none ↦ (crashed, vms)
        | some found ↦ elim found [
          | none ↦ (refused ret, vms)
          | some vm ↦ elim (get_elem? vm.vcpus vcpu_idx) [
            | none ↦ (refused ret, vms)
            | some v ↦
                let (run, vm') = run_in current_cpu vm vcpu_idx v in (run, set vms (vm_id - 1) vm')
          ]
        ]
      ]

  -- `switch_to_primary`, with what the timer of the running pCPU says: the vCPU of the primary VM
  -- gets the return value, and the current one its new status.
  abbrev pub with_sleep : Bool → ℕ → HfVCpuRunReturn → HfVCpuRunReturn
  with_sleep enabled remaining preempted = preempted
  with_sleep enabled remaining yield = yield
  with_sleep enabled remaining (wait_for_interrupt ns) =
      wait_for_interrupt (if enabled then remaining else sleep_indefinite)
  with_sleep enabled remaining (wait_for_message ns) =
      wait_for_message (if enabled then remaining else sleep_indefinite)
  with_sleep enabled remaining (wake_up vm_id vcpu) = wake_up vm_id vcpu
  with_sleep enabled remaining (message vm_id) = message vm_id
  with_sleep enabled remaining notify_waiters = notify_waiters
  with_sleep enabled remaining aborted = aborted

  unfoldable pub switch_to_primary :
      Bool → ℕ → VCpu R → VCpu R → HfVCpuRunReturn → VCpuStatus → VCpu R × VCpu R
  unfolding into_raw
  switch_to_primary enabled remaining primary current primary_ret status = (
    record primary {
      regs = set_retval primary.regs (into_raw (with_sleep enabled remaining primary_ret));
    },
    record current { status = status },
  )
