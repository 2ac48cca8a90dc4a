-- ===== src/VCpu/Running.antt =====
-- When a vCPU runs, and what a run leaves alone.
use hafnium_verification.Prelude.{
  ℕ, zero, suc, ◌≡◌, ◌≢◌, ap, inl, inr, Bool, true, false, not, ◌&&◌, ◌||◌, some, List, arith,
  Bool-cases, Option-cases, if◌then◌else◌, ◌==◌, get_elem?,
}
use hafnium_verification.Abi.{HfVCpuRunReturn, wait_for_interrupt}
use hafnium_verification.Mailbox.{Mailbox, try_read}
use hafnium_verification.Interrupts.{is_interrupted}
use hafnium_verification.VCpu.{
  VCpu, Vm, off, ready, blocked_mailbox, blocked_interrupt, status_aborted, ArchRegs, Run, refused,
  running, crashed, vcpu_prepare_run, vcpu_run, run_in, primary_vm_id, sleep_indefinite, vm_get,
}

false-true : false ≡ true → ⊥
false-true h = cc

abbrev pub is_running : Run → Bool
is_running (refused ret) = false
is_running running = true
is_running crashed = false

module _ {R : Type 0} where
  abbrev pub waits_for_message : VCpu R → Bool
  waits_for_message v = elim v.status [
    | off ↦ false
    | status_aborted ↦ false
    | ready ↦ false
    | blocked_interrupt ↦ false
    | blocked_mailbox ↦ true
  ]

module _ {R : Type 0} (arch : ArchRegs R) where
  open arch use {timer_pending, set_retval}

  -- There is something for the vCPU to do.
  abbrev pub has_work : VCpu R → Mailbox → Bool
  has_work v m = elim v.status [
    | off ↦ false
    | status_aborted ↦ false
    | ready ↦ true
    | blocked_interrupt ↦ is_interrupted v.interrupts || timer_pending v.regs
    | blocked_mailbox ↦ (try_read m).0 || is_interrupted v.interrupts || timer_pending v.regs
  ]

  -- `vcpu_prepare_run` lets a vCPU run if and only if no pCPU holds its lock, its VM does not abort,
  -- and it has something to do: it is ready, or it is blocked and there is an enabled and pending
  -- interrupt, an expired timer or, if it waits for one, a received message.
  pub prepare_run_iff :
      (current_cpu : ℕ) (aborting : Bool) (v : VCpu R) (m : Mailbox) (ret : HfVCpuRunReturn)
      → is_running (vcpu_prepare_run arch current_cpu aborting v m ret).0
        ≡ (not v.locked && not aborting && has_work v m)
  unfolding vcpu_prepare_run
  prepare_run_iff current_cpu aborting v m ret = ground arith

  -- After `vcpu_prepare_run` the lock is held if it was or if the vCPU runs; a vCPU that runs is
  -- assigned to the current pCPU.
  pub prepare_run-locked :
      (current_cpu : ℕ) (aborting : Bool) (v : VCpu R) (m : Mailbox) (ret : HfVCpuRunReturn)
      → (let r = vcpu_prepare_run arch current_cpu aborting v m ret in
          (r.1.locked ≡ (v.locked || is_running r.0))
          × (r.1.cpu ≡ (if is_running r.0 then current_cpu else v.cpu)))
  unfolding vcpu_prepare_run
  prepare_run-locked current_cpu aborting v m ret = ground arith

  -- `vcpu_prepare_run` reads a received message, and gives `SPCI_SUCCESS` for it, if the vCPU waits
  -- for one, its lock is free and its VM does not abort; it leaves the mailbox alone otherwise.
  pub prepare_run-mailbox :
      (current_cpu : ℕ) (aborting : Bool) (v : VCpu R) (m : Mailbox) (ret : HfVCpuRunReturn)
      → (let r = vcpu_prepare_run arch current_cpu aborting v m ret in
          let takes = not v.locked && not aborting && waits_for_message v && (try_read m).0 in
          (r.2 ≡ (if takes then (try_read m).1 else m))
          × (r.1.regs ≡ (if takes then set_retval v.regs 0 else v.regs)))
  unfolding vcpu_prepare_run try_read
  prepare_run-mailbox current_cpu aborting v m ret = ground arith

  -- What holds of a vCPU that `vcpu_run` has let run.
  pub record Started (current_vm vm_id vcpu_idx : ℕ) (vms : List (Vm R)) : Type 0 where
    pub by_primary : current_vm ≡ primary_vm_id
    pub not_primary : vm_id ≢ primary_vm_id
    pub vm : Vm R
    pub v : VCpu R
    pub has_vm : vm_get vms vm_id ≡ some (some vm)
    pub has_vcpu : get_elem? vm.vcpus vcpu_idx ≡ some v
    pub free : v.locked ≡ false
    pub alive : vm.aborting ≡ false
    pub work : has_work v vm.mailbox ≡ true

  run_in-running :
      (current_cpu : ℕ) (vm : Vm R) (vcpu_idx : ℕ) (v : VCpu R)
      → is_running (run_in arch current_cpu vm vcpu_idx v).0 ≡ true
      → (not v.locked && not vm.aborting && has_work v vm.mailbox) ≡ true
  run_in-running current_cpu vm vcpu_idx v h = ground (
    arith,
    h,
    prepare_run_iff current_cpu vm.aborting v vm.mailbox (wait_for_interrupt sleep_indefinite),
  )

  not-true : (b : Bool) → not b ≡ true → b ≡ false
  not-true b h = ground (arith, h)

  and_both : (a b : Bool) → (a && b) ≡ true → (a ≡ true) × (b ≡ true)
  and_both a b h = ground (arith, h)

  guard_lem :
      (a b : ℕ)
      → (not (a == primary_vm_id) || (b == primary_vm_id)) ≡ false
      → (a ≡ primary_vm_id) × (b ≢ primary_vm_id)
  guard_lem a b h = (ground (arith, h), λ e. ground (arith, h, e))

  -- If `vcpu_run` lets a vCPU run, the caller is the primary VM and the vCPU is one of another VM
  -- that exists and does not abort; no pCPU held its lock, and it had something to do.
  pub vcpu_run-Started :
      (current_vm current_cpu vm_id vcpu_idx : ℕ) (vms : List (Vm R))
      → is_running (vcpu_run arch current_vm current_cpu vm_id vcpu_idx vms).0 ≡ true
      → Started current_vm vm_id vcpu_idx vms
  unfolding vcpu_run
  vcpu_run-Started current_vm current_cpu zero vcpu_idx vms h = absurd (ground (arith, h))
  vcpu_run-Started current_vm current_cpu (suc index) vcpu_idx vms h =
      let guard = not (current_vm == primary_vm_id) || (suc index == primary_vm_id) in
      elim (Bool-cases guard) [
        | inl g ↦ absurd (false-true (rw (g, vcpu_run) at h))
        | inr g ↦ elim (Option-cases (get_elem? vms index)) [
          | inl e ↦ absurd (false-true (rw (g, e, vcpu_run) at h))
          | inr (vm, e) ↦ elim (Option-cases (get_elem? vm.vcpus vcpu_idx)) [
            | inl f ↦ absurd (false-true (rw (g, e, f, vcpu_run) at h))
            | inr (v, f) ↦
                let k = run_in-running current_cpu vm vcpu_idx v (rw (g, e, f, vcpu_run) at h) in
                let (rest, work) =
                  and_both (not v.locked && not vm.aborting) (has_work v vm.mailbox) k in
                let (free, alive) = and_both (not v.locked) (not vm.aborting) rest in
                let (by_primary, not_primary) = guard_lem current_vm (suc index) g in
                record {
                  by_primary = by_primary;
                  not_primary = not_primary;
                  vm = vm;
                  v = v;
                  has_vm = ap some e;
                  has_vcpu = f;
                  free = not-true v.locked free;
                  alive = not-true vm.aborting alive;
                  work = work;
                }
          ]
        ]
      ]
