-- ===== src/Tests/Calls.antt =====
-- hfo2/src/hypervisor.rs and spci_architected_message.rs: calls on two small VMs.
use hafnium_verification.Prelude.{
  Bool, arith, ℕ, ◌≡◌, refl, true, false, not, ◌&&◌, ◌||◌, some, List, [], ◌∷◌, if◌then◌else◌, ◌==◌,
}
use hafnium_verification.Addr.{ipa_add}
use hafnium_verification.Mode.{Mode, mode_r, mode_w, mode_invalid, mode_unowned, ◌∪◌}
use hafnium_verification.MPool.{MPool, alone}
use hafnium_verification.Abi.{preempted}
use hafnium_verification.Interrupts.{Interrupts, is_interrupted}
use hafnium_verification.Mailbox.Waiters.{Tracks, Waits, wait_for-Waits}
use hafnium_verification.Mailbox.{
  wait_for, fetch_waiter, pop_links, Mailbox, received, read, try_read, set_empty,
  is_waiter_list_empty,
}
use hafnium_verification.VCpu.{
  VCpu, Vm, blocked_mailbox, ArchRegs, vcpu_prepare_run, vcpu_run, primary_vm_id,
}
use hafnium_verification.VCpu.Running.{
  has_work, is_running, waits_for_message, prepare_run_iff, prepare_run-locked, prepare_run-mailbox,
  vcpu_run-Started, Started,
}
use hafnium_verification.Hypervisor.{fail, stay, spci_msg_recv, mailbox_clear, interrupt_inject}
use hafnium_verification.Hypervisor.Calls.{
  is_success, is_received, is_read, is_fail, is_switch, msg_recv_lem, mailbox_clear_lem,
  interrupt_inject_lem, Judged,
}
use hafnium_verification.Spci.{
  PageTables, SpciMemoryRegion, donate, mem_transition_table, spci_msg_get_next_state,
  spci_share_memory,
}
use hafnium_verification.Spci.Transitions.{IsAccess, coherent, get_next_state-coherent}
use hafnium_verification.Spci.Restore.{Settled, spci_share_memory_lem}

-- Registers that hold a return value, and a timer that is off.
abbrev regs : ArchRegs ℕ
regs = record {
  set_retval = λ r v. v;
  timer_mask = λ r. r;
  timer_enabled = λ r. false;
  timer_remaining_ns = λ r. 0;
  timer_pending = λ r. false;
}

abbrev no_interrupts : Interrupts
no_interrupts = record { enabled = []; pending = []; enabled_and_pending_count = 0 }

abbrev full : Mailbox
full = record { state = received; recv = 4096; send = 8192; waiter_list = 1 ∷ []; ready_list = [] }

abbrev was_read : Mailbox
was_read = record full { state = read }

abbrev waiting : VCpu ℕ
waiting = record {
  status = blocked_mailbox;
  cpu = 0;
  regs = 7;
  interrupts = no_interrupts;
  locked = false;
}

abbrev vms : List (Vm ℕ)
vms =
    record { id = 1; aborting = false; mailbox = full; vcpus = [] }
    ∷ record { id = 2; aborting = false; mailbox = full; vcpus = waiting ∷ [] }
    ∷ []

prepare_run_iff_example :
    is_running (vcpu_prepare_run regs 3 false waiting full preempted).0
    ≡ (not waiting.locked && not false && has_work regs waiting full)
prepare_run_iff_example = prepare_run_iff regs 3 false waiting full preempted

prepare_run-locked_example :
    (let r = vcpu_prepare_run regs 3 false waiting full preempted in
      (r.1.locked ≡ (waiting.locked || is_running r.0))
      × (r.1.cpu ≡ (if is_running r.0 then 3 else waiting.cpu)))
prepare_run-locked_example = prepare_run-locked regs 3 false waiting full preempted

prepare_run-mailbox_example :
    (let r = vcpu_prepare_run regs 3 false waiting full preempted in
      let takes =
        not waiting.locked && not false && waits_for_message waiting && (try_read full).0 in
      (r.2 ≡ (if takes then (try_read full).1 else full))
      × (r.1.regs ≡ (if takes then regs.set_retval waiting.regs 0 else waiting.regs)))
prepare_run-mailbox_example = prepare_run-mailbox regs 3 false waiting full preempted

runs : is_running (vcpu_run regs 1 3 2 0 vms).0 ≡ true
unfolding vcpu_run vcpu_prepare_run try_read is_interrupted
runs = refl

vcpu_run-Started_example : Started regs 1 2 0 vms
vcpu_run-Started_example = vcpu_run-Started regs 1 3 2 0 vms runs

-- VM 1 waits for VM 2, and VM 3 comes to wait for it, too.
abbrev links : ℕ → ℕ → Bool
links w i = (w == 1) && (i == 2)

full_tracked : Tracks 2 links full
full_tracked w = ground arith

abbrev waited : Bool × (ℕ → Bool) × Mailbox
waited = (true, λ i. if i == 2 then true else links 3 i, record full { waiter_list = 1 ∷ 3 ∷ [] })

waits : wait_for 16 3 2 (links 3) full ≡ some waited
unfolding wait_for
waits = refl

wait_for-Waits_example :
    Waits 3 2 links waited
    × Tracks 2 (pop_links 2 (fetch_waiter full).0 links) (fetch_waiter full).1
wait_for-Waits_example = wait_for-Waits 16 3 2 links full waited full_tracked waits

msg_recv_lem_example :
    (let r = spci_msg_recv 2 true no_interrupts full in
      let got = not (2 == primary_vm_id) && is_received full.state in
      (is_success r.0 ≡ got)
      × (r.2 ≡ (if got then record full { state = read } else full))
      × (is_switch r.1 ≡ (
          not (2 == primary_vm_id)
          && not (is_received full.state)
          && true
          && not (is_interrupted no_interrupts))))
msg_recv_lem_example = msg_recv_lem 2 true no_interrupts full

mailbox_clear_lem_example :
    (let r = mailbox_clear 2 was_read in
      (is_fail r.0 ≡ is_received was_read.state)
      × (r.2 ≡ (if is_received was_read.state then was_read else set_empty was_read))
      × (is_switch r.1 ≡ (
          is_read was_read.state
          && not (is_waiter_list_empty was_read)
          && not (2 == primary_vm_id))))
mailbox_clear_lem_example = mailbox_clear_lem 2 was_read

refuses : interrupt_inject 2 false 1 0 5 vms ≡ some (fail, stay, vms)
unfolding interrupt_inject
refuses = refl

interrupt_inject_lem_example : Judged 2 1 0 5 vms (fail, stay, vms)
interrupt_inject_lem_example = interrupt_inject_lem 2 false 1 0 5 vms (fail, stay, vms) refuses

-- Page tables that know one region.
abbrev one_region : PageTables Mode
one_region = record {
  get_mode = λ mode begin end. some mode;
  identity_map = λ old begin end mode mpool. (mode, mpool, true);
  defrag = λ mode mpool. (mode, mpool);
}

abbrev read_write : Mode
read_write = mode_r ∪ mode_w

read_write-IsAccess : IsAccess read_write
read_write-IsAccess = record { valid = refl; owned = refl; exclusive = refl }

abbrev outside : Mode
outside = mode_invalid ∪ mode_unowned

donates :
    spci_msg_get_next_state (mem_transition_table donate) read_write read_write outside
    ≡ some (read_write ∪ outside, read_write)
unfolding spci_msg_get_next_state
donates = refl

get_next_state-coherent_example :
    (coherent read_write outside ≡ true) × (coherent (read_write ∪ outside) read_write ≡ true)
get_next_state-coherent_example =
    get_next_state-coherent donate read_write read_write outside (read_write ∪ outside) read_write
      read_write-IsAccess donates

abbrev region : SpciMemoryRegion
region = record { count = 1; address = 4096; page_count = 1 }

abbrev empty_pool : MPool
empty_pool = alone (record { entry_list = []; chunk_list = [] })

spci_share_memory_lem_example :
    (let r =
        spci_share_memory one_region false outside read_write region read_write donate empty_pool in
      Settled one_region 4096 (ipa_add 4096 4096) outside read_write r.0 r.1 r.2)
spci_share_memory_lem_example =
    spci_share_memory_lem one_region false outside read_write region read_write donate empty_pool
      read_write-IsAccess
