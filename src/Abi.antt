-- ===== src/Abi.antt =====
-- hfo2/src/abi.rs: what a run of a vCPU returns, and its packing into 64 bits.
-- The bits that `|` joins do not overlap, so it is written as a sum.
pub mod Packing
use hafnium_verification.Prelude.{
  ℕ, ◌+◌, ◌*◌, ◌/◌, ◌%◌, ◌^◌, Bool, Option, none, some, if◌then◌else◌, ◌==◌, word,
}

pub data HfVCpuRunReturn : Type 0 where
  preempted : HfVCpuRunReturn
  yield : HfVCpuRunReturn
  wait_for_interrupt : ℕ → HfVCpuRunReturn
  wait_for_message : ℕ → HfVCpuRunReturn
  wake_up : ℕ → ℕ → HfVCpuRunReturn
  message : ℕ → HfVCpuRunReturn
  notify_waiters : HfVCpuRunReturn
  aborted : HfVCpuRunReturn

unfoldable pub into_raw : HfVCpuRunReturn → ℕ
into_raw preempted = 0
into_raw yield = 1
into_raw (wait_for_interrupt ns) = 2 + ns * 2 ^ 8 % word
into_raw (wait_for_message ns) = 3 + ns * 2 ^ 8 % word
into_raw (wake_up vm_id vcpu) = 4 + vm_id * 2 ^ 32 + vcpu * 2 ^ 16
into_raw (message vm_id) = 5 + vm_id * 2 ^ 8
into_raw notify_waiters = 6
into_raw aborted = 7

pub data HfShare : Type 0 where
  give : HfShare
  lend : HfShare
  share : HfShare

-- `TryFrom<usize> for HfShare`
unfoldable pub try_from : ℕ → Option HfShare
try_from from =
    if from == 0
    then some give
    else if from == 1
    then some lend
    else if from == 2
    then some share
    else none
