-- ===== src/Hypervisor/Send.antt =====
-- hfo2/src/hypervisor.rs: `spci_msg_send`, with `spci_msg_handle_architected_message` of
-- spci_architected_message.rs.
use hafnium_verification.Prelude.{
  ℕ, ◌+◌, ◌-◌, ◌*◌, ◌^◌, Bool, true, false, not, ◌&&◌, ◌||◌, Option, none, some, List, ◌++◌,
  if◌then◌else◌, ◌==◌, ltb, leb, set, get_elem?, take, drop, sub_usize,
}
use hafnium_verification.Text.{Bytes}
use hafnium_verification.Abi.{message}
use hafnium_verification.Mailbox.{
  Mailbox, is_empty, is_configured, set_read, set_received, wait_for,
}
use hafnium_verification.Mode.{mode_r, mode_w, mode_x, ◌∪◌}
use hafnium_verification.MPool.{MPool}
use hafnium_verification.VCpu.{ready, primary_vm_id, vm_get}
use hafnium_verification.Spci
use hafnium_verification.Spci.{
  SpciReturn, success, invalid_parameters, busy, SpciMemoryShare, lend, relinquish, donate,
  PageTables, SpciMemoryRegion, returned, panicked, spci_memory_attrs_to_mode,
  spci_validate_call_share_memory,
}
use hafnium_verification.Hypervisor.{Next, stay, switch}

-- A page with a message: the header, and the bytes behind it.
pub record SpciMessage : Type 0 where
  pub impdef : Bool
  pub len : ℕ
  pub target_vm_id : ℕ
  pub source_vm_id : ℕ
  pub payload : Bytes

-- 4096 bytes of the mailbox less 16 of the header
abbrev pub spci_msg_payload_max : ℕ
spci_msg_payload_max = 4080

-- `message_buffer.len()`, `HF_MAILBOX_SIZE`
abbrev pub message_buffer_len : ℕ
message_buffer_len = 4096

abbrev pub header_size : ℕ
header_size = 8

abbrev pub lend_size : ℕ
lend_size = 8

-- What a call needs of a VM: its page table, its mailbox, and its pages for messages.
pub record Party (P : Type 0) : Type 0 where
  pub id : ℕ
  pub ptable : P
  pub mailbox : Mailbox
  pub waits : ℕ → Bool
  pub outbox : SpciMessage
  pub inbox : SpciMessage

-- The first `n` bytes of a copy over what was there.
abbrev pub copy_bytes : ℕ → Bytes → Bytes → Bytes
copy_bytes n source dest = take n source ++ drop n dest

-- The header of a message with the payload of another.
abbrev pub with_payload : SpciMessage → Bytes → SpciMessage
with_payload m payload = record m { payload = payload }

-- A number in the bytes of a message, the lowest byte first.
abbrev pub byte : Bytes → ℕ → ℕ
byte bs i = elim (get_elem? bs i) [ none ↦ 0 | some b ↦ b ]

abbrev pub le16 : Bytes → ℕ → ℕ
le16 bs i = byte bs i + byte bs (i + 1) * 2 ^ 8

abbrev pub le32 : Bytes → ℕ → ℕ
le32 bs i = le16 bs i + le16 bs (i + 2) * 2 ^ 16

abbrev pub le64 : Bytes → ℕ → ℕ
le64 bs i = le32 bs i + le32 bs (i + 4) * 2 ^ 32

-- Any other number of the type is undefined.
unfoldable pub share_of : ℕ → Option SpciMemoryShare
share_of n =
    if n == 0
    then some lend
    else if n == 1
    then some relinquish
    else if n == 2
    then some donate
    else none

-- The count behind the handle, and the first constituent.
unfoldable pub region_at : Bytes → ℕ → SpciMemoryRegion
region_at bs i = record {
  count = le32 bs (i + 4);
  address = le64 bs (i + 8);
  page_count = le32 bs (i + 16);
}

-- How the handling of a message ends: a result, or a panic or undefined behaviour.
pub data Handled (P : Type 0) : Type 0 where
  handled : SpciReturn → P → P → SpciMessage → MPool → Handled P
  broken : Handled P

module _ {P : Type 0} (tables : PageTables P) where
  -- The copy counts headers of 8 bytes; beyond the page it is undefined.
  abbrev pub copy_architected : SpciMessage → Bytes → SpciMessage → Option SpciMessage
  copy_architected header buffer to_msg =
      let n = header.len * header_size in
      if leb n spci_msg_payload_max
      then some (with_payload header (copy_bytes n buffer to_msg.payload))
      else none

  unfoldable pub share_by_message :
      P → P → SpciMemoryShare → Bytes → ℕ → MPool → Spci.Outcome × P × P × MPool
  unfolding spci_validate_call_share_memory
  share_by_message to from kind buffer len fallback =
      let size = sub_usize len header_size in
      elim kind [
        | lend ↦
            spci_validate_call_share_memory tables false to from
              (region_at buffer (header_size + lend_size)) (sub_usize size lend_size)
              (spci_memory_attrs_to_mode (le16 buffer (header_size + 2))) lend fallback
        | relinquish ↦
            spci_validate_call_share_memory tables false to from (region_at buffer header_size) size
              (mode_r ∪ mode_w ∪ mode_x) relinquish fallback
        | donate ↦
            spci_validate_call_share_memory tables false to from (region_at buffer header_size) size
              (mode_r ∪ mode_w ∪ mode_x) donate fallback
      ]

  -- From the result of the sharing on.
  abbrev pub after_share :
      SpciMessage → Bytes → SpciMessage → Spci.Outcome → P → P → MPool → Handled P
  after_share header buffer to_msg panicked to' from' pool = broken
  after_share header buffer to_msg (returned success) to' from' pool =
      elim (copy_architected header buffer to_msg) [
        | none ↦ broken
        | some inbox ↦ handled success to' from' inbox pool
      ]
  after_share header buffer to_msg (returned ret) to' from' pool =
      handled ret to' from' (with_payload header to_msg.payload) pool

  unfoldable pub spci_msg_handle_architected_message :
      P → P → Bytes → SpciMessage → SpciMessage → MPool → Handled P
  unfolding share_by_message
  spci_msg_handle_architected_message to from buffer header to_msg fallback =
      elim (share_of (le16 buffer 0)) [
        | none ↦ broken
        | some kind ↦
            let (out, to', from', pool) =
              share_by_message to from kind buffer header.len fallback in
            after_share header buffer to_msg out to' from' pool
      ]

abbrev pub may_receive : Mailbox → Bool
may_receive m = is_empty m && is_configured m

-- What a call returns, and the VMs, the pool and the internal buffer that it leaves.
pub record Sent (P : Type 0) : Type 0 where
  pub ret : SpciReturn
  pub next : Next
  pub parties : List (Party P)
  pub pool : MPool
  pub buffer : Bytes

module _ {P : Type 0} (tables : PageTables P) (max_vms : ℕ) where
  abbrev Call : Type 0
  Call = Option (Sent P)

  abbrev refuse : SpciReturn → List (Party P) → MPool → Bytes → Call
  refuse ret vms pool buffer =
      some (record { ret = ret; next = stay; parties = vms; pool = pool; buffer = buffer })

  abbrev pub put : Party P → List (Party P) → List (Party P)
  put p vms = set vms (p.id - 1) p

  -- A message that has arrived in the inbox.
  abbrev pub announce : ℕ → Party P → List (Party P) → MPool → Bytes → Call
  announce from_id to vms pool buffer =
      let to_primary = to.id == primary_vm_id in
      let mailbox' = if to_primary then set_read to.mailbox else set_received to.mailbox in
      let next =
        if to_primary || not (from_id == primary_vm_id)
        then switch (message to.id) ready
        else stay in
      some (record {
        ret = success;
        next = next;
        parties = put (record to { mailbox = mailbox' }) vms;
        pool = pool;
        buffer = buffer;
      })

  -- From the handling of the message on.
  abbrev pub after_handled : Party P → Party P → List (Party P) → MPool → Bytes → Handled P → Call
  after_handled from to vms pool buffer broken = none
  after_handled from to vms pool buffer (handled ret to' from' inbox pool') =
      let to_party = record to { ptable = to'; inbox = inbox } in
      let vms' = put to_party (put (record from { ptable = from' }) vms) in
      elim ret [
        | success ↦ announce from.id to_party vms' pool' buffer
        | other ↦ refuse other vms' pool' buffer
      ]

  unfoldable pub send_architected : Party P → Party P → List (Party P) → MPool → Bytes → Call
  unfolding spci_msg_handle_architected_message
  send_architected from to vms pool buffer =
      let m = from.outbox in
      let buffer' = copy_bytes m.len m.payload buffer in
      if ltb message_buffer_len m.len || ltb m.len header_size
      then refuse invalid_parameters vms pool buffer
      else after_handled from to vms pool buffer'
          (spci_msg_handle_architected_message tables to.ptable from.ptable buffer' m to.inbox pool)

  abbrev pub send_impdef : Party P → Party P → List (Party P) → MPool → Bytes → Call
  send_impdef from to vms pool buffer =
      let m = from.outbox in
      let inbox = with_payload m (copy_bytes m.len m.payload to.inbox.payload) in
      announce from.id (record to { inbox = inbox }) vms pool buffer

  -- The target cannot receive: the caller waits for it if it asks for that.
  abbrev pub send_busy : Bool → Party P → Party P → List (Party P) → MPool → Bytes → Call
  send_busy notify from to vms pool buffer = elim notify [
    | false ↦ refuse busy vms pool buffer
    | true ↦ elim (wait_for max_vms from.id to.id from.waits to.mailbox) [
      | none ↦ none
      | some (ok, waits', mailbox') ↦
          refuse busy
            (put (record to { mailbox = mailbox' }) (put (record from { waits = waits' }) vms)) pool
            buffer
    ]
  ]

  -- `none` is a panic, or undefined behaviour.
  unfoldable pub spci_msg_send : Bool → Party P → List (Party P) → MPool → Bytes → Call
  unfolding send_architected
  spci_msg_send notify from vms pool buffer =
      let m = from.outbox in
      if (from.mailbox.send == 0)
        || not (m.source_vm_id == from.id)
        || ltb spci_msg_payload_max m.len
        || (m.target_vm_id == from.id)
      then refuse invalid_parameters vms pool buffer
      else elim (vm_get vms m.target_vm_id) [
        | none ↦ none
        | some found ↦ elim found [
          | none ↦ refuse invalid_parameters vms pool buffer
          | some to ↦
              if not (may_receive to.mailbox)
              then send_busy notify from to vms pool buffer
              else if m.impdef
              then send_impdef from to vms pool buffer
              else send_architected from to vms pool buffer
        ]
      ]
