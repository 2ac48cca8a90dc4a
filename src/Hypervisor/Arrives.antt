-- ===== src/Hypervisor/Arrives.antt =====
-- Sending a message: how it comes to the mailbox of its target.
use hafnium_verification.Prelude.{
  ℕ, ◌≡◌, refl, sym, subst, ◌∙◌, ◌-◌, ◌<◌, ◌≢◌, inl, inr, false, some, List, Bool-cases,
  Option-cases, of_some, if◌then◌else◌, leb, ◌*◌, ◌==◌, get_elem?, length, length-set,
  get_elem?-set_self,
}
use hafnium_verification.Text.{Bytes}
use hafnium_verification.MPool.{MPool}
use hafnium_verification.Mailbox.{is_empty, set_read, set_received}
use hafnium_verification.VCpu.{primary_vm_id}
use hafnium_verification.Spci.{
  SpciReturn, success, invalid_parameters, busy, PageTables, Outcome, returned, panicked,
}
use hafnium_verification.Hypervisor.{stay}
use hafnium_verification.Hypervisor.Send.{
  spci_msg_payload_max, header_size, Party, with_payload, copy_bytes, Sent, announce, send_impdef,
  Handled, handled, broken, spci_msg_handle_architected_message, after_share, after_handled,
  share_of, share_by_message, le16,
}

announced-full :
    {P : Type 0} (target : Party P)
    → is_empty (
        if target.id == primary_vm_id then set_read target.mailbox else set_received target.mailbox)
      ≡ false
announced-full target = elim (Bool-cases (target.id == primary_vm_id)) [
  | inl e ↦ rw e refl
  | inr e ↦ rw e refl
]

module _ {P : Type 0} (tables : PageTables P) (max_vms : ℕ) where
  -- What a call that ends well has done to the target's mailbox and its page.
  pub record Arrives (from to : Party P) (r : Sent P) : Type 0 where
    pub party : Party P
    pub there : get_elem? r.parties (to.id - 1) ≡ some party
    pub full : is_empty party.mailbox ≡ false
    pub source : party.inbox.source_vm_id ≡ from.outbox.source_vm_id
    pub len : party.inbox.len ≡ from.outbox.len

  module _ (from to : Party P) where
    announce-Arrives :
        (target : Party P) (vms : List (Party P)) (pool : MPool) (buffer : Bytes) (r : Sent P)
        → announce tables max_vms from.id target vms pool buffer ≡ some r
        → target.id ≡ to.id
        → to.id - 1 < length vms
        → target.inbox.source_vm_id ≡ from.outbox.source_vm_id
        → target.inbox.len ≡ from.outbox.len
        → Arrives from to r
    announce-Arrives target vms pool buffer r h same fits source len =
        let m =
          if target.id == primary_vm_id
          then set_read target.mailbox
          else set_received target.mailbox in
        of_some (Arrives from to) h (record {
          party = record target { mailbox = m };
          there = rw same (get_elem?-set_self vms (to.id - 1) _ fits);
          full = announced-full target;
          source = source;
          len = len;
        })

    -- An implementation-defined message is copied as it is.
    pub send_impdef-Arrives :
        (vms : List (Party P)) (pool : MPool) (buffer : Bytes) (r : Sent P)
        → send_impdef tables max_vms from to vms pool buffer ≡ some r
        → to.id - 1 < length vms
        → Arrives from to r
    send_impdef-Arrives vms pool buffer r h fits =
        let m = from.outbox in
        let inbox = with_payload m (copy_bytes m.len m.payload to.inbox.payload) in
        announce-Arrives (record to { inbox = inbox }) vms pool buffer r h refl fits refl refl

    -- What the handling of a message leaves in the inbox, if it succeeds.
    abbrev pub Holds : Handled P → Type 0
    Holds broken = Unit
    Holds (handled success to' from' inbox pool) =
        (inbox.source_vm_id ≡ from.outbox.source_vm_id) × (inbox.len ≡ from.outbox.len)
    Holds (handled other to' from' inbox pool) = Unit

    after_share-Holds :
        (buffer : Bytes) (out : Outcome) (to' from' : P) (pool : MPool)
        → Holds (after_share tables from.outbox buffer to.inbox out to' from' pool)
    after_share-Holds buffer panicked to' from' pool = tt
    after_share-Holds buffer (returned success) to' from' pool =
        elim (Bool-cases (leb (from.outbox.len * header_size) spci_msg_payload_max)) [
          | inl e ↦ rw (after_share, e, Holds) (refl, refl)
          | inr e ↦ rw (after_share, e, Holds) tt
        ]
    after_share-Holds buffer (returned SpciReturn.not_supported) to' from' pool = tt
    after_share-Holds buffer (returned invalid_parameters) to' from' pool = tt
    after_share-Holds buffer (returned SpciReturn.out_of_memory) to' from' pool = tt
    after_share-Holds buffer (returned busy) to' from' pool = tt
    after_share-Holds buffer (returned SpciReturn.interrupted) to' from' pool = tt
    after_share-Holds buffer (returned SpciReturn.denied) to' from' pool = tt
    after_share-Holds buffer (returned SpciReturn.retry) to' from' pool = tt

    pub handle-Holds :
        (buffer : Bytes) (pool : MPool)
        → Holds (
            spci_msg_handle_architected_message tables to.ptable from.ptable buffer from.outbox
              to.inbox pool)
    unfolding spci_msg_handle_architected_message
    handle-Holds buffer pool = elim (Option-cases (share_of (le16 buffer 0))) [
      | inl e ↦ rw (spci_msg_handle_architected_message, e, Holds) tt
      | inr (kind, e) ↦
          let r = share_by_message tables to.ptable from.ptable kind buffer from.outbox.len pool in
          let g : spci_msg_handle_architected_message tables to.ptable from.ptable buffer
                from.outbox to.inbox pool
              ≡ after_share tables from.outbox buffer to.inbox r.0 r.1 r.2 r.3 =
            rw (spci_msg_handle_architected_message, e) refl in
          subst Holds (sym g) (after_share-Holds buffer r.0 r.1 r.2 r.3)
    ]

    -- A call that returns another result is not one that succeeds.
    pub refused :
        {A : Type 0} (ret : SpciReturn) (vms : List (Party P)) (pool : MPool) (buffer : Bytes)
        (r : Sent P)
        → some (record { ret = ret; next = stay; parties = vms; pool = pool; buffer = buffer })
          ≡ some r
        → r.ret ≡ success
        → ret ≢ success
        → A
    refused ret vms pool buffer r h ok ne =
        absurd (ne (of_some (λ (s : Sent P). ret ≡ s.ret) h refl ∙ ok))

    pub after_handled-Arrives :
        (vms : List (Party P)) (pool : MPool) (buffer : Bytes) (r : Sent P) (h : Handled P)
        → Holds h
        → after_handled tables max_vms from to vms pool buffer h ≡ some r
        → r.ret ≡ success
        → to.id - 1 < length vms
        → Arrives from to r
    after_handled-Arrives vms pool buffer r broken k e ok fits = absurd cc
    after_handled-Arrives vms pool buffer r (handled success to' from' inbox pool') k e ok fits =
        announce-Arrives (record to { ptable = to'; inbox = inbox }) _ pool' buffer r e refl
          (rw (length-set, length-set) fits) k.0 k.1
    after_handled-Arrives vms pool buffer r (handled SpciReturn.not_supported a b c d) k e ok fits =
        refused SpciReturn.not_supported _ _ _ r e ok (λ x. absurd cc)
    after_handled-Arrives vms pool buffer r (handled invalid_parameters a b c d) k e ok fits =
        refused invalid_parameters _ _ _ r e ok (λ x. absurd cc)
    after_handled-Arrives vms pool buffer r (handled SpciReturn.out_of_memory a b c d) k e ok fits =
        refused SpciReturn.out_of_memory _ _ _ r e ok (λ x. absurd cc)
    after_handled-Arrives vms pool buffer r (handled busy a b c d) k e ok fits =
        refused busy _ _ _ r e ok (λ x. absurd cc)
    after_handled-Arrives vms pool buffer r (handled SpciReturn.interrupted a b c d) k e ok fits =
        refused SpciReturn.interrupted _ _ _ r e ok (λ x. absurd cc)
    after_handled-Arrives vms pool buffer r (handled SpciReturn.denied a b c d) k e ok fits =
        refused SpciReturn.denied _ _ _ r e ok (λ x. absurd cc)
    after_handled-Arrives vms pool buffer r (handled SpciReturn.retry a b c d) k e ok fits =
        refused SpciReturn.retry _ _ _ r e ok (λ x. absurd cc)
