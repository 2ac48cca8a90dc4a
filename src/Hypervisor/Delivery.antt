-- ===== src/Hypervisor/Delivery.antt =====
-- Sending a message: what a call that succeeds has done.
use hafnium_verification.Prelude.{
  none-some, ℕ, zero, suc, ◌≡◌, refl, ap, ◌∙◌, ◌+◌, ◌-◌, ◌≤◌, ◌<◌, ◌≢◌, inl, inr, Bool, true, false,
  not, ◌||◌, some, List, [], ◌∷◌, Bool-cases, Option-cases, of_some, if◌then◌else◌, arith, ltb,
  ◌==◌, get_elem?, length,
}
use hafnium_verification.Text.{Bytes}
use hafnium_verification.MPool.{MPool}
use hafnium_verification.Mailbox.{wait_for}
use hafnium_verification.VCpu.{vm_get}
use hafnium_verification.Spci.{success, invalid_parameters, busy, PageTables}
use hafnium_verification.Hypervisor.Send.{
  message_buffer_len, spci_msg_payload_max, header_size, Party, copy_bytes, Sent, send_architected,
  send_impdef, send_busy, may_receive, spci_msg_send,
}
use hafnium_verification.Hypervisor.Arrives.{
  Arrives, send_impdef-Arrives, handle-Holds, refused, after_handled-Arrives,
}

-- A VM stands at the place that its id says.
abbrev pub AreNumbered : {P : Type 0} → List (Party P) → Type 0
AreNumbered {P} vms = (i : ℕ) (p : Party P) → get_elem? vms i ≡ some p → p.id ≡ i + 1

get_elem?-length {ℓ} :
    {A : Type ℓ} (xs : List A) (i : ℕ) {a : A} → get_elem? xs i ≡ some a → i < length xs
get_elem?-length [] i h = absurd cc
get_elem?-length (x ∷ xs) zero h = omega arith
get_elem?-length (x ∷ xs) (suc i) h = let ih = get_elem?-length xs i h in omega (arith, ih)

module _ {P : Type 0} (tables : PageTables P) (max_vms : ℕ) where
  -- A call that succeeds: the sender said the truth, and the message is in the mailbox, which was free,
  -- of the VM that it names.
  pub record Delivers (from : Party P) (vms : List (Party P)) (r : Sent P) : Type 0 where
    pub to : Party P
    pub target_found : vm_get vms from.outbox.target_vm_id ≡ some (some to)
    pub was_free : may_receive to.mailbox ≡ true
    pub configured : from.mailbox.send ≢ 0
    pub honest : from.outbox.source_vm_id ≡ from.id
    pub other : from.outbox.target_vm_id ≢ from.id
    pub short : from.outbox.len ≤ spci_msg_payload_max
    pub arrives : Arrives tables max_vms from to r

  vm_get-numbered :
      (vms : List (Party P)) (id : ℕ) (to : Party P)
      → AreNumbered vms
      → vm_get vms id ≡ some (some to)
      → to.id - 1 < length vms
  vm_get-numbered vms zero to n h = absurd cc
  vm_get-numbered vms (suc i) to n h =
      let found : get_elem? vms i ≡ some to = of_some (λ x. get_elem? vms i ≡ x) h refl in
      let inside = get_elem?-length vms i found in
      let same = n i to found in omega (arith, inside, same)

  wait-refuses :
      (notify : Bool) (from to : Party P) (vms : List (Party P)) (pool : MPool) (buffer : Bytes)
      (r : Sent P)
      → send_busy tables max_vms notify from to vms pool buffer ≡ some r
      → r.ret ≡ busy
  wait-refuses false from to vms pool buffer r h = of_some (λ (s : Sent P). s.ret ≡ busy) h refl
  wait-refuses true from to vms pool buffer r h =
      elim (Option-cases (wait_for max_vms from.id to.id from.waits to.mailbox)) [
        | inl e ↦ absurd (none-some (rw (e, send_busy) at h))
        | inr (w, e) ↦ of_some (λ (s : Sent P). s.ret ≡ busy) (rw (e, send_busy) at h) refl
      ]

  send-Arrives :
      (impdef : Bool) (from to : Party P) (vms : List (Party P)) (pool : MPool) (buffer : Bytes)
      (r : Sent P)
      → (if impdef
          then send_impdef tables max_vms from to vms pool buffer
          else send_architected tables max_vms from to vms pool buffer)
        ≡ some r
      → r.ret ≡ success
      → to.id - 1 < length vms
      → Arrives tables max_vms from to r
  unfolding send_architected
  send-Arrives true from to vms pool buffer r h ok fits =
      send_impdef-Arrives tables max_vms from to vms pool buffer r h fits
  send-Arrives false from to vms pool buffer r h ok fits =
      let m = from.outbox in
      let buffer' = copy_bytes m.len m.payload buffer in
      elim (Bool-cases (ltb message_buffer_len m.len || ltb m.len header_size)) [
        | inl f ↦
            refused tables max_vms from to invalid_parameters vms pool buffer r
              (rw (send_architected, f) at h) ok (λ x. absurd cc)
        | inr f ↦
            after_handled-Arrives tables max_vms from to vms pool buffer' r _
              (handle-Holds tables max_vms from to buffer' pool) (rw (send_architected, f) at h) ok
              fits
      ]

  abbrev guards : Party P → Bool
  guards from =
      (from.mailbox.send == 0)
      || not (from.outbox.source_vm_id == from.id)
      || ltb spci_msg_payload_max from.outbox.len
      || (from.outbox.target_vm_id == from.id)

  guards-false :
      (from : Party P)
      → guards from ≡ false
      → (from.mailbox.send ≢ 0)
        × (from.outbox.source_vm_id ≡ from.id)
        × (from.outbox.target_vm_id ≢ from.id)
        × (from.outbox.len ≤ spci_msg_payload_max)
  guards-false from h = ground arith

  -- If the VMs stand at the places that their ids say and `spci_msg_send` succeeds, the caller had a
  -- send page and named itself as the source, the message is short enough and for another VM, which
  -- exists and whose mailbox was configured and empty; that mailbox is full after, and its page has the
  -- message's source and length.
  pub spci_msg_send-Delivers :
      (notify : Bool) (from : Party P) (vms : List (Party P)) (pool : MPool) (buffer : Bytes)
      (r : Sent P)
      → AreNumbered vms
      → spci_msg_send tables max_vms notify from vms pool buffer ≡ some r
      → r.ret ≡ success
      → Delivers from vms r
  unfolding spci_msg_send
  spci_msg_send-Delivers notify from vms pool buffer r n h ok = elim (Bool-cases (guards from)) [
    | inl e ↦
        refused tables max_vms from from invalid_parameters vms pool buffer r
          (rw (spci_msg_send, e) at h) ok (λ x. absurd cc)
    | inr e ↦ elim (Option-cases (vm_get vms from.outbox.target_vm_id)) [
      | inl f ↦ absurd (none-some (rw (spci_msg_send, e, f) at h))
      | inr (found, f) ↦ elim (Option-cases found) [
        | inl g ↦
            refused tables max_vms from from invalid_parameters vms pool buffer r
              (rw (spci_msg_send, e, f, g) at h) ok (λ x. absurd cc)
        | inr (to, g) ↦ elim (Bool-cases (may_receive to.mailbox)) [
          | inr c ↦
              let b =
                wait-refuses notify from to vms pool buffer r
                  (rw (spci_msg_send, e, f, g, c) at h) in
              absurd cc
          | inl c ↦
              let known = guards-false from e in
              let target = f ∙ ap some g in
              record {
                to = to;
                target_found = target;
                was_free = c;
                configured = known.0;
                honest = known.1;
                other = known.2;
                short = known.3;
                arrives =
                    send-Arrives from.outbox.impdef from to vms pool buffer r
                      (rw (spci_msg_send, e, f, g, c) at h) ok
                      (vm_get-numbered vms from.outbox.target_vm_id to n target);
              }
        ]
      ]
    ]
  ]
