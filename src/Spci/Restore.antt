-- ===== src/Spci/Restore.antt =====
-- Sharing memory: a call that succeeds has mapped both page tables by a transition, and what one that
-- fails has done and undone.
use hafnium_verification.Prelude.{
  none-some, ℕ, ◌≡◌, refl, sym, subst, ◌⊎◌, inl, inr, Bool, true, false, not, ◌||◌, some,
  Bool-cases, Option-cases, of_some, mul_usize,
}
use hafnium_verification.Addr.{page_size, ipa_add, is_aligned}
use hafnium_verification.Mode.{Mode}
use hafnium_verification.MPool.{MPool}
use hafnium_verification.MPool
use hafnium_verification.Spci.{
  success, not_supported, invalid_parameters, out_of_memory, busy, interrupted, denied, retry,
  SpciMemoryShare, SpciMemoryRegion, PageTables, Outcome, returned, panicked, mem_transition_table,
  spci_msg_get_next_state, spci_msg_check_transition, map_recipient, share_region,
  spci_share_memory,
}
use hafnium_verification.Spci.Transitions.{IsAccess, coherent, get_next_state-coherent}

module _ {P : Type 0} (tables : PageTables P) where
  open tables use {get_mode, identity_map, defrag}

  -- `p'` is what a mapping of the region in the mode makes of `p`, with some pool, and the mapping
  -- succeeds or not.
  abbrev pub Mapped : (begin end : ℕ) → Bool → Mode → P → P → Type 0
  Mapped begin end ok mode p p' =
      (m : MPool) × ((identity_map p begin end mode m).2 ≡ ok)
      × (p' ≡ (identity_map p begin end mode m).0)

  module _ (begin end : ℕ) (to from : P) where
    abbrev pub Same : P → P → Type 0
    Same to' from' = (to' ≡ to) × (from' ≡ from)

    -- The recipient's mapping failed, and the sender's, which had succeeded, was defragmented and undone.
    pub record Undone (to' from' : P) : Type 0 where
      pub old_from : Mode
      pub new_from : Mode
      pub new_to : Mode
      pub first : P
      pub pool : MPool
      pub from_before : get_mode from begin end ≡ some old_from
      pub from_mapped : Mapped begin end true new_from from first
      pub to_failed : Mapped begin end false new_to to to'
      pub from_restored : Mapped begin end true old_from (defrag first pool).0 from'

    -- For want of memory: the sender's mapping failed, or the recipient's.
    abbrev pub Short : P → P → Type 0
    Short to' from' =
        ((to' ≡ to) × (mode : Mode) × Mapped begin end false mode from from') ⊎ Undone to' from'

    -- Both had a mode for the region, both are mapped in another, and both pairs are coherent.
    pub record Transferred (to' from' : P) : Type 0 where
      pub old_from : Mode
      pub old_to : Mode
      pub new_from : Mode
      pub new_to : Mode
      pub from_before : get_mode from begin end ≡ some old_from
      pub to_before : get_mode to begin end ≡ some old_to
      pub from_mapped : Mapped begin end true new_from from from'
      pub to_mapped : Mapped begin end true new_to to to'
      pub coherent_before : coherent old_from old_to ≡ true
      pub coherent_after : coherent new_from new_to ≡ true

    -- What the end of a call means; a panic promises nothing.
    abbrev pub Settled : Outcome → P → P → Type 0
    Settled (returned success) to' from' = Transferred to' from'
    Settled (returned not_supported) to' from' = Same to' from'
    Settled (returned invalid_parameters) to' from' = Same to' from'
    Settled (returned out_of_memory) to' from' = Short to' from'
    Settled (returned busy) to' from' = Same to' from'
    Settled (returned interrupted) to' from' = Same to' from'
    Settled (returned denied) to' from' = Same to' from'
    Settled (returned retry) to' from' = Same to' from'
    Settled panicked to' from' = Unit

    abbrev SettledShared : Outcome × P × P × MPool → Type 0
    SettledShared r = Settled r.0 r.1 r.2

module _ {P : Type 0} (tables : PageTables P) where
  open tables use {get_mode, identity_map, defrag}

  record Checked (to from : P) (share : SpciMemoryShare) (begin end : ℕ) (attributes : Mode)
      (next : Mode × Mode × Mode) : Type 0 where
    pub old_to : Mode
    pub from_before : get_mode from begin end ≡ some next.0
    pub to_before : get_mode to begin end ≡ some old_to
    pub step :
        spci_msg_get_next_state (mem_transition_table share) attributes next.0 old_to
        ≡ some (next.1, next.2)

  check_transition-Checked :
      (to from : P) (share : SpciMemoryShare) (begin end : ℕ) (attributes : Mode)
      (next : Mode × Mode × Mode)
      → spci_msg_check_transition tables to from share begin end attributes ≡ some next
      → Checked to from share begin end attributes next
  unfolding spci_msg_check_transition
  check_transition-Checked to from share begin end attributes next h =
      let odd = not (is_aligned begin page_size) || not (is_aligned end page_size) in
      elim (Bool-cases odd) [
        | inl c ↦ absurd (none-some (rw (c, spci_msg_check_transition) at h))
        | inr c ↦ elim (Option-cases (get_mode from begin end)) [
          | inl e ↦ absurd (none-some (rw (c, e, spci_msg_check_transition) at h))
          | inr (old_from, e) ↦ elim (Option-cases (get_mode to begin end)) [
            | inl f ↦ absurd (none-some (rw (c, e, f, spci_msg_check_transition) at h))
            | inr (old_to, f) ↦
                elim (Option-cases (
                  spci_msg_get_next_state (mem_transition_table share) attributes old_from
                    old_to)) [
                      | inl g ↦ absurd (none-some (rw (c, e, f, g, spci_msg_check_transition) at h))
                      | inr (r, g) ↦
                          of_some (Checked to from share begin end attributes)
                            (rw (c, e, f, g, spci_msg_check_transition) at h)
                            (record { old_to = old_to; from_before = e; to_before = f; step = g })
                    ]
          ]
        ]
      ]

  -- From the sender's new mode on.
  map_recipient-Settled :
      (begin end : ℕ) (to from first : P) (old_from new_from new_to old_to : Mode) (m : MPool)
      → get_mode from begin end ≡ some old_from
      → Mapped tables begin end true new_from from first
      → get_mode to begin end ≡ some old_to
      → coherent old_from old_to ≡ true
      → coherent new_from new_to ≡ true
      → SettledShared tables begin end to from
          (map_recipient tables to first begin end old_from new_to m)
  map_recipient-Settled begin end to from first old_from new_from new_to old_to m was now to_was c
        d =
      let r = identity_map to begin end new_to m in
      let q = defrag first r.1 in
      let back = identity_map q.0 begin end old_from q.1 in
      elim (Bool-cases r.2) [
        | inl e ↦
            subst (SettledShared tables begin end to from)
              (sym (
                let g : map_recipient tables to first begin end old_from new_to m
                    ≡ (returned success, r.0, first, r.1) =
                  rw (e, map_recipient) refl in
                g))
              (record {
                old_from = old_from;
                old_to = old_to;
                new_from = new_from;
                new_to = new_to;
                from_before = was;
                to_before = to_was;
                from_mapped = now;
                to_mapped = (m, e, refl);
                coherent_before = c;
                coherent_after = d;
              })
        | inr e ↦ elim (Bool-cases back.2) [
          | inr f ↦
              subst (SettledShared tables begin end to from)
                (sym (
                  let g : map_recipient tables to first begin end old_from new_to m
                      ≡ (panicked, r.0, back.0, back.1) =
                    rw (e, f, map_recipient) refl in
                  g))
                tt
          | inl f ↦
              subst (SettledShared tables begin end to from)
                (sym (
                  let g : map_recipient tables to first begin end old_from new_to m
                      ≡ (returned out_of_memory, r.0, back.0, back.1) =
                    rw (e, f, map_recipient) refl in
                  g))
                (inr (record {
                  old_from = old_from;
                  new_from = new_from;
                  new_to = new_to;
                  first = first;
                  pool = r.1;
                  from_before = was;
                  from_mapped = now;
                  to_failed = (m, e, refl);
                  from_restored = (q.1, f, refl);
                }))
        ]
      ]

  share_region-Settled :
      (begin end : ℕ) (to from : P) (attributes : Mode) (share : SpciMemoryShare) (m : MPool)
      → IsAccess attributes
      → SettledShared tables begin end to from
          (share_region tables to from begin end attributes share m)
  share_region-Settled begin end to from attributes share m access =
      elim (Option-cases (spci_msg_check_transition tables to from share begin end attributes)) [
        | inl e ↦
            subst (SettledShared tables begin end to from)
              (sym (
                let g : share_region tables to from begin end attributes share m
                    ≡ (returned invalid_parameters, to, from, m) =
                  rw (e, share_region) refl in
                g))
              (refl, refl)
        | inr (next, e) ↦
            let k = check_transition-Checked to from share begin end attributes next e in
            let c =
              get_next_state-coherent share attributes next.0 k.old_to next.1 next.2 access
                k.step in
            let r = identity_map from begin end next.1 m in
            elim (Bool-cases r.2) [
              | inr f ↦
                  subst (SettledShared tables begin end to from)
                    (sym (
                      let g : share_region tables to from begin end attributes share m
                          ≡ (returned out_of_memory, to, r.0, r.1) =
                        rw (e, f, share_region) refl in
                      g))
                    (inl (refl, next.1, (m, f, refl)))
              | inl f ↦
                  subst (SettledShared tables begin end to from)
                    (sym (
                      let g : share_region tables to from begin end attributes share m
                          ≡ map_recipient tables to r.0 begin end next.0 next.2 r.1 =
                        rw (e, f, share_region) refl in
                      g))
                    (map_recipient-Settled begin end to from r.0 next.0 next.1 next.2 k.old_to r.1
                      k.from_before (m, f, refl) k.to_before c.0 c.1)
            ]
      ]

  -- With any operations on page tables, and attributes that say nothing of the state: if
  -- `spci_share_memory` succeeds, both page tables had a mode for the region, each was mapped in a new
  -- one and is the result of that mapping, and by the old modes and by the new ones exactly one VM
  -- owns the region and both have access to it only as shared memory. If it returns that memory is
  -- short, either the sender's mapping failed and the recipient's page table is as it was, or the
  -- recipient's failed, and the sender's page table was mapped, defragmented and mapped in the mode that
  -- it had had. If it returns another error, both page tables are as they were.
  pub spci_share_memory_lem :
      (reflexive : Bool) (to from : P) (region : SpciMemoryRegion) (attributes : Mode)
      (share : SpciMemoryShare) (fallback : MPool)
      → IsAccess attributes
      → (let r = spci_share_memory tables reflexive to from region attributes share fallback in
          Settled tables region.address
            (ipa_add region.address (mul_usize region.page_count page_size))
            to
            from
            r.0
            r.1
            r.2)
  unfolding spci_share_memory
  spci_share_memory_lem true to from region attributes share fallback access = (refl, refl)
  spci_share_memory_lem false to from region attributes share fallback access =
      share_region-Settled region.address
        (ipa_add region.address (mul_usize region.page_count page_size)) to from attributes share
        (MPool.new_with_fallback fallback) access
