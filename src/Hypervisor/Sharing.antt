-- ===== src/Hypervisor/Sharing.antt =====
-- Sharing memory by a call: what the page tables and the memory are when it ends.
use hafnium_verification.Prelude.{
  false, subst, Option-cases, ℕ, ◌≡◌, refl, ap, ◌∙◌, ◌⊎◌, inl, inr, true, some, Bool-cases,
}
use hafnium_verification.Abi.{HfShare, give, lend, share}
use hafnium_verification.Addr.{pa_difference}
use hafnium_verification.Mode.{Mode, mode_w}
use hafnium_verification.Spci.{PageTables}
use hafnium_verification.Spci.Transitions.{coherent}
use hafnium_verification.Spci.Restore.{Mapped}
use hafnium_verification.MPool.{MPool}
use hafnium_verification.Hypervisor.Share.{
  Stage1, Ending, done, failed, crashed, World, zero_bytes, share_modes, may_share, map_from,
  map_to, clear_memory, restore, defrag_from, give_to, clear_and_give, share_between,
}

share_modes-coherent : (kind : HfShare) → coherent (share_modes kind).0 (share_modes kind).1 ≡ true
share_modes-coherent give = refl
share_modes-coherent lend = refl
share_modes-coherent share = refl

module _ {P H : Type 0} (tables : PageTables P) (stage1 : Stage1 H) where
  open tables use {get_mode, defrag}

  module _ (w : World P H) (begin end : ℕ) where
    -- The region is zeros, and all other memory is what it was.
    abbrev pub IsCleared : World P H → Type 0
    IsCleared w' = w'.memory ≡ zero_bytes begin (pa_difference begin end) w.memory

    -- Nothing came of it: the sender's page table is as it was, or a mapping of it failed.
    abbrev pub NotBegun : HfShare → World P H → Type 0
    NotBegun kind w' =
        (w'.to ≡ w.to)
        × (w'.memory ≡ w.memory)
        × ((w'.from ≡ w.from) ⊎ Mapped tables begin end false (share_modes kind).0 w.from w'.from)

    -- The sender's page table was mapped, and then mapped in the mode that it had had: before the
    -- recipient's was touched, or after a mapping of that failed, and a defragmentation.
    pub record Undone (kind : HfShare) (w' : World P H) : Type 0 where
      pub old_from : Mode
      pub first : P
      pub last : P
      pub from_before : get_mode w.from begin end ≡ some old_from
      pub from_mapped : Mapped tables begin end true (share_modes kind).0 w.from first
      pub recipient :
          ((w'.to ≡ w.to) × (w'.memory ≡ w.memory) × (last ≡ first))
          ⊎ (Mapped tables begin end false (share_modes kind).1 w.to w'.to
              × IsCleared w'
              × (m : MPool) × (last ≡ (defrag first m).0))
      pub from_restored : Mapped tables begin end true old_from last w'.from

    -- The modes that both had for the region allow it.
    abbrev pub Allowed : HfShare → Type 0
    Allowed kind =
        (old_from : Mode) × (get_mode w.from begin end ≡ some old_from)
        × (may_share old_from (get_mode w.to begin end) kind ≡ true)

    -- What the end of the call means; a panic promises nothing.
    abbrev pub Shares : HfShare → Ending × World P H → Type 0
    Shares kind (done, w') =
        Allowed kind
        × Mapped tables begin end true (share_modes kind).0 w.from w'.from
        × Mapped tables begin end true (share_modes kind).1 w.to w'.to
        × (coherent (share_modes kind).0 (share_modes kind).1 ≡ true)
        × IsCleared w'
    Shares kind (failed, w') = NotBegun kind w' ⊎ Undone kind w'
    Shares kind (crashed, w') = Unit

  module _ (begin end : ℕ) (v : World P H) where
    -- Clearing leaves the VMs' page tables alone, and zeros the region if it succeeds.
    abbrev Clears : Ending × World P H → Type 0
    Clears (done, v') =
        (v'.from ≡ v.from)
        × (v'.to ≡ v.to)
        × (v'.memory ≡ zero_bytes begin (pa_difference begin end) v.memory)
    Clears (failed, v') = (v'.from ≡ v.from) × (v'.to ≡ v.to) × (v'.memory ≡ v.memory)
    Clears (crashed, v') = Unit

    clear_memory-Clears : Clears (clear_memory tables stage1 v begin end)
    unfolding clear_memory
    clear_memory-Clears =
        let h = stage1.tables.identity_map v.hypervisor_ptable begin end mode_w v.pool in
        elim (Bool-cases h.2) [
          | inr e ↦ rw (clear_memory, e, Clears) (refl, refl, refl)
          | inl e ↦ elim (Bool-cases (stage1.unmap h.0 begin end h.1).2) [
            | inl u ↦ rw (clear_memory, e, u, Clears) (refl, refl, refl)
            | inr u ↦ rw (clear_memory, e, u, Clears) tt
          ]
        ]

module _ {P H : Type 0} (tables : PageTables P) (stage1 : Stage1 H) where
  open tables use {get_mode, defrag}

  module _ (w : World P H) (begin end : ℕ) (kind : HfShare) (old_from : Mode)
      (was : get_mode w.from begin end ≡ some old_from)
      (may : may_share old_from (get_mode w.to begin end) kind ≡ true) where
    -- The sender's page table was mapped, and what was done since is to be undone.
    record At (v : World P H) : Type 0 where
      pub first : P
      pub from_mapped : Mapped tables begin end true (share_modes kind).0 w.from first
      pub recipient :
          ((v.to ≡ w.to) × (v.memory ≡ w.memory) × (v.from ≡ first))
          ⊎ (Mapped tables begin end false (share_modes kind).1 w.to v.to
              × IsCleared tables stage1 w begin end v
              × (m : MPool) × (v.from ≡ (defrag first m).0))

    restore-Shares :
        (v : World P H)
        → At v
        → Shares tables stage1 w begin end kind (restore tables stage1 v begin end old_from)
    restore-Shares v k = elim (Bool-cases (map_from tables stage1 v begin end old_from).1) [
      | inl e ↦
          rw (restore, e, Shares)
            (inr (record {
              old_from = old_from;
              first = k.first;
              last = v.from;
              from_before = was;
              from_mapped = k.from_mapped;
              recipient = k.recipient;
              from_restored = (v.pool, e, refl);
            }))
      | inr e ↦ rw (restore, e, Shares) tt
    ]

    -- The memory is cleared, and the sender has its new mode.
    record Ready (v : World P H) : Type 0 where
      pub now : Mapped tables begin end true (share_modes kind).0 w.from v.from
      pub same : v.to ≡ w.to
      pub cleared : IsCleared tables stage1 w begin end v

    give_to-Shares :
        (v : World P H)
        → Ready v
        → Shares tables stage1 w begin end kind
            (give_to tables stage1 v begin end old_from (share_modes kind).1)
    unfolding give_to
    give_to-Shares v r =
        let new = (share_modes kind).1 in
        let v' = (map_to tables stage1 v begin end new).0 in
        elim (Bool-cases (map_to tables stage1 v begin end new).1) [
          | inl e ↦
              rw (give_to, e, Shares)
                (
                  (old_from, was, may),
                  r.now,
                  subst (λ p. Mapped tables begin end true new p v'.to) r.same (v.pool, e, refl),
                  share_modes-coherent kind,
                  r.cleared,
                )
          | inr e ↦
              let at : At (defrag_from tables stage1 v') = record {
                first = v.from;
                from_mapped = r.now;
                recipient = inr (
                  subst (λ p. Mapped tables begin end false new p v'.to) r.same (v.pool, e, refl),
                  r.cleared,
                  v'.pool,
                  refl,
                );
              } in
              rw (give_to, e) (restore-Shares (defrag_from tables stage1 v') at)
        ]

    clear_and_give-Shares :
        (v : World P H)
        → Mapped tables begin end true (share_modes kind).0 w.from v.from
        → v.to ≡ w.to
        → v.memory ≡ w.memory
        → Shares tables stage1 w begin end kind
            (clear_and_give tables stage1 v begin end old_from (share_modes kind).1)
    unfolding clear_and_give clear_memory
    clear_and_give-Shares v now same memory =
        after (clear_memory tables stage1 v begin end)
          (clear_memory-Clears tables stage1 begin end v)
      where
        after :
            (r : Ending × World P H)
            → Clears tables stage1 begin end v r
            → Shares tables stage1 w begin end kind (elim r.0 [
              | done ↦ give_to tables stage1 r.1 begin end old_from (share_modes kind).1
              | failed ↦ restore tables stage1 r.1 begin end old_from
              | crashed ↦ (crashed, r.1)
            ])
        after (done, v') (e, f, zero) = give_to-Shares v' (record {
          now = rw e now;
          same = f ∙ same;
          cleared = zero ∙ ap (zero_bytes begin (pa_difference begin end)) memory;
        })
        after (failed, v') (e, f, kept) = restore-Shares v' (record {
          first = v.from;
          from_mapped = now;
          recipient = inl (f ∙ same, kept ∙ memory, e);
        })
        after (crashed, v') c = tt

  -- With any operations on page tables: if the sharing of a region succeeds, the modes that both VMs had
  -- for it allow that, each page table is the result of a mapping that succeeded, in the two modes of
  -- this kind of sharing, which are coherent, and the region was cleared, and no other memory changed.
  -- If it returns an error, the recipient's page table is as it was or a mapping of it failed, the
  -- sender's is as it was, or a mapping of it failed, or it was mapped in the mode that it had had, and
  -- no memory but the region, which is then cleared, has changed.
  pub share_between-Shares :
      (w : World P H) (begin end : ℕ) (kind : HfShare)
      → Shares tables stage1 w begin end kind (share_between tables stage1 w begin end kind)
  unfolding share_between
  share_between-Shares w begin end kind = elim (Option-cases (get_mode w.from begin end)) [
    | inl none_there ↦ rw (share_between, none_there, Shares) (inl (refl, refl, inl refl))
    | inr (old_from, was) ↦
        let first = map_from tables stage1 w begin end (share_modes kind).0 in
        elim (Bool-cases (may_share old_from (get_mode w.to begin end) kind)) [
          | inr not_allowed ↦
              rw (share_between, was, not_allowed, Shares) (inl (refl, refl, inl refl))
          | inl may ↦ elim (Bool-cases first.1) [
            | inr e ↦
                rw (share_between, was, may, e, Shares) (inl (refl, refl, inr (w.pool, e, refl)))
            | inl e ↦
                rw (share_between, was, may, e)
                  (clear_and_give-Shares w begin end kind old_from was may first.0 (w.pool, e, refl)
                    refl refl)
          ]
        ]
  ]
