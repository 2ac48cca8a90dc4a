-- ===== src/Mailbox/Rollback.antt =====
-- Configuring a mailbox: what is mapped, and what is undone when a part of it fails.
use hafnium_verification.Prelude.{
  Bool, true, false, ◌⊎◌, subst, sym, ap, ◌∙◌, ℕ, ◌≡◌, refl, ◌∙◌, ◌⊎◌, inl, inr, Bool-cases,
}
use hafnium_verification.Mode.{Mode, mode_r, mode_w}
use hafnium_verification.MPool.{MPool}
use hafnium_verification.Mailbox.{Mailbox}
use hafnium_verification.Spci.{PageTables}
use hafnium_verification.Spci.Restore.{Mapped}
use hafnium_verification.Hypervisor.Share.{Stage1, Ending, done, failed, crashed}
use hafnium_verification.Mailbox.Configure.{
  Configured, send_mode, recv_mode, map_page, defrag_pages, guard_page, map_stage1, defrag_stage1,
  configure_stage1, configure_mapped, configure_pages,
}

module _ {P H : Type 0} (tables : PageTables P) (stage1 : Stage1 H)
    (send_begin send_end recv_begin recv_end : ℕ) where
  open tables use {defrag}

  abbrev pub with_pages : Mailbox → Mailbox
  with_pages m = record m { send = send_begin; recv = recv_begin }

  abbrev pub Sends : Bool → Mode → P → P → Type 0
  Sends = Mapped tables send_begin send_end

  abbrev pub Receives : Bool → Mode → P → P → Type 0
  Receives = Mapped tables recv_begin recv_end

  -- The hypervisor's page table is not the VM's, and the mailbox is changed at the end.
  abbrev Stage1Only : Configured P H → Ending × Configured P H → Type 0
  Stage1Only w (done, w') = (w'.ptable ≡ w.ptable) × (w'.mailbox ≡ with_pages w.mailbox)
  Stage1Only w (failed, w') = (w'.ptable ≡ w.ptable) × (w'.mailbox ≡ w.mailbox)
  Stage1Only w (crashed, w') = Unit

  configure_stage1-Stage1Only :
      (w : Configured P H)
      → Stage1Only w (configure_stage1 tables stage1 send_begin send_end recv_begin recv_end w)
  unfolding configure_stage1
  configure_stage1-Stage1Only w =
      let first = map_stage1 tables stage1 w send_begin send_end mode_r in
      let second = map_stage1 tables stage1 first.0 recv_begin recv_end mode_w in
      let mapped = defrag_stage1 tables stage1 second.0 in
      elim (Bool-cases first.1) [
        | inr e ↦ rw (configure_stage1, e, Stage1Only) (refl, refl)
        | inl e ↦ elim (Bool-cases second.1) [
          | inl f ↦ rw (configure_stage1, e, f, Stage1Only) (refl, refl)
          | inr f ↦
              elim (Bool-cases
                (stage1.unmap mapped.hypervisor_ptable send_begin send_end mapped.pool).2) [
                  | inl u ↦ rw (configure_stage1, e, f, u, Stage1Only) (refl, refl)
                  | inr u ↦ rw (configure_stage1, e, f, u, Stage1Only) tt
                ]
        ]
      ]

  -- What holds of the page table and the mailbox at either end; a panic promises nothing.
  abbrev Either : (P → Mailbox → Type 0) → (P → Mailbox → Type 0) → Ending × Configured P H → Type 0
  Either good_end bad_end (done, w) = good_end w.ptable w.mailbox
  Either good_end bad_end (failed, w) = bad_end w.ptable w.mailbox
  Either good_end bad_end (crashed, w) = Unit

  module _ (good_end bad_end : P → Mailbox → Type 0) (begin end : ℕ) (old : Mode) where
    -- After a failure the page was mapped in its old mode.
    abbrev MappedBack : P → Mailbox → Type 0
    MappedBack p' m = (p : P) × bad_end p m × Mapped tables begin end true old p p'

    guard_page-Either :
        (res : Ending × Configured P H)
        → Either good_end bad_end res
        → Either good_end MappedBack (guard_page tables stage1 begin end old res)
    guard_page-Either (done, w) h = h
    guard_page-Either (crashed, w) h = tt
    guard_page-Either (failed, w) h = elim (Bool-cases (map_page tables stage1 w begin end old).1) [
      | inr e ↦ rw (guard_page, e, Either) tt
      | inl e ↦ rw (guard_page, e, Either) (w.ptable, h, (w.pool, e, refl))
    ]

  module _ (w : Configured P H) (old_send old_recv : Mode) where
    -- Both pages are mapped, one after the other, and the mailbox has their addresses.
    abbrev pub IsConfigured : P → Mailbox → Type 0
    IsConfigured p m =
        (first : P) × Sends true send_mode w.ptable first
        × Receives true recv_mode first p
        × (m ≡ with_pages w.mailbox)

    -- The second page's mapping failed, or the page was mapped back.
    abbrev pub RecvUndone : P → P → Type 0
    RecvUndone first p =
        (second : P) × ((Receives false recv_mode first second
            × (m : MPool) × (p ≡ (defrag second m).0))
          ⊎ (Receives true recv_mode first second × Receives true old_recv second p))

    -- The mailbox is as it was. The first page's mapping failed, or it was mapped back, after the
    -- second page was seen to.
    abbrev pub IsRolledBack : P → Mailbox → Type 0
    IsRolledBack p m =
        (m ≡ w.mailbox)
        × (Sends false send_mode w.ptable p
            ⊎ ((first : P) × (last : P) × Sends true send_mode w.ptable first
                × RecvUndone first last
                × Sends true old_send last p))

    abbrev pub Reaches : Ending × Configured P H → Type 0
    Reaches = Either IsConfigured IsRolledBack

    module _ (first : P) (sent : Sends true send_mode w.ptable first) where
      -- The mailbox is as it was, and the page table this one.
      abbrev Stays : P → P → Mailbox → Type 0
      Stays q p m = (p ≡ q) × (m ≡ w.mailbox)

      configure_mapped-Reaches :
          (v : Configured P H)
          → Receives true recv_mode first v.ptable
          → v.mailbox ≡ w.mailbox
          → Reaches (
              configure_mapped tables stage1 send_begin send_end recv_begin recv_end old_send
                old_recv v)
      configure_mapped-Reaches v received same = weakened _ (
          guard_page-Either IsConfigured
            (MappedBack IsConfigured (Stays v.ptable) recv_begin recv_end old_recv) send_begin
            send_end old_send _
            (guard_page-Either IsConfigured (Stays v.ptable) recv_begin recv_end old_recv _
              (started _ (configure_stage1-Stage1Only v))))
        where
          started :
              (r : Ending × Configured P H)
              → Stage1Only v r
              → Either IsConfigured (Stays v.ptable) r
          started (done, v') (e, f) = (
            first,
            sent,
            subst (Receives true recv_mode first) (sym e) received,
            f ∙ ap with_pages same,
          )
          started (failed, v') (e, f) = (e, f ∙ same)
          started (crashed, v') h = tt

          weakened :
              (r : Ending × Configured P H)
              → Either IsConfigured
                  (MappedBack IsConfigured
                    (MappedBack IsConfigured (Stays v.ptable) recv_begin recv_end old_recv)
                    send_begin
                    send_end
                    old_send)
                  r
              → Reaches r
          weakened (done, v') h = h
          weakened (failed, v') (last, (q, (e, f), back), again) = (
            f,
            inr (
              first,
              last,
              sent,
              (v.ptable, inr (received, subst (λ p. Receives true old_recv p last) e back)),
              again,
            ),
          )
          weakened (crashed, v') h = tt

    -- With any operations on page tables: if `configure_pages` succeeds, both pages were mapped, one
    -- after the other, as shared and not owned, both mappings succeeded, the page table is the result,
    -- and the mailbox has the pages' addresses. If it fails, the mailbox is as it was, and either the
    -- first page's mapping failed, or that succeeded and was undone at the end by mapping the page in its
    -- old mode, after the second page's mapping had failed, with a defragmentation, or had succeeded and
    -- been undone by mapping that page in its old mode.
    pub configure_pages-Reaches :
        Reaches (
          configure_pages tables stage1 send_begin send_end recv_begin recv_end old_send old_recv w)
    unfolding configure_pages
    configure_pages-Reaches =
        let first = map_page tables stage1 w send_begin send_end send_mode in
        let second = map_page tables stage1 first.0 recv_begin recv_end recv_mode in
        let d = defrag_pages tables stage1 second.0 in
        elim (Bool-cases first.1) [
          | inr e ↦ rw (configure_pages, e) (refl, inl (w.pool, e, refl))
          | inl e ↦ elim (Bool-cases second.1) [
            | inl f ↦
                rw (configure_pages, e, f)
                  (configure_mapped-Reaches first.0.ptable (w.pool, e, refl) second.0
                    (first.0.pool, f, refl) refl)
            | inr f ↦ elim (Bool-cases (map_page tables stage1 d send_begin send_end old_send).1) [
              | inr g ↦ rw (configure_pages, e, f, guard_page, g) tt
              | inl g ↦
                  rw (configure_pages, e, f, guard_page, g)
                    (
                      refl,
                      inr (
                        first.0.ptable,
                        d.ptable,
                        (w.pool, e, refl),
                        (second.0.ptable, inl ((first.0.pool, f, refl), second.0.pool, refl)),
                        (d.pool, g, refl),
                      ),
                    )
            ]
          ]
        ]
