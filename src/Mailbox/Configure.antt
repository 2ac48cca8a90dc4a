-- ===== src/Mailbox/Configure.antt =====
-- hfo2/src/vm.rs: `configure`, `configure_pages` and `configure_stage1`. The scope guards that undo a
-- step run in the order in which they are nested, the last one first.
use hafnium_verification.Prelude.{ℕ, Bool, not, ◌&&◌, ◌||◌, none, some, if◌then◌else◌, ◌==◌}
use hafnium_verification.Addr.{page_size, is_aligned, ipa_add, pa_add}
use hafnium_verification.Mode.{
  Mode, mode_r, mode_w, mode_unowned, mode_shared, ◌∪◌, contains, valid_owned_exclusive,
}
use hafnium_verification.MPool.{MPool}
use hafnium_verification.MPool
use hafnium_verification.Mailbox.{Mailbox, is_configured}
use hafnium_verification.Spci.{PageTables, after_drop}
use hafnium_verification.Hypervisor.Share.{Stage1, Ending, done, failed, crashed}

-- What `configure` changes, and the pool.
pub record Configured (P H : Type 0) : Type 0 where
  pub ptable : P
  pub hypervisor_ptable : H
  pub mailbox : Mailbox
  pub pool : MPool

abbrev pub send_mode : Mode
send_mode = mode_unowned ∪ mode_shared ∪ mode_r ∪ mode_w

abbrev pub recv_mode : Mode
recv_mode = mode_unowned ∪ mode_shared ∪ mode_r

-- `unwrap()`, in a guard of a call that fails
abbrev pub undone : Bool → Ending
undone ok = if ok then failed else crashed

module _ {P H : Type 0} (tables : PageTables P) (stage1 : Stage1 H) where
  abbrev Result : Type 0
  Result = Ending × Configured P H

  abbrev pub map_page : Configured P H → ℕ → ℕ → Mode → Configured P H × Bool
  map_page w begin end mode =
      let (p, pool', ok) = tables.identity_map w.ptable begin end mode w.pool in
      (record w { ptable = p; pool = pool' }, ok)

  abbrev pub defrag_pages : Configured P H → Configured P H
  defrag_pages w =
      let (p, pool') = tables.defrag w.ptable w.pool in record w { ptable = p; pool = pool' }

  -- A guard: it maps the page in its old mode again.
  abbrev pub guard_page : ℕ → ℕ → Mode → Result → Result
  guard_page begin end mode (ending, w) = elim ending [
    | crashed ↦ (crashed, w)
    | done ↦ (done, w)
    | failed ↦ let (w', ok) = map_page w begin end mode in (undone ok, w')
  ]

  abbrev pub map_stage1 : Configured P H → ℕ → ℕ → Mode → Configured P H × Bool
  map_stage1 w begin end mode =
      let (h, pool', ok) = stage1.tables.identity_map w.hypervisor_ptable begin end mode w.pool in
      (record w { hypervisor_ptable = h; pool = pool' }, ok)

  abbrev pub defrag_stage1 : Configured P H → Configured P H
  defrag_stage1 w =
      let (h, pool') = stage1.tables.defrag w.hypervisor_ptable w.pool in
      record w { hypervisor_ptable = h; pool = pool' }

  abbrev pub unmap_stage1 : Configured P H → ℕ → ℕ → Result
  unmap_stage1 w begin end =
      let (h, pool', ok) = stage1.unmap w.hypervisor_ptable begin end w.pool in
      (undone ok, record w { hypervisor_ptable = h; pool = pool' })

  module _ (send_begin send_end recv_begin recv_end : ℕ) where
    unfoldable pub configure_stage1 : Configured P H → Result
    configure_stage1 w =
        let (w₁, ok₁) = map_stage1 w send_begin send_end mode_r in
        let (w₂, ok₂) = map_stage1 w₁ recv_begin recv_end mode_w in
        let m = record w₂.mailbox { send = send_begin; recv = recv_begin } in
        if not ok₁
        then (failed, defrag_stage1 w₁)
        else if not ok₂
        then unmap_stage1 (defrag_stage1 w₂) send_begin send_end
        else (done, record w₂ { mailbox = m })

    -- With both pages mapped in the VM's page table.
    abbrev pub configure_mapped : Mode → Mode → Configured P H → Result
    configure_mapped orig_send_mode orig_recv_mode w =
        guard_page send_begin send_end orig_send_mode
          (guard_page recv_begin recv_end orig_recv_mode (configure_stage1 w))

    unfoldable pub configure_pages : Mode → Mode → Configured P H → Result
    configure_pages orig_send_mode orig_recv_mode w =
        let (w₁, ok₁) = map_page w send_begin send_end send_mode in
        let (w₂, ok₂) = map_page w₁ recv_begin recv_end recv_mode in
        if not ok₁
        then (failed, w₁)
        else if not ok₂
        then guard_page send_begin send_end orig_send_mode (failed, defrag_pages w₂)
        else configure_mapped orig_send_mode orig_recv_mode w₂

  -- The local pool is dropped at the end.
  abbrev pub with_local_pool : (Configured P H → Result) → Configured P H → Result
  with_local_pool call w =
      let (ending, w') = call (record w { pool = MPool.new_with_fallback w.pool }) in
      (ending, record w' { pool = after_drop tables w.pool (MPool.drop w'.pool) })

  abbrev pub may_send : Mode → Bool
  may_send m = valid_owned_exclusive m && contains m (mode_r ∪ mode_w)

  abbrev pub may_receive : Mode → Bool
  may_receive m = valid_owned_exclusive m && contains m mode_r

  unfoldable pub configure : Configured P H → ℕ → ℕ → Result
  configure w send recv =
      let send_end = pa_add send page_size in
      let recv_end = pa_add recv page_size in
      if not (is_aligned send page_size) || not (is_aligned recv page_size)
      then (failed, w)
      else if send == recv
      then (failed, w)
      else if is_configured w.mailbox
      then (failed, w)
      else elim (tables.get_mode w.ptable send (ipa_add send page_size)) [
        | none ↦ (failed, w)
        | some orig_send_mode ↦
            if not (may_send orig_send_mode)
            then (failed, w)
            else elim (tables.get_mode w.ptable recv (ipa_add recv page_size)) [
              | none ↦ (failed, w)
              | some orig_recv_mode ↦
                  if not (may_receive orig_recv_mode)
                  then (failed, w)
                  else with_local_pool
                      (configure_pages send send_end recv recv_end orig_send_mode orig_recv_mode) w
            ]
      ]
