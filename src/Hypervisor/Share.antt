-- ===== src/Hypervisor/Share.antt =====
-- hfo2/src/hypervisor.rs: `clear_memory` and `share_memory`. The page tables of the VMs and of the
-- hypervisor are parameters, by the operations that the code calls.
use hafnium_verification.Prelude.{
  ℕ, ◌+◌, ◌-◌, Bool, true, false, not, ◌&&◌, ◌||◌, Option, none, some, List, if◌then◌else◌, ◌==◌,
  ltb, leb, set, get_elem?,
}
use hafnium_verification.Abi.{HfShare, give, lend, share}
use hafnium_verification.Addr.{page_size, is_aligned, ipa_add, pa_difference}
use hafnium_verification.Mode.{
  Mode, mode_r, mode_w, mode_x, mode_invalid, mode_unowned, mode_shared, ◌∪◌, contains,
}
use hafnium_verification.MPool.{MPool}
use hafnium_verification.MPool
use hafnium_verification.Spci.{PageTables, after_drop}
use hafnium_verification.VCpu.{vm_get}

-- What the code calls of the hypervisor's page table besides; `true` is `Ok`.
pub record Stage1 (H : Type 0) : Type 0 where
  pub tables : PageTables H
  pub unmap : H → ℕ → ℕ → MPool → H × MPool × Bool

-- How a call ends: `Ok`, `Err`, or the panic of an `unwrap` or an assertion.
pub data Ending : Type 0 where
  done failed crashed : Ending

-- The page tables that a call changes, the memory, and the local pool.
pub record World (P H : Type 0) : Type 0 where
  pub to : P
  pub from : P
  pub hypervisor_ptable : H
  pub memory : ℕ → ℕ
  pub pool : MPool

-- `ptr::write_bytes(region, 0, size)`
unfoldable pub zero_bytes : ℕ → ℕ → (ℕ → ℕ) → ℕ → ℕ
zero_bytes region size memory a = if leb region a && ltb a (region + size) then 0 else memory a

-- The modes of the sender and of the recipient.
abbrev pub share_modes : HfShare → Mode × Mode
share_modes give = (mode_invalid ∪ mode_unowned, mode_r ∪ mode_w ∪ mode_x)
share_modes lend = (mode_invalid, mode_r ∪ mode_w ∪ mode_x ∪ mode_unowned)
share_modes share =
    (mode_r ∪ mode_w ∪ mode_x ∪ mode_shared, mode_r ∪ mode_w ∪ mode_x ∪ mode_unowned ∪ mode_shared)

abbrev pub is_give : HfShare → Bool
is_give give = true
is_give lend = false
is_give share = false

-- What the sender's mode and the recipient's allow.
unfoldable pub may_share : Mode → Option Mode → HfShare → Bool
may_share orig_from_mode to_mode kind =
    if contains orig_from_mode mode_invalid
    then false
    else if contains orig_from_mode mode_unowned
    then elim to_mode [ none ↦ false | some m ↦ not (contains m mode_unowned) && is_give kind ]
    else not (contains orig_from_mode mode_shared)

module _ {P H : Type 0} (tables : PageTables P) (stage1 : Stage1 H) where
  abbrev Result : Type 0
  Result = Ending × World P H

  -- A mapping in the sender's page table.
  abbrev pub map_from : World P H → ℕ → ℕ → Mode → World P H × Bool
  map_from w begin end mode =
      let (from', pool', ok) = tables.identity_map w.from begin end mode w.pool in
      (record w { from = from'; pool = pool' }, ok)

  abbrev pub map_to : World P H → ℕ → ℕ → Mode → World P H × Bool
  map_to w begin end mode =
      let (to', pool', ok) = tables.identity_map w.to begin end mode w.pool in
      (record w { to = to'; pool = pool' }, ok)

  unfoldable pub clear_memory : World P H → ℕ → ℕ → Result
  unfolding zero_bytes
  clear_memory w begin end =
      let (h, pool', ok) = stage1.tables.identity_map w.hypervisor_ptable begin end mode_w w.pool in
      let (h_defragged, pool_defragged) = stage1.tables.defrag h pool' in
      let (h_unmapped, pool_unmapped, unmapped) = stage1.unmap h begin end pool' in
      elim ok [
        | false ↦ (failed, record w { hypervisor_ptable = h_defragged; pool = pool_defragged })
        | true ↦ (
          (if unmapped then done else crashed),
          record w {
            hypervisor_ptable = h_unmapped;
            pool = pool_unmapped;
            memory = zero_bytes begin (pa_difference begin end) w.memory;
          },
        )
      ]

  -- The sender's mode is put back; a failure of that panics.
  abbrev pub restore : World P H → ℕ → ℕ → Mode → Result
  restore w begin end mode =
      let (w', ok) = map_from w begin end mode in (if ok then failed else crashed, w')

  abbrev pub defrag_from : World P H → World P H
  defrag_from w =
      let (from', pool') = tables.defrag w.from w.pool in record w { from = from'; pool = pool' }

  -- From the cleared memory on.
  unfoldable pub give_to : World P H → ℕ → ℕ → Mode → Mode → Result
  give_to w begin end orig_from_mode to_mode =
      let (w', ok) = map_to w begin end to_mode in
      elim ok [ true ↦ (done, w') | false ↦ restore (defrag_from w') begin end orig_from_mode ]

  -- From the sender's new mode on.
  unfoldable pub clear_and_give : World P H → ℕ → ℕ → Mode → Mode → Result
  clear_and_give w begin end orig_from_mode to_mode =
      let (cleared, w') = clear_memory w begin end in
      elim cleared [
        | done ↦ give_to w' begin end orig_from_mode to_mode
        | failed ↦ restore w' begin end orig_from_mode
        | crashed ↦ (crashed, w')
      ]

  unfoldable pub share_between : World P H → ℕ → ℕ → HfShare → Result
  share_between w begin end kind =
      let (from_mode, to_mode) = share_modes kind in
      elim (tables.get_mode w.from begin end) [
        | none ↦ (failed, w)
        | some orig_from_mode ↦
            if may_share orig_from_mode (tables.get_mode w.to begin end) kind
            then (let (w', ok) = map_from w begin end from_mode in
                elim ok [
                  | false ↦ (failed, w')
                  | true ↦ clear_and_give w' begin end orig_from_mode to_mode
                ])
            else (failed, w)
      ]

-- The page tables of all VMs, in the order of their ids, and what else a call reaches.
pub record System (P H : Type 0) : Type 0 where
  pub ptables : List P
  pub hypervisor : H
  pub ram : ℕ → ℕ
  pub mpool : MPool

module _ {P H : Type 0} (tables : PageTables P) (stage1 : Stage1 H) where
  -- From the local pool on, until it is dropped.
  abbrev pub share_with_pool : System P H → ℕ → ℕ → P → P → ℕ → ℕ → HfShare → Ending × System P H
  share_with_pool s from_id vm_id to from begin end kind =
      let w : World P H = record {
        to = to;
        from = from;
        hypervisor_ptable = s.hypervisor;
        memory = s.ram;
        pool = MPool.new_with_fallback s.mpool;
      } in
      let (ending, w') = share_between tables stage1 w begin end kind in
      (
        ending,
        record {
          ptables = set (set s.ptables (from_id - 1) w'.from) (vm_id - 1) w'.to;
          hypervisor = w'.hypervisor_ptable;
          ram = w'.memory;
          mpool = after_drop tables s.mpool (MPool.drop w'.pool);
        },
      )

  -- `get` panics on the id 0; the caller's id is always that of a VM.
  unfoldable pub share_memory : System P H → ℕ → ℕ → ℕ → ℕ → HfShare → Ending × System P H
  share_memory s from_id vm_id addr size kind =
      let end = ipa_add addr size in
      if vm_id == from_id then (failed, s) else elim (vm_get s.ptables vm_id) [
        | none ↦ (crashed, s)
        | some found ↦ elim found [
          | none ↦ (failed, s)
          | some to ↦ elim (get_elem? s.ptables (from_id - 1)) [
            | none ↦ (crashed, s)
            | some from ↦
                if not (is_aligned addr page_size) || not (is_aligned end page_size)
                then (failed, s)
                else share_with_pool s from_id vm_id to from addr end kind
          ]
        ]
      ]
