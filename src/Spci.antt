-- ===== src/Spci.antt =====
-- hfo2/src/spci.rs and hfo2/src/spci_architected_message.rs: sharing memory by messages.
-- The page tables of the two VMs are a parameter, by the operations that the code calls.
pub mod Transitions
pub mod Restore
use hafnium_verification.Prelude.{
  ℕ, zero, suc, ◌+◌, ◌-◌, ◌*◌, ◌/◌, ◌%◌, Bool, true, false, not, ◌&&◌, ◌||◌, Option, none, some,
  List, [], ◌∷◌, if◌then◌else◌, ◌==◌, add_usize, sub_usize, mul_usize,
}
use hafnium_verification.Addr.{page_size, is_aligned, ipa_add}
use hafnium_verification.Mode.{
  Mode, empty, mode_r, mode_w, mode_x, mode_invalid, mode_unowned, mode_shared, ◌∪◌, ◌∩◌,
  complement, mode_eq,
}
use hafnium_verification.MPool.{MPool}
use hafnium_verification.MPool

pub data SpciReturn : Type 0 where
  success : SpciReturn
  not_supported : SpciReturn
  invalid_parameters : SpciReturn
  out_of_memory : SpciReturn
  busy : SpciReturn
  interrupted : SpciReturn
  denied : SpciReturn
  retry : SpciReturn

pub data SpciMemoryShare : Type 0 where
  lend : SpciMemoryShare
  relinquish : SpciMemoryShare
  donate : SpciMemoryShare

pub record SpciMemTransitions : Type 0 where
  pub orig_from_mode : Mode
  pub orig_to_mode : Mode
  pub from_mode : Mode
  pub to_mode : Mode

-- The access bits of `borrower_attributes`, bits 7 and 8.
unfoldable pub spci_memory_attrs_to_mode : ℕ → Mode
spci_memory_attrs_to_mode attributes =
    let access = attributes / 128 % 4 in
    if access == 0
    then mode_r
    else if access == 1
    then mode_r ∪ mode_x
    else if access == 2
    then mode_r ∪ mode_w
    else mode_r ∪ mode_w ∪ mode_x

abbrev pub state_mask : Mode
state_mask = mode_invalid ∪ mode_unowned ∪ mode_shared

abbrev transition : Mode → Mode → Mode → Mode → SpciMemTransitions
transition a b c d = record { orig_from_mode = a; orig_to_mode = b; from_mode = c; to_mode = d }

-- The tables of `spci_msg_check_transition`.
abbrev pub donate_transitions : List SpciMemTransitions
donate_transitions =
    transition empty (mode_invalid ∪ mode_unowned) (mode_invalid ∪ mode_unowned) empty
    ∷ transition mode_invalid mode_unowned (mode_invalid ∪ mode_unowned) empty
    ∷ transition mode_shared (mode_unowned ∪ mode_shared) (mode_invalid ∪ mode_unowned) empty
    ∷ transition empty (mode_invalid ∪ mode_unowned ∪ mode_shared)
        (mode_invalid ∪ mode_unowned ∪ mode_shared) empty
    ∷ []

abbrev pub relinquish_transitions : List SpciMemTransitions
relinquish_transitions =
    transition mode_unowned mode_invalid (mode_invalid ∪ mode_unowned ∪ mode_shared) empty
    ∷ transition (mode_unowned ∪ mode_shared) mode_shared
        (mode_invalid ∪ mode_unowned ∪ mode_shared) empty
    ∷ []

abbrev pub shared_lend_transitions : List SpciMemTransitions
shared_lend_transitions =
    transition empty (mode_invalid ∪ mode_unowned ∪ mode_shared) mode_shared
      (mode_unowned ∪ mode_shared)
    ∷ transition empty (mode_invalid ∪ mode_unowned) mode_shared (mode_unowned ∪ mode_shared)
    ∷ []

abbrev pub mem_transition_table : SpciMemoryShare → List SpciMemTransitions
mem_transition_table donate = donate_transitions
mem_transition_table relinquish = relinquish_transitions
mem_transition_table lend = shared_lend_transitions

unfoldable pub spci_msg_get_next_state :
    List SpciMemTransitions → Mode → Mode → Mode → Option (Mode × Mode)
spci_msg_get_next_state [] attributes from to = none
spci_msg_get_next_state (t ∷ ts) attributes from to =
    let rest = spci_msg_get_next_state ts attributes from to in
    if mode_eq (from ∩ state_mask) t.orig_from_mode && mode_eq (to ∩ state_mask) t.orig_to_mode
    then some (t.from_mode ∪ (complement state_mask ∩ from), t.to_mode ∪ attributes)
    else rest

-- What the code calls of a VM's page table; `true` is `Ok`. Those of mm.rs are `page_tables`.
pub record PageTables (P : Type 0) : Type 0 where
  pub get_mode : P → ℕ → ℕ → Option Mode
  pub identity_map : P → ℕ → ℕ → Mode → MPool → P × MPool × Bool
  pub defrag : P → MPool → P × MPool

-- How a call ends: with a result, or with the panic of an `unwrap`.
pub data Outcome : Type 0 where
  returned : SpciReturn → Outcome
  panicked : Outcome

-- What the code reads of `SpciMemoryRegion`: the count, and the first constituent.
pub record SpciMemoryRegion : Type 0 where
  pub count : ℕ
  pub address : ℕ
  pub page_count : ℕ

module _ {P : Type 0} (tables : PageTables P) where
  open tables use {get_mode, identity_map, defrag}

  unfoldable pub spci_msg_check_transition :
      P → P → SpciMemoryShare → ℕ → ℕ → Mode → Option (Mode × Mode × Mode)
  unfolding spci_msg_get_next_state
  spci_msg_check_transition to from share begin end attributes =
      if not (is_aligned begin page_size) || not (is_aligned end page_size)
      then none
      else elim (get_mode from begin end) [
        | none ↦ none
        | some orig_from_mode ↦ elim (get_mode to begin end) [
          | none ↦ none
          | some orig_to_mode ↦
              elim (spci_msg_get_next_state (mem_transition_table share) attributes orig_from_mode
                orig_to_mode) [
                  | none ↦ none
                  | some (from_mode, to_mode) ↦ some (orig_from_mode, from_mode, to_mode)
                ]
        ]
      ]

  -- The two page tables, the recipient's first, and the local pool.
  abbrev pub Shared : Type 0
  Shared = Outcome × P × P × MPool

  -- After the sender's page table is updated: the recipient's, or the sender's back again.
  abbrev pub map_recipient : P → P → ℕ → ℕ → Mode → Mode → MPool → Shared
  map_recipient to from begin end orig_from_mode to_mode local =
      let (to', local', ok) = identity_map to begin end to_mode local in
      let (from', local'') = defrag from local' in
      let (from'', local''', back) = identity_map from' begin end orig_from_mode local'' in
      elim ok [
        | true ↦ (returned success, to', from, local')
        | false ↦ elim back [
          | true ↦ (returned out_of_memory, to', from'', local''')
          | false ↦ (panicked, to', from'', local''')
        ]
      ]

  -- From the check of the transition on.
  abbrev pub share_region : P → P → ℕ → ℕ → Mode → SpciMemoryShare → MPool → Shared
  share_region to from begin end attributes share local =
      elim (spci_msg_check_transition to from share begin end attributes) [
        | none ↦ (returned invalid_parameters, to, from, local)
        | some (orig_from_mode, from_mode, to_mode) ↦
            let (from', local', ok) = identity_map from begin end from_mode local in
            elim ok [
              | true ↦ map_recipient to from' begin end orig_from_mode to_mode local'
              | false ↦ (returned out_of_memory, to, from', local')
            ]
      ]

  -- The fallback as the local pool gives it back when it is dropped.
  abbrev pub after_drop : MPool → Option MPool → MPool
  after_drop fallback none = fallback
  after_drop fallback (some pool) = pool

  -- `spci_share_memory`; `reflexive` is that the two VMs are one object.
  unfoldable pub spci_share_memory :
      Bool → P → P → SpciMemoryRegion → Mode → SpciMemoryShare → MPool → Outcome × P × P × MPool
  unfolding spci_msg_check_transition
  spci_share_memory reflexive to from region attributes share fallback =
      let begin = region.address in
      let end = ipa_add begin (mul_usize region.page_count page_size) in
      let (out, to', from', local) =
        share_region to from begin end attributes share (MPool.new_with_fallback fallback) in
      if reflexive
      then (returned invalid_parameters, to, from, fallback)
      else (out, to', from', after_drop fallback (MPool.drop local))

  -- `spci_validate_call_share_memory`: the region's header has 8 bytes, a constituent 16.
  unfoldable pub spci_validate_call_share_memory :
      Bool → P → P → SpciMemoryRegion → ℕ → Mode → SpciMemoryShare → MPool → Outcome × P × P × MPool
  unfolding spci_share_memory
  spci_validate_call_share_memory reflexive to from region size attributes share fallback =
      if size == 8 + 16 * region.count
      then spci_share_memory reflexive to from region attributes share fallback
      else (returned invalid_parameters, to, from, fallback)
