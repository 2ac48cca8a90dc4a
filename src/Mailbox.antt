-- ===== src/Mailbox.antt =====
-- hfo2/src/vm.rs: `Mailbox`, and the parts of `VmInner` that act on it.
-- A `WaitEntry` stands in the array of the waiting VM at the target's id. The target's `waiter_list` is
-- a list of the ids of waiting VMs, and whether an entry's `wait_links` are in a list is kept with the
-- waiting VM; a VM's `ready_list` is a list of indexes of its entries. A null pointer is address 0.
pub mod Waiters
pub mod Configure
pub mod Rollback
use hafnium_verification.Prelude.{
  ℕ, Bool, true, false, not, ◌&&◌, ◌||◌, Option, none, some, List, [], ◌∷◌, ◌++◌, if◌then◌else◌,
  ◌==◌, ltb,
}

pub data MailboxState : Type 0 where
  empty : MailboxState
  received : MailboxState
  read : MailboxState

pub record Mailbox : Type 0 where
  pub state : MailboxState
  pub recv : ℕ
  pub send : ℕ
  pub waiter_list : List ℕ
  pub ready_list : List ℕ

unfoldable pub init : Mailbox
init = record { state = empty; recv = 0; send = 0; waiter_list = []; ready_list = [] }

abbrev pub is_state_empty : MailboxState → Bool
is_state_empty empty = true
is_state_empty received = false
is_state_empty read = false

abbrev pub list_empty {ℓ} : {A : Type ℓ} → List A → Bool
list_empty [] = true
list_empty (x ∷ xs) = false

abbrev pub pop_front {ℓ} : {A : Type ℓ} → List A → Option (A × List A)
pop_front [] = none
pop_front (x ∷ xs) = some (x, xs)

abbrev pub mem : ℕ → List ℕ → Bool
mem x [] = false
mem x (y ∷ ys) = (x == y) || mem x ys

module _ (m : Mailbox) where
  open m use {state, recv, send, waiter_list, ready_list}

  unfoldable pub fetch_waiter : Option ℕ × Mailbox
  fetch_waiter =
      if not (is_state_empty state) || (recv == 0) || list_empty waiter_list
      then (none, m)
      else elim (pop_front waiter_list) [
        | none ↦ (none, m)
        | some (w, rest) ↦ (some w, record m { waiter_list = rest })
      ]

  abbrev pub is_waiter_list_empty : Bool
  is_waiter_list_empty = list_empty waiter_list

  -- `try_read`; `true` is `Ok`.
  unfoldable pub try_read : Bool × Mailbox
  try_read = elim state [
    | empty ↦ (false, m)
    | received ↦ (true, record m { state = read })
    | read ↦ (false, m)
  ]

  abbrev pub set_read : Mailbox
  set_read = record m { state = read }

  abbrev pub set_received : Mailbox
  set_received = record m { state = received }

  abbrev pub set_empty : Mailbox
  set_empty = record m { state = empty }

  abbrev pub is_configured : Bool
  is_configured = not (send == 0) && not (recv == 0)

  abbrev pub is_empty : Bool
  is_empty = is_state_empty state

  unfoldable pub dequeue_ready_list : Option ℕ × Mailbox
  dequeue_ready_list = elim (pop_front ready_list) [
    | none ↦ (none, m)
    | some (index, rest) ↦ (some index, record m { ready_list = rest })
  ]

  abbrev pub enqueue_ready_list : ℕ → Mailbox
  enqueue_ready_list index = record m { ready_list = ready_list ++ index ∷ [] }

-- `wait_for`: `waiting` is the caller's id, `waits` says which of its entries have their `wait_links` in
-- a list, and the target's mailbox is changed. `none` is the panic of the array access, which `MAX_VMS`
-- bounds; `true` is `Ok`.
unfoldable pub wait_for : ℕ → ℕ → ℕ → (ℕ → Bool) → Mailbox → Option (Bool × (ℕ → Bool) × Mailbox)
wait_for max_vms waiting target_id waits target =
    if not (ltb target_id max_vms)
    then none
    else if waits target_id
    then some (false, waits, target)
    else some (
      true,
      λ i. if i == target_id then true else waits i,
      record target { waiter_list = target.waiter_list ++ waiting ∷ [] },
    )

-- The entries of all VMs after `list_pop_front` has taken this one out of the target's list.
abbrev pub pop_links : ℕ → Option ℕ → (ℕ → ℕ → Bool) → ℕ → ℕ → Bool
pop_links target_id none links w i = links w i
pop_links target_id (some popped) links w i =
    if (w == popped) && (i == target_id) then false else links w i
