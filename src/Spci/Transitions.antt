-- ===== src/Spci/Transitions.antt =====
-- Who owns shared memory, and who has access to it, before and after a transition.
use hafnium_verification.Prelude.{
  ℕ, ◌/◌, ◌%◌, ◌==◌, if◌then◌else◌, ◌≡◌, refl, sym, ◌∙◌, inl, inr, Bool, true, false, not, ◌&&◌,
  ◌||◌, some, List, [], ◌∷◌, arith, All, Bool-cases, of_some,
}
use hafnium_verification.Mode.{Mode, ◌∩◌, ◌∪◌, mode_eq, same_bit, complement}
use hafnium_verification.Spci.{
  SpciMemoryShare, lend, relinquish, donate, mem_transition_table, spci_msg_get_next_state,
  state_mask, SpciMemTransitions, spci_memory_attrs_to_mode,
}

-- Of two VMs' modes of one region: exactly one owns it, and if both have access, both have it as
-- shared.
abbrev pub coherent : Mode → Mode → Bool
coherent a b =
    (a.invalid || b.invalid || (a.shared && b.shared)) && not (same_bit a.unowned b.unowned)

-- No bit of the state.
pub record IsAccess (mode : Mode) : Type 0 where
  pub valid : mode.invalid ≡ false
  pub owned : mode.unowned ≡ false
  pub exclusive : mode.shared ≡ false

record SameState (a b : Mode) : Type 0 where
  pub same_invalid : a.invalid ≡ b.invalid
  pub same_unowned : a.unowned ≡ b.unowned
  pub same_shared : a.shared ≡ b.shared

same_bit_lem : (a b : Bool) → same_bit a b ≡ true → a ≡ b
same_bit_lem a b h = ground (arith, h)

and_left : (a b : Bool) → (a && b) ≡ true → a ≡ true
and_left a b h = ground (arith, h)

and_right : (a b : Bool) → (a && b) ≡ true → b ≡ true
and_right a b h = ground (arith, h)

masked : (a : Bool) → (a && true) ≡ a
masked true = refl
masked false = refl

unmasked : (a b : Bool) → (a || (false && b)) ≡ a
unmasked true b = refl
unmasked false b = refl

joined : (a b : Bool) → b ≡ false → (a || b) ≡ a
joined true b h = refl
joined false b h = h

mode_eq-SameState : (a b : Mode) → mode_eq (a ∩ state_mask) b ≡ true → SameState a b
mode_eq-SameState a b h =
    let i = same_bit (a.invalid && true) b.invalid in
    let u = same_bit (a.unowned && true) b.unowned in
    let s = same_bit (a.shared && true) b.shared in
    let shared = and_right _ s h in
    let upto_unowned = and_left _ s h in
    let unowned = and_right _ u upto_unowned in
    let invalid = and_right _ i (and_left _ u upto_unowned) in
    record {
      same_invalid = sym (masked a.invalid) ∙ same_bit_lem (a.invalid && true) b.invalid invalid;
      same_unowned = sym (masked a.unowned) ∙ same_bit_lem (a.unowned && true) b.unowned unowned;
      same_shared = sym (masked a.shared) ∙ same_bit_lem (a.shared && true) b.shared shared;
    }

SameState-coherent : (a b c d : Mode) → SameState a c → SameState b d → coherent a b ≡ coherent c d
SameState-coherent a b c d h k =
    rw
      (h.same_invalid, h.same_unowned, h.same_shared, k.same_invalid, k.same_unowned, k.same_shared)
      refl

-- A row of a table leads from a coherent state to a coherent state.
abbrev IsSound : SpciMemTransitions → Type 0
IsSound t =
    (coherent t.orig_from_mode t.orig_to_mode ≡ true) × (coherent t.from_mode t.to_mode ≡ true)

table-IsSound : (share : SpciMemoryShare) → All IsSound (mem_transition_table share)
table-IsSound donate = ((refl, refl), ((refl, refl), ((refl, refl), ((refl, refl), tt))))
table-IsSound relinquish = ((refl, refl), ((refl, refl), tt))
table-IsSound lend = ((refl, refl), ((refl, refl), tt))

from_state : (a b : Mode) → SameState (a ∪ (complement state_mask ∩ b)) a
from_state a b = record {
  same_invalid = unmasked a.invalid b.invalid;
  same_unowned = unmasked a.unowned b.unowned;
  same_shared = unmasked a.shared b.shared;
}

to_state : (a b : Mode) → IsAccess b → SameState (a ∪ b) a
to_state a b h = record {
  same_invalid = joined a.invalid b.invalid h.valid;
  same_unowned = joined a.unowned b.unowned h.owned;
  same_shared = joined a.shared b.shared h.exclusive;
}

table_coherent :
    (ts : List SpciMemTransitions) (attributes from to : Mode) (next : Mode × Mode)
    → All IsSound ts
    → IsAccess attributes
    → spci_msg_get_next_state ts attributes from to ≡ some next
    → (coherent from to ≡ true) × (coherent next.0 next.1 ≡ true)
unfolding spci_msg_get_next_state
table_coherent [] attributes from to next sound access h = absurd (ground (arith, h))
table_coherent (t ∷ ts) attributes from to next sound access h =
    let first = mode_eq (from ∩ state_mask) t.orig_from_mode in
    let second = mode_eq (to ∩ state_mask) t.orig_to_mode in
    elim (Bool-cases (first && second)) [
      | inr e ↦
          table_coherent ts attributes from to next sound.1 access
            (rw (e, spci_msg_get_next_state) at h)
      | inl e ↦
          let from_same = mode_eq-SameState from t.orig_from_mode (and_left first second e) in
          let to_same = mode_eq-SameState to t.orig_to_mode (and_right first second e) in
          of_some (λ next. (coherent from to ≡ true) × (coherent next.0 next.1 ≡ true))
            (rw (e, spci_msg_get_next_state) at h)
            (
              SameState-coherent from to t.orig_from_mode t.orig_to_mode from_same to_same
                  ∙ sound.0.0,
              SameState-coherent (t.from_mode ∪ (complement state_mask ∩ from))
                    (t.to_mode ∪ attributes) t.from_mode t.to_mode (from_state t.from_mode from)
                    (to_state t.to_mode attributes access)
                  ∙ sound.0.1,
            )
    ]

-- If the transition tables lead from the modes of a region in two VMs to new ones, with attributes
-- that say nothing of the state, then before and after exactly one of the VMs owns the region, and
-- both have access to it only as shared memory.
pub get_next_state-coherent :
    (share : SpciMemoryShare) (attributes from to from' to' : Mode)
    → IsAccess attributes
    → spci_msg_get_next_state (mem_transition_table share) attributes from to ≡ some (from', to')
    → (coherent from to ≡ true) × (coherent from' to' ≡ true)
get_next_state-coherent share attributes from to from' to' access h =
    table_coherent (mem_transition_table share) attributes from to (from', to')
      (table-IsSound share) access h

basic-IsAccess :
    (r w x : Bool)
    → IsAccess (record {
      r = r;
      w = w;
      x = x;
      d = false;
      invalid = false;
      unowned = false;
      shared = false;
    })
basic-IsAccess r w x = record { valid = refl; owned = refl; exclusive = refl }

either-IsAccess : (c : Bool) (a b : Mode) → IsAccess a → IsAccess b → IsAccess (if c then a else b)
either-IsAccess true a b h k = h
either-IsAccess false a b h k = k

-- What a message may ask of a loan says nothing of the state.
pub attrs_to_mode-IsAccess : (attributes : ℕ) → IsAccess (spci_memory_attrs_to_mode attributes)
unfolding spci_memory_attrs_to_mode
attrs_to_mode-IsAccess attributes =
    let access = attributes / 128 % 4 in
    either-IsAccess (access == 0) _ _ (basic-IsAccess true false false) (
      either-IsAccess (access == 1) _ _ (basic-IsAccess true false true) (
        either-IsAccess (access == 2) _ _ (basic-IsAccess true true false)
          (basic-IsAccess true true true)))
