-- ===== src/Fdt/Lookup.antt =====
-- Looking up nodes and properties ends, and what it returns lies within the node.
use hafnium_verification.Prelude.{ℕ, zero, suc, ◌≡◌, refl, ◌+◌, ◌-◌, ◌≤◌, ◌<◌, arith}
use hafnium_verification.Text.{Bytes, Slice}
use hafnium_verification.Outcome.{got, fails, and_then, Ends, and_then-Ends, Ends-weaken}
use hafnium_verification.Fdt.{FdtTokenizer, next_property, next_subnode, skip_properties, skip_node}
use hafnium_verification.Fdt.Bounds.{
  Moves, Inside, Entry, Named, next_property-Ends, next_subnode-Ends, skip_properties-Ends,
  skip_node-Ends,
}
use hafnium_verification.Fdt.Node.{
  FdtNode, tokenizer, at_cursor, read_property_loop, read_property, find_child_loop, find_child,
  first_child, next_sibling,
}

-- The slice lies within the bytes of the node.
abbrev pub Holds : Slice → Slice → Type 0
Holds whole s = (whole.ptr ≤ s.ptr) × (s.ptr + s.size ≤ whole.ptr + whole.size)

-- The node that is found lies behind this one's place, in the same tree, and ends where this one does.
abbrev pub Narrows : ℕ → FdtNode → FdtNode → Type 0
Narrows n node child =
    (node.node_data.ptr + n ≤ child.node_data.ptr)
    × (child.node_data.ptr + child.node_data.size ≡ node.node_data.ptr + node.node_data.size)

abbrev Past : FdtTokenizer → Slice → FdtTokenizer → Type 0
Past t s t' = Inside t t' s × Moves 4 t t'

module _ (mem : ℕ → ℕ) where
  module _ (name : Bytes) where
    read_property_loop-Ends :
        (fuel : ℕ) (t : FdtTokenizer)
        → t.cur.size < fuel
        → Ends (λ s _. Holds t.cur s) (λ _. Unit) (read_property_loop mem name fuel t)
    unfolding read_property_loop
    read_property_loop-Ends zero t h = absurd (omega arith)
    read_property_loop-Ends (suc fuel) t h =
        and_then-Ends (Entry t) (Moves 0 t) (λ s _. Holds t.cur s) (λ _. Unit) (next_property mem t)
          _ _ (next_property-Ends mem t)
          (λ entry t' m.
            let rest =
              Ends-weaken (λ s _. Holds t'.cur s) (λ _. Unit) (λ s _. Holds t.cur s) (λ _. Unit) _
                (read_property_loop-Ends fuel t' (omega (arith, m.1)))
                (λ s _ k. omega (arith, m.1, k)) (λ _ _. tt) in
            let here : Holds t.cur entry.1 = omega (arith, m) in ground (arith, rest, here))
          (λ t' m. tt)

    -- On any memory, reading a property ends, and a value that it returns lies within the node.
    pub read_property-Holds :
        (n : FdtNode) → Ends (λ s _. Holds n.node_data s) (λ _. Unit) (read_property mem name n)
    read_property-Holds n =
        read_property_loop-Ends (n.node_data.size + 1) (tokenizer n) (omega arith)

    find_child_loop-Ends :
        (fuel : ℕ) (t : FdtTokenizer)
        → t.cur.size < fuel
        → Ends (λ _. Moves 4 t) (Moves 0 t) (find_child_loop mem name fuel t)
    unfolding find_child_loop
    find_child_loop-Ends zero t h = absurd (omega arith)
    find_child_loop-Ends (suc fuel) t h =
        and_then-Ends (Named mem t) (Moves 0 t) (λ _. Moves 4 t) (Moves 0 t) (next_subnode mem t) _
          _ (next_subnode-Ends mem t)
          (λ child t' m.
            let again : (t'' : FdtTokenizer)
                → Moves 0 t' t''
                → Ends (λ _. Moves 4 t) (Moves 0 t) (find_child_loop mem name fuel t'') =
              λ t'' k.
                Ends-weaken (λ _. Moves 4 t'') (Moves 0 t'') (λ _. Moves 4 t) (Moves 0 t) _
                  (find_child_loop-Ends fuel t'' (omega (arith, m.3, k)))
                  (λ _ s j. omega (arith, m.3, k, j)) (λ s j. omega (arith, m.3, k, j)) in
            let rest =
              and_then-Ends (λ _. Moves 0 t') (Moves 0 t') (λ _. Moves 4 t) (Moves 0 t)
                (skip_node mem t') _ _ (skip_node-Ends mem t') (λ _. again) again in
            ground (arith, rest, m.3))
          (λ t' m. m)

    -- On any memory, looking for a child does not run out of fuel: it panics, or it returns. A child that
    -- is found lies within the node, behind at least its token, and without one the node is what it was.
    pub find_child-Narrows :
        (n : FdtNode) → Ends (λ _. Narrows 4 n) (λ n'. n' ≡ n) (find_child mem name n)
    unfolding find_child
    find_child-Narrows n =
        and_then-Ends (λ _. Moves 0 (tokenizer n)) (Moves 0 (tokenizer n)) (λ _. Narrows 4 n)
          (λ n'. n' ≡ n) (skip_properties mem (tokenizer n)) _ _
          (skip_properties-Ends mem (tokenizer n))
          (λ _ t m.
            and_then-Ends (λ _. Moves 4 t) (Moves 0 t) (λ _. Narrows 4 n) (λ n'. n' ≡ n)
              (find_child_loop mem name (t.cur.size + 1) t) _ _
              (find_child_loop-Ends (t.cur.size + 1) t (omega arith))
              (λ _ t' k. omega (arith, m, k)) (λ _ _. refl))
          (λ _ _. refl)

  -- A name that is found lies in the node, before the child.
  abbrev pub IsChild : FdtNode → Slice → FdtNode → Type 0
  IsChild n s n' =
      (1 ≤ s.size)
      × (mem (s.ptr + s.size - 1) ≡ 0)
      × (s.ptr + s.size ≤ n'.node_data.ptr)
      × Narrows 4 n n'

  enter :
      (n : FdtNode) (t : FdtTokenizer)
      → Moves 0 (tokenizer n) t
      → Ends
          (IsChild n)
          (λ n'. n' ≡ n)
          (and_then (next_subnode mem t) (λ child t'. got child (at_cursor n t')) (λ _. fails n))
  enter n t m =
      and_then-Ends (Named mem t) (Moves 0 t) (IsChild n) (λ n'. n' ≡ n) (next_subnode mem t) _ _
        (next_subnode-Ends mem t)
        (λ child t' k. (k.0, k.1, omega (arith, k.2), omega (arith, m, k.3))) (λ _ _. refl)

  -- On any memory, `first_child` and `next_sibling` end. The child that they move to lies within the
  -- node, behind its name, which ends with a NUL; without one the node is what it was.
  pub next_sibling-IsChild :
      (n : FdtNode)
      → Ends (IsChild n) (λ n'. n' ≡ n) (first_child mem n)
        × Ends (IsChild n) (λ n'. n' ≡ n) (next_sibling mem n)
  unfolding first_child next_sibling
  next_sibling-IsChild n =
      let t = tokenizer n in
      (
        and_then-Ends (λ _. Moves 0 t) (Moves 0 t) (IsChild n) (λ n'. n' ≡ n)
            (skip_properties mem t) _ _ (skip_properties-Ends mem t) (λ _ t' m. enter n t' m)
            (λ _ _. refl),
        and_then-Ends (λ _. Moves 0 t) (Moves 0 t) (IsChild n) (λ n'. n' ≡ n) (skip_node mem t) _ _
            (skip_node-Ends mem t) (λ _ t' m. enter n t' m) (λ _ _. refl),
      )
