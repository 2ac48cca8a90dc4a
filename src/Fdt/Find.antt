-- ===== src/Fdt/Find.antt =====
-- What `read_property` and `find_child` find in a tree.
use hafnium_verification.Prelude.{
  ℕ, zero, suc, ◌≡◌, refl, subst, ◌+◌, ◌-◌, ◌%◌, ◌≤◌, ◌<◌, List, [], ◌∷◌, ◌++◌, true, false, Option,
  none, some, length, arith, Bool-cases, inl, inr,
}
use hafnium_verification.Text.{Bytes, Slice, slice, load, strcmp_is_zero}
use hafnium_verification.Text.Strings.{IsText}
use hafnium_verification.Outcome.{Outcome, got, fails, and_then}
use hafnium_verification.Fdt.{FdtTokenizer, FdtToken, end_node, begin_node, prop, nop, skip_node}
use hafnium_verification.Fdt.Node.{
  FdtNode, at_cursor, read_property_loop, read_property, find_child_loop, find_child,
}
use hafnium_verification.Fdt.Format.{
  Property, Children, close, child, property_size, properties_size, head_size, children_size,
  closes, same, value_of, child_of, PropertiesAt, ChildrenAt,
}
use hafnium_verification.Fdt.Tokens.{
  at, next_subnode_lem, next_subnode-fails, next_property_lem, strcmp_is_zero_lem,
}
use hafnium_verification.Fdt.Trees.{
  properties_aligned, children_aligned, properties_count, stops, skip_properties_lem, skip_node_lem,
}

-- The node's bytes hold properties and children in the format, from an aligned address on.
pub record Represents (mem : ℕ → ℕ) (n : FdtNode) (ps : List Property) (cs : Children)
    : Type 0 where
  pub closing : FdtToken
  pub is_closing : closes closing ≡ true
  pub aligned : n.node_data.ptr % 4 ≡ 0
  pub fits : properties_size ps + children_size cs ≤ n.node_data.size
  pub properties : PropertiesAt mem n.strs n.node_data.ptr ps
  pub children : ChildrenAt mem n.strs closing (n.node_data.ptr + properties_size ps) cs

module _ (mem : ℕ → ℕ) where
  -- A value is found exactly if the tree has one, and then it is that one.
  abbrev pub Reads : Option Bytes → Outcome (Unit {0}) Slice → Type 0
  Reads none o = o ≡ fails tt
  Reads (some v) o = (s : Slice) × (o ≡ got s tt) × (load mem s.ptr s.size ≡ v)

  module _ (strs : Slice) (name : Bytes) (text : IsText name) where
    read_property_loop-Reads :
        (closing : FdtToken) (ps : List Property) (cs : Children) (fuel p n : ℕ)
        → closes closing ≡ true
        → p % 4 ≡ 0
        → properties_size ps + children_size cs ≤ n
        → length ps < fuel
        → PropertiesAt mem strs p ps
        → ChildrenAt mem strs closing (p + properties_size ps) cs
        → Reads (value_of name ps) (read_property_loop mem (name ++ 0 ∷ []) fuel (at strs p n))
    unfolding read_property_loop
    read_property_loop-Reads closing ps cs zero p n o h k f a c = absurd (omega arith)
    read_property_loop-Reads closing [] cs (suc fuel) p n o h k f a c =
        let place : p + 0 ≡ p = omega arith in
        let c' = subst (λ q. ChildrenAt mem strs closing q cs) place c in
        rw (read_property_loop, stops mem strs closing p n cs o h (omega (arith, k)) c') refl
    read_property_loop-Reads closing (pr ∷ ps) cs (suc fuel) p n o h k f a c =
        let q = p + property_size pr in
        let place : p + (property_size pr + properties_size ps) ≡ q + properties_size ps =
          omega arith in
        let c' = subst (λ r. ChildrenAt mem strs closing r cs) place c in
        let compared =
          strcmp_is_zero_lem strs mem (strs.ptr + pr.nameoff) pr.name name a.0.5 text in
        let read = next_property_lem strs mem p n pr h (omega (arith, k)) a.0 in
        let rest =
          read_property_loop-Reads closing ps cs fuel q (n - property_size pr) o (omega (arith, h))
            (omega (arith, k)) (omega (arith, f)) a.1 c' in
        let value = slice (p + 12) (length pr.value) in
        let step : read_property_loop mem (name ++ 0 ∷ []) (suc fuel) (at strs p n)
            ≡ (elim (strcmp_is_zero mem (strs.ptr + pr.nameoff) (name ++ 0 ∷ [])) [
              | true ↦ got value tt
              | false ↦
                  read_property_loop mem (name ++ 0 ∷ []) fuel (at strs q (n - property_size pr))
            ]) =
          rw (read_property_loop, read) refl in
        elim (Bool-cases (same pr.name name)) [
          | inl e ↦ rw (step, compared, e) (value, refl, a.0.3)
          | inr e ↦ rw (step, compared, e) rest
        ]

    -- The tokenizer is left at the child.
    abbrev FoundAt : Option (List Property × Children) → Outcome FdtTokenizer (Unit {0}) → Type 0
    FoundAt none o = (t : FdtTokenizer) × (o ≡ fails t)
    FoundAt (some (ps, cs)) o =
        (n : FdtNode) × (o ≡ got tt (at strs n.node_data.ptr n.node_data.size))
        × Represents mem n ps cs
        × (n.strs ≡ strs)

    find_child_loop-FoundAt :
        (hdr : ℕ) (closing : FdtToken) (cs : Children) (fuel p n : ℕ)
        → closes closing ≡ true
        → p % 4 ≡ 0
        → children_size cs ≤ n
        → children_size cs < fuel
        → ChildrenAt mem strs closing p cs
        → FoundAt (child_of name cs) (find_child_loop mem (name ++ 0 ∷ []) fuel (at strs p n))
    unfolding find_child_loop
    find_child_loop-FoundAt hdr closing cs zero p n o h k f c = absurd (omega arith)
    find_child_loop-FoundAt hdr end_node close (suc fuel) p n o h k f c = (
      at strs p n,
      rw (find_child_loop, next_subnode-fails strs mem p n end_node h k c refl refl) refl,
    )
    find_child_loop-FoundAt hdr FdtToken.end close (suc fuel) p n o h k f c =
        let ended = next_subnode-fails strs mem p n FdtToken.end h k c refl refl in
        (at strs p n, rw (find_child_loop, ended) refl)
    find_child_loop-FoundAt hdr begin_node close (suc fuel) p n o h k f c = absurd cc
    find_child_loop-FoundAt hdr prop close (suc fuel) p n o h k f c = absurd cc
    find_child_loop-FoundAt hdr nop close (suc fuel) p n o h k f c = absurd cc
    find_child_loop-FoundAt hdr closing (child s ps inner later) (suc fuel) p n o h k f c =
        let q = p + head_size s in
        let n₁ = n - head_size s in
        let n₂ = n₁ - properties_size ps - children_size inner in
        let next = q + properties_size ps + children_size inner in
        let compared = strcmp_is_zero_lem strs mem (p + 4) s name c.1 text in
        let entered = next_subnode_lem strs mem p n s h (omega (arith, k)) c.0 c.1 in
        let skipped =
          skip_node_lem mem strs ps inner q n₁ (omega (arith, h)) (omega (arith, k)) c.2 c.3 in
        let rest =
          find_child_loop-FoundAt hdr closing later fuel next n₂ o
            (omega (arith, h, properties_aligned ps, children_aligned inner)) (omega (arith, k))
            (omega (arith, f)) c.4 in
        let step : find_child_loop mem (name ++ 0 ∷ []) (suc fuel) (at strs p n)
            ≡ (elim (strcmp_is_zero mem (p + 4) (name ++ 0 ∷ [])) [
              | true ↦ got tt (at strs q n₁)
              | false ↦
                  and_then (skip_node mem (at strs q n₁))
                    (λ _ t. find_child_loop mem (name ++ 0 ∷ []) fuel t)
                    (λ t. find_child_loop mem (name ++ 0 ∷ []) fuel t)
            ]) =
          rw (find_child_loop, entered) refl in
        let found : FdtNode = record { hdr = hdr; node_data = slice q n₁; strs = strs } in
        elim (Bool-cases (same s name)) [
          | inl e ↦
              rw (step, compared, e)
                (
                  found,
                  refl,
                  record {
                    closing = end_node;
                    is_closing = refl;
                    aligned = omega (arith, h);
                    fits = omega (arith, k);
                    properties = c.2;
                    children = c.3;
                  },
                  refl,
                )
          | inr e ↦ rw (step, compared, e, skipped) rest
        ]

  -- The child is found exactly if the tree has one, and then the node moves to it.
  abbrev pub Finds :
      FdtNode → Option (List Property × Children) → Outcome FdtNode (Unit {0}) → Type 0
  Finds n none o = o ≡ fails n
  Finds n (some (ps, cs)) o =
      (n' : FdtNode) × (o ≡ got tt n') × Represents mem n' ps cs × (n'.strs ≡ n.strs)

  commit :
      (n : FdtNode) (name : Bytes) (text : IsText name) (found : Option (List Property × Children))
      (o : Outcome FdtTokenizer (Unit {0}))
      → FoundAt n.strs name text found o
      → Finds n found (and_then o (λ _ t. got tt (at_cursor n t)) (λ _. fails n))
  commit n name text none o (t, e) = rw e refl
  commit n name text (some (ps, cs)) o (m, e, rep, strs) =
      let n' : FdtNode = record { hdr = n.hdr; node_data = m.node_data; strs = n.strs } in
      let place = m.node_data.ptr + properties_size ps in
      rw e (
        n',
        refl,
        record {
          closing = rep.closing;
          is_closing = rep.is_closing;
          aligned = rep.aligned;
          fits = rep.fits;
          properties = subst (λ s. PropertiesAt mem s m.node_data.ptr ps) strs rep.properties;
          children = subst (λ s. ChildrenAt mem s rep.closing place cs) strs rep.children;
        },
        refl,
      )

  -- On a node that represents properties and children, `read_property` returns the value of the first
  -- property of the name, where there is one, and otherwise an error.
  pub read_property-Reads :
      (n : FdtNode) (ps : List Property) (cs : Children) (name : Bytes)
      → Represents mem n ps cs
      → IsText name
      → Reads (value_of name ps) (read_property mem (name ++ 0 ∷ []) n)
  read_property-Reads n ps cs name r text =
      read_property_loop-Reads n.strs name text r.closing ps cs (n.node_data.size + 1)
        n.node_data.ptr n.node_data.size r.is_closing r.aligned r.fits
        (omega (arith, r.fits, properties_count ps)) r.properties r.children

  -- On a node that represents properties and children, `find_child` moves to the first child of the
  -- name, where there is one: it then represents that child's properties and children. Otherwise it
  -- fails and the node is what it was.
  pub find_child-Finds :
      (n : FdtNode) (ps : List Property) (cs : Children) (name : Bytes)
      → Represents mem n ps cs
      → IsText name
      → Finds n (child_of name cs) (find_child mem (name ++ 0 ∷ []) n)
  unfolding find_child
  find_child-Finds n ps cs name r text =
      let p = n.node_data.ptr + properties_size ps in
      let left = n.node_data.size - properties_size ps in
      let skipped =
        skip_properties_lem mem n.strs r.closing ps cs n.node_data.ptr n.node_data.size r.is_closing
          r.aligned r.fits r.properties r.children in
      let loop =
        find_child_loop-FoundAt n.strs name text n.hdr r.closing cs (left + 1) p left r.is_closing
          (omega (arith, r.aligned, properties_aligned ps)) (omega (arith, r.fits))
          (omega (arith, r.fits)) r.children in
      let step : find_child mem (name ++ 0 ∷ []) n
          ≡ and_then (find_child_loop mem (name ++ 0 ∷ []) (left + 1) (at n.strs p left))
              (λ _ t. got tt (at_cursor n t)) (λ _. fails n) =
        rw (find_child, skipped) refl in
      rw step (commit n name text (child_of name cs) _ loop)
