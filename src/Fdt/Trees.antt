-- ===== src/Fdt/Trees.antt =====
-- The methods of nodes on well-formed memory: they find what the tree that is described there has.
use hafnium_verification.Prelude.{
  ℕ, zero, suc, ◌≡◌, refl, subst, ◌+◌, ◌-◌, ◌%◌, ◌≤◌, ◌<◌, List, [], ◌∷◌, true, length, arith,
}
use hafnium_verification.Text.{Slice}
use hafnium_verification.Outcome.{got, fails}
use hafnium_verification.Fdt.{
  FdtToken, prop, nop, begin_node, end_node, next_property, skip_properties_loop, skip_properties,
  skip_node_loop, skip_node,
}
use hafnium_verification.Fdt.Format.{
  Property, Children, close, child, property_size, properties_size, head_size, children_size,
  closes, PropertiesAt, ChildrenAt,
}
use hafnium_verification.Fdt.Tokens.{
  at, token_lem, next_subnode_lem, next_subnode-fails, next_property_lem, next_property-fails,
}

-- Rounds that the loop of `skip_node` makes over the children and the token that closes them.
abbrev rounds : Children → ℕ
rounds close = 1
rounds (child name ps inner later) = 1 + rounds inner + rounds later

rounds_le : (cs : Children) → rounds cs ≤ children_size cs
rounds_le close = omega arith
rounds_le (child name ps inner later) = omega (arith, rounds_le inner, rounds_le later)

pub properties_count : (ps : List Property) → length ps ≤ properties_size ps
properties_count [] = omega arith
properties_count (p ∷ ps) = omega (arith, properties_count ps)

pub properties_aligned : (ps : List Property) → properties_size ps % 4 ≡ 0
properties_aligned [] = refl
properties_aligned (p ∷ ps) = omega (arith, properties_aligned ps)

pub children_aligned : (cs : Children) → children_size cs % 4 ≡ 0
children_aligned close = refl
children_aligned (child name ps inner later) =
    omega (arith, properties_aligned ps, children_aligned inner, children_aligned later)

module _ (mem : ℕ → ℕ) (strs : Slice) where
  four_le : (cs : Children) → 4 ≤ children_size cs
  four_le close = omega arith
  four_le (child name ps inner later) = omega (arith, four_le later)

  -- The loop over properties stops at the first child, or at the end of the node.
  pub stops :
      (closing : FdtToken) (p n : ℕ) (cs : Children)
      → closes closing ≡ true
      → p % 4 ≡ 0
      → children_size cs ≤ n
      → ChildrenAt mem strs closing p cs
      → next_property mem (at strs p n) ≡ fails (at strs p n)
  stops end_node p n close o h k c = next_property-fails strs mem p n end_node h k c refl refl
  stops FdtToken.end p n close o h k c =
      next_property-fails strs mem p n FdtToken.end h k c refl refl
  stops begin_node p n close o h k c = absurd cc
  stops prop p n close o h k c = absurd cc
  stops nop p n close o h k c = absurd cc
  stops closing p n (child name ps inner later) o h k c =
      next_property-fails strs mem p n begin_node h (omega (arith, k)) c.0 refl refl

  skip_properties_loop_lem :
      (closing : FdtToken) (ps : List Property) (cs : Children) (fuel p n : ℕ)
      → closes closing ≡ true
      → p % 4 ≡ 0
      → properties_size ps + children_size cs ≤ n
      → length ps < fuel
      → PropertiesAt mem strs p ps
      → ChildrenAt mem strs closing (p + properties_size ps) cs
      → skip_properties_loop mem fuel (at strs p n)
        ≡ got tt (at strs (p + properties_size ps) (n - properties_size ps))
  unfolding skip_properties_loop
  skip_properties_loop_lem closing ps cs zero p n o h k f a c = absurd (omega arith)
  skip_properties_loop_lem closing [] cs (suc fuel) p n o h k f a c =
      let place : p + 0 ≡ p = omega arith in
      let left : n - 0 ≡ n = omega arith in
      let c' : ChildrenAt mem strs closing p cs =
        subst (λ q. ChildrenAt mem strs closing q cs) place c in
      rw (skip_properties_loop, stops closing p n cs o h (omega (arith, k)) c', place, left) refl
  skip_properties_loop_lem closing (pr ∷ ps) cs (suc fuel) p n o h k f a c =
      let q = p + property_size pr in
      let place : p + (property_size pr + properties_size ps) ≡ q + properties_size ps =
        omega arith in
      let left : n - (property_size pr + properties_size ps)
          ≡ n - property_size pr - properties_size ps =
        omega arith in
      let c' = subst (λ r. ChildrenAt mem strs closing r cs) place c in
      rw
        (
          skip_properties_loop,
          next_property_lem strs mem p n pr h (omega (arith, k)) a.0,
          place,
          left,
        )
        (skip_properties_loop_lem closing ps cs fuel q (n - property_size pr) o (omega (arith, h))
          (omega (arith, k)) (omega (arith, f)) a.1 c')

  pub skip_properties_lem :
      (closing : FdtToken) (ps : List Property) (cs : Children) (p n : ℕ)
      → closes closing ≡ true
      → p % 4 ≡ 0
      → properties_size ps + children_size cs ≤ n
      → PropertiesAt mem strs p ps
      → ChildrenAt mem strs closing (p + properties_size ps) cs
      → skip_properties mem (at strs p n)
        ≡ got tt (at strs (p + properties_size ps) (n - properties_size ps))
  skip_properties_lem closing ps cs p n o h k a c =
      skip_properties_loop_lem closing ps cs (n + 1) p n o h k
        (omega (arith, k, properties_count ps)) a c

  -- From the children of a node to behind the token that closes it.
  skip_node_loop_lem :
      (cs : Children) (fuel pending p n : ℕ)
      → p % 4 ≡ 0
      → children_size cs ≤ n
      → ChildrenAt mem strs end_node p cs
      → skip_node_loop mem (rounds cs + fuel) (suc pending) (at strs p n)
        ≡ skip_node_loop mem fuel pending (at strs (p + children_size cs) (n - children_size cs))
  unfolding skip_node_loop
  skip_node_loop_lem close fuel pending p n h k c =
      let more : 1 + fuel ≡ suc fuel = omega arith in
      let size : n + 1 ≡ suc n = omega arith in
      rw
        (
          more,
          skip_node_loop,
          next_subnode-fails strs mem p n end_node h k c refl refl,
          size,
          token_lem strs mem p n n end_node h k c refl,
        )
        refl
  skip_node_loop_lem (child name ps inner later) fuel pending p n h k c =
      let q = p + head_size name in
      let r = q + properties_size ps in
      let n₁ = n - head_size name in
      let n₂ = n₁ - properties_size ps in
      let more : 1 + rounds inner + rounds later + fuel
          ≡ suc (rounds inner + (rounds later + fuel)) =
        omega arith in
      let place : p
            + (head_size name + properties_size ps + children_size inner + children_size later)
          ≡ r + children_size inner + children_size later =
        omega arith in
      let left : n
            - (head_size name + properties_size ps + children_size inner + children_size later)
          ≡ n₂ - children_size inner - children_size later =
        omega arith in
      rw
        (
          more,
          skip_node_loop,
          next_subnode_lem strs mem p n name h (omega (arith, k)) c.0 c.1,
          skip_properties_lem end_node ps inner q n₁ refl (omega (arith, h)) (omega (arith, k)) c.2
              c.3,
          skip_node_loop_lem inner (rounds later + fuel) (suc pending) r n₂
              (omega (arith, h, properties_aligned ps)) (omega (arith, k)) c.3,
          skip_node_loop_lem later fuel pending (r + children_size inner) (n₂ - children_size inner)
              (omega (arith, h, properties_aligned ps, children_aligned inner)) (omega (arith, k))
              c.4,
          place,
          left,
        )
        refl

  -- From the properties of a node to behind the token that closes it.
  pub skip_node_lem :
      (ps : List Property) (cs : Children) (p n : ℕ)
      → p % 4 ≡ 0
      → properties_size ps + children_size cs ≤ n
      → PropertiesAt mem strs p ps
      → ChildrenAt mem strs end_node (p + properties_size ps) cs
      → skip_node mem (at strs p n)
        ≡ got tt (
            at strs
              (p + properties_size ps + children_size cs)
              (n - properties_size ps - children_size cs))
  unfolding skip_node skip_node_loop
  skip_node_lem ps cs p n h k a c =
      let n' = n - properties_size ps in
      let fuel = n' + 1 - rounds cs in
      let enough : n' + 1 ≡ rounds cs + fuel = omega (arith, k, rounds_le cs) in
      rw
        (
          skip_node,
          skip_properties_lem end_node ps cs p n refl h k a c,
          enough,
          skip_node_loop_lem cs fuel 0 (p + properties_size ps) n'
              (omega (arith, h, properties_aligned ps)) (omega (arith, k)) c,
        )
        refl
