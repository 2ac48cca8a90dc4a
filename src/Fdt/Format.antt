-- ===== src/Fdt/Format.antt =====
-- The flattened device tree format, as a description of memory that owes nothing to the tokenizer.
use hafnium_verification.Prelude.{
  ℕ, ◌≡◌, ◌+◌, ◌-◌, ◌%◌, ◌≤◌, ◌<◌, List, [], ◌∷◌, Bool, true, false, ◌&&◌, Option, none, some,
  length, ◌==◌, if◌then◌else◌,
}
use hafnium_verification.Text.{Bytes, Slice, load}
use hafnium_verification.Fdt.{FdtToken, end_node, code, be32}

-- A property: its name, where the name stands among the strings, and its value.
pub record Property : Type 0 where
  pub name : Bytes
  pub nameoff : ℕ
  pub value : Bytes

-- The children of a node: each has a name, properties and children, and later siblings.
pub data Children : Type 0 where
  close : Children
  child : Bytes → List Property → Children → Children → Children

-- Up to the next multiple of four.
abbrev pub padded : ℕ → ℕ
padded n = n + (4 - n % 4) % 4

abbrev pub property_size : Property → ℕ
property_size p = 12 + padded (length p.value)

abbrev pub properties_size : List Property → ℕ
properties_size [] = 0
properties_size (p ∷ ps) = property_size p + properties_size ps

-- A child's token and name.
abbrev pub head_size : Bytes → ℕ
head_size name = 4 + padded (length name + 1)

abbrev pub children_size : Children → ℕ
children_size close = 4
children_size (child name ps inner later) =
    head_size name + properties_size ps + children_size inner + children_size later

-- Texts with the same bytes.
abbrev pub same : Bytes → Bytes → Bool
same [] [] = true
same [] (y ∷ ys) = false
same (x ∷ xs) [] = false
same (x ∷ xs) (y ∷ ys) = (x == y) && same xs ys

-- The value of the first property of a name.
abbrev pub value_of : Bytes → List Property → Option Bytes
value_of name [] = none
value_of name (p ∷ ps) = if same p.name name then some p.value else value_of name ps

-- The properties and children of the first child of a name.
abbrev pub child_of : Bytes → Children → Option (List Property × Children)
child_of name close = none
child_of name (child n ps inner later) =
    if same n name then some (ps, inner) else child_of name later

-- A node is closed by its own token, and what stands around the root by the end of the tree.
abbrev pub closes : FdtToken → Bool
closes end_node = true
closes FdtToken.end = true
closes _ = false

module _ (mem : ℕ → ℕ) where
  -- A text at an address, and its NUL.
  abbrev pub TextAt : ℕ → Bytes → Type 0
  TextAt p [] = mem p ≡ 0
  TextAt p (c ∷ cs) = (mem p ≡ c) × (0 < c) × TextAt (p + 1) cs

  module _ (strs : Slice) where
    abbrev pub PropertyAt : ℕ → Property → Type 0
    PropertyAt p pr =
        (be32 mem p ≡ 3)
        × (be32 mem (p + 4) ≡ length pr.value)
        × (be32 mem (p + 8) ≡ pr.nameoff)
        × (load mem (p + 12) (length pr.value) ≡ pr.value)
        × (pr.nameoff ≤ strs.size)
        × TextAt (strs.ptr + pr.nameoff) pr.name

    abbrev pub PropertiesAt : ℕ → List Property → Type 0
    PropertiesAt p [] = Unit
    PropertiesAt p (pr ∷ ps) = PropertyAt p pr × PropertiesAt (p + property_size pr) ps

    -- The children end with a token that closes their parent.
    abbrev pub ChildrenAt : FdtToken → ℕ → Children → Type 0
    ChildrenAt closing p close = be32 mem p ≡ code closing
    ChildrenAt closing p (child name ps inner later) =
        let q = p + head_size name in
        let r = q + properties_size ps in
        (be32 mem p ≡ 1)
        × TextAt (p + 4) name
        × PropertiesAt q ps
        × ChildrenAt end_node r inner
        × ChildrenAt closing (r + children_size inner) later
