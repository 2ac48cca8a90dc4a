-- ===== src/Tests/Trees.antt =====
-- hfo2/src/memiter.rs, fdt.rs and manifest.rs on a device tree with one VM.
use hafnium_verification.Prelude.{
  ℕ, zero, suc, ◌≡◌, refl, ◌%◌, ◌↔◌, true, List, [], ◌∷◌, ◌++◌, none, some, arith, length, leb,
  if◌then◌else◌, word,
}
use hafnium_verification.Text.{
  Bytes, slice, ascii, asciz, decimal, strcmp_is_zero, position, strnlen_s, memcmp_rs,
}
use hafnium_verification.Text.Strings.{IsText}
use hafnium_verification.Outcome.{Ends}
use hafnium_verification.MemIter.{at, as_digit, parse_uint, advance, iseq}
use hafnium_verification.MemIter.Parse.{spelled, parse_uint-numeral, advance_lem, iseq_iff}
use hafnium_verification.Fdt.{
  FdtToken, end_node, skip_node, token_loop, token_expect, u32, bytes, align, try_from, str,
  find_nul, next_property, property_body, next_subnode, skip_properties_loop, skip_node_loop,
}
use hafnium_verification.Fdt.Bounds.{Moves, skip_node-Ends}
use hafnium_verification.Fdt.Node.{
  FdtNode, tokenizer, read_property, find_child, read_property_loop, find_child_loop,
}
use hafnium_verification.Fdt.Lookup.{Narrows, find_child-Narrows}
use hafnium_verification.Fdt.Format.{Property, Children, close, child}
use hafnium_verification.Fdt.Find.{Represents, Reads, Finds, read_property-Reads, find_child-Finds}
use hafnium_verification.Manifest.{
  ManifestVm, ok, ◌>>=◌, contains, contains_loop, get_next, string_list_of, generate_vm_node_name,
  write_str, zeros, new, read_string, read_from, copy_string,
}
use hafnium_verification.Manifest.Init.{
  parsed, init, hypervisor_node, check_reserved, read_vms, push_vm, find_vm,
}
use hafnium_verification.Manifest.Accepts.{Accepts}
use hafnium_verification.Manifest.Iff.{init_iff}
use hafnium_verification.Manifest.Names.{vm_name, generate_vm_node_name_lem}
use hafnium_verification.Manifest.Strings.{separated, has_entry, contains-separated}

abbrev byte_at : Bytes → ℕ → ℕ
byte_at [] i = 0
byte_at (c ∷ cs) zero = c
byte_at (c ∷ cs) (suc i) = byte_at cs i

abbrev small : ℕ → Bytes
small n = 0 ∷ 0 ∷ 0 ∷ n ∷ []

-- `\0` and three bytes of padding
abbrev nul_4 : Bytes
nul_4 = small 0

abbrev structure : Bytes
structure =
    small 1
    ++ nul_4
    ++ small 1
    ++ ascii "hypervisor"
    ++ (0 ∷ 0 ∷ [])
    ++ small 3
    ++ small 16
    ++ small 0
    ++ ascii "hafnium,hafnium"
    ++ (0 ∷ [])
    ++ small 1
    ++ ascii "vm1"
    ++ (0 ∷ [])
    ++ small 3
    ++ small 4
    ++ small 11
    ++ ascii "one"
    ++ (0 ∷ [])
    ++ small 2
    ++ small 2
    ++ small 2
    ++ small 9

abbrev memory : ℕ → ℕ
memory = byte_at (structure ++ ascii "compatible" ++ (0 ∷ []) ++ ascii "debug_name" ++ (0 ∷ []))

abbrev root : FdtNode
root = record {
  hdr = 0;
  node_data = slice 0 (length structure);
  strs = slice (length structure) 22;
}

abbrev compatible : Property
compatible = record {
  name = ascii "compatible";
  nameoff = 0;
  value = asciz (ascii "hafnium,hafnium");
}

abbrev debug_name : Property
debug_name = record { name = ascii "debug_name"; nameoff = 11; value = asciz (ascii "one") }

abbrev hypervisor : Children
hypervisor =
    child (ascii "hypervisor") (compatible ∷ []) (child (ascii "vm1") (debug_name ∷ []) close close)
      close

abbrev tree : Children
tree = child [] [] hypervisor close

root-Represents : Represents memory root [] tree
root-Represents = record {
  closing = FdtToken.end;
  is_closing = refl;
  aligned = refl;
  fits = omega arith;
  properties = tt;
  children = ground arith;
}

-- The node behind the root's name.
abbrev inner : FdtNode
inner = record root { node_data = slice 8 84 }

one : List ManifestVm
one =
    (record {
      debug_name = asciz (ascii "one") ++ zeros 28;
      kernel_filename = zeros 32;
      mem_size = 0;
      vcpu_count = 0;
    })
    ∷ []

accepted : init memory 6 inner ≡ parsed one (ok tt)
unfolding one init hypervisor_node check_reserved read_vms push_vm find_vm generate_vm_node_name
    write_str decimal find_child find_child_loop next_subnode token_expect token_loop u32 bytes
    align try_from str find_nul strcmp_is_zero skip_node skip_node_loop skip_properties_loop
    next_property property_body new read_string copy_string position read_property_loop read_from
    string_list_of contains_loop get_next iseq advance strnlen_s memcmp_rs
accepted = refl

-- The one VM is what the tree describes.
init_iff_example : (init memory 6 inner ≡ parsed one (ok tt)) ↔ Accepts memory 6 inner one
init_iff_example = init_iff memory 6 inner one

hypervisor_IsText : IsText (ascii "hypervisor")
hypervisor_IsText = ground arith

find_child-Finds_example :
    Finds memory root (some ([], hypervisor)) (find_child memory (asciz []) root)
find_child-Finds_example = find_child-Finds memory root [] tree [] root-Represents tt

-- The same tree behind the root's name.
inner-Represents : Represents memory inner [] hypervisor
inner-Represents = record {
  closing = end_node;
  is_closing = refl;
  aligned = refl;
  fits = omega arith;
  properties = tt;
  children = root-Represents.children.3;
}

hypervisor_node_at : FdtNode
hypervisor_node_at = record root { node_data = slice 24 68 }

hypervisor-Represents :
    Represents memory hypervisor_node_at
      (compatible ∷ [])
      (child (ascii "vm1") (debug_name ∷ []) close close)
unfolding hypervisor_node_at
hypervisor-Represents = record {
  closing = end_node;
  is_closing = refl;
  aligned = refl;
  fits = omega arith;
  properties = root-Represents.children.3.2;
  children = root-Represents.children.3.3;
}

compatible_IsText : IsText (ascii "compatible")
compatible_IsText = ground arith

read_property-Reads_example :
    Reads memory
      (some (asciz (ascii "hafnium,hafnium")))
      (read_property memory (asciz (ascii "compatible")) hypervisor_node_at)
read_property-Reads_example =
    read_property-Reads memory hypervisor_node_at (compatible ∷ [])
      (child (ascii "vm1") (debug_name ∷ []) close close) (ascii "compatible") hypervisor-Represents
      compatible_IsText

skip_node-Ends_example :
    Ends
      (λ _. Moves 0 (tokenizer inner))
      (Moves 0 (tokenizer inner))
      (skip_node memory (tokenizer inner))
skip_node-Ends_example = skip_node-Ends memory (tokenizer inner)

find_child-Narrows_example :
    Ends
      (λ _. Narrows 4 inner)
      (λ n. n ≡ inner)
      (find_child memory (asciz (ascii "hypervisor")) inner)
find_child-Narrows_example = find_child-Narrows memory (asciz (ascii "hypervisor")) inner

generate_vm_node_name_lem_example : generate_vm_node_name 17 ≡ ok (asciz (vm_name 17))
generate_vm_node_name_lem_example = generate_vm_node_name_lem 17 (omega arith)

-- 18446744073709551617 is 2 ^ 64 + 1, and is read as 1.
parse_uint-numeral_example :
    parse_uint (at 64 (ascii "  " ++ (ascii "18446744073709551617" ++ ascii " rest")))
    ≡ (some (spelled 0 (ascii "18446744073709551617") % word), at 86 (ascii " rest"))
unfolding as_digit
parse_uint-numeral_example =
    parse_uint-numeral 64 (ascii "  ") (ascii "18446744073709551617") (ascii " rest") (ground arith)
      (λ e. absurd cc) (ground arith) refl

advance_lem_example :
    advance (at 64 (ascii "vm1")) 2 ≡ (if leb 2 3 then some (at 66 (ascii "1")) else none)
advance_lem_example = advance_lem (at 64 (ascii "vm1")) 2 (omega arith) (omega arith)

iseq_iff_example :
    (iseq (at 64 (ascii "vm1")) (ascii "vm1" ++ 0 ∷ []) ≡ true) ↔ (ascii "vm1" ≡ ascii "vm1")
iseq_iff_example =
    iseq_iff (at 64 (ascii "vm1")) (ascii "vm1") [] (ground arith) (ground arith) (ground arith)

contains-separated_example :
    (string_list_of 64 (separated (ascii "a") (ascii "bc" ∷ []) ++ (0 ∷ []))
      >>= (λ l. contains l (asciz (ascii "bc"))))
    ≡ ok (has_entry (ascii "bc") (ascii "a" ∷ ascii "bc" ∷ []))
contains-separated_example =
    contains-separated 64 (ascii "a") (ascii "bc" ∷ []) (ascii "bc") (ground arith) (ground arith)
      (ground arith) (omega arith)
