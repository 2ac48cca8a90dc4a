-- ===== src/Fdt/Node.antt =====
-- hfo2/src/fdt.rs: `FdtNode`, a node given by the bytes behind its name, and how it is looked up.
use hafnium_verification.Prelude.{
  ℕ, zero, suc, ◌+◌, ◌*◌, ◌%◌, ◌^◌, true, false, ◌||◌, not, Option, none, some, ltb, ◌==◌,
  if◌then◌else◌,
}
use hafnium_verification.Text.{Bytes, Slice, slice, strcmp_is_zero}
use hafnium_verification.Outcome.{Outcome, got, fails, panicked, out_of_fuel, and_then}
use hafnium_verification.Fdt.{
  FdtTokenizer, new, be32, next_property, next_subnode, skip_properties, skip_node,
}

-- Places of the header's fields behind its address.
abbrev pub off_magic : ℕ
off_magic = 0

abbrev pub off_totalsize : ℕ
off_totalsize = 4

abbrev pub off_off_dt_struct : ℕ
off_off_dt_struct = 8

abbrev pub off_off_dt_strings : ℕ
off_off_dt_strings = 12

abbrev pub off_version : ℕ
off_version = 20

abbrev pub off_last_comp_version : ℕ
off_last_comp_version = 24

abbrev pub off_size_dt_strings : ℕ
off_size_dt_strings = 32

abbrev pub off_size_dt_struct : ℕ
off_size_dt_struct = 36

-- The size of a header.
abbrev pub header_size : ℕ
header_size = 40

abbrev pub fdt_version : ℕ
fdt_version = 17

-- 0xd00dfeed
abbrev pub fdt_magic : ℕ
fdt_magic = 3490578157

pub record FdtNode : Type 0 where
  pub hdr : ℕ
  pub node_data : Slice
  pub strs : Slice

abbrev pub tokenizer : FdtNode → FdtTokenizer
tokenizer n = new n.node_data n.strs

-- The node whose bytes the tokenizer is at.
abbrev pub at_cursor : FdtNode → FdtTokenizer → FdtNode
at_cursor n t = record n { node_data = t.cur }

module _ (mem : ℕ → ℕ) where
  abbrev pub total_size : ℕ → ℕ
  total_size hdr = be32 mem (hdr + off_totalsize)

  unfoldable pub new_root : ℕ → Option FdtNode
  new_root hdr =
      let max_ver = be32 mem (hdr + off_version) in
      let min_ver = be32 mem (hdr + off_last_comp_version) in
      let data_begin = be32 mem (hdr + off_off_dt_struct) in
      let data_size = be32 mem (hdr + off_size_dt_struct) in
      let strs_begin = be32 mem (hdr + off_off_dt_strings) in
      let strs_size = be32 mem (hdr + off_size_dt_strings) in
      if not (be32 mem (hdr + off_magic) == fdt_magic)
      then none
      else if ltb fdt_version min_ver || ltb max_ver fdt_version
      then none
      else some (record {
        hdr = hdr;
        node_data = slice (hdr + data_begin) data_size;
        strs = slice (hdr + strs_begin) strs_size;
      })

  -- 32-bit and 64-bit numbers; the assertion on the address panics.
  unfoldable pub fdt_parse_number : Slice → Outcome (Unit {0}) ℕ
  fdt_parse_number value =
      if not (value.ptr % 4 == 0)
      then panicked
      else if value.size == 4
      then got (be32 mem value.ptr) tt
      else if value.size == 8
      then got (be32 mem value.ptr * 2 ^ 32 + be32 mem (value.ptr + 4)) tt
      else fails tt

  module _ (name : Bytes) where
    unfoldable pub read_property_loop : ℕ → FdtTokenizer → Outcome (Unit {0}) Slice
    read_property_loop zero t = out_of_fuel
    read_property_loop (suc fuel) t =
        and_then (next_property mem t)
          (λ entry t'. elim (strcmp_is_zero mem entry.0 name) [
            | true ↦ got entry.1 tt
            | false ↦ read_property_loop fuel t'
          ])
          (λ t'. fails tt)

    -- The node is not changed.
    abbrev pub read_property : FdtNode → Outcome (Unit {0}) Slice
    read_property n = read_property_loop (n.node_data.size + 1) (tokenizer n)

    -- A failure of `skip_node` is ignored.
    unfoldable pub find_child_loop : ℕ → FdtTokenizer → Outcome FdtTokenizer (Unit {0})
    find_child_loop zero t = out_of_fuel
    find_child_loop (suc fuel) t =
        and_then (next_subnode mem t)
          (λ child t'. elim (strcmp_is_zero mem child.ptr name) [
            | true ↦ got tt t'
            | false ↦
                and_then (skip_node mem t') (λ _ t''. find_child_loop fuel t'')
                  (λ t''. find_child_loop fuel t'')
          ])
          fails

    unfoldable pub find_child : FdtNode → Outcome FdtNode (Unit {0})
    find_child n =
        and_then (skip_properties mem (tokenizer n))
          (λ _ t.
            and_then (find_child_loop (t.cur.size + 1) t) (λ _ t'. got tt (at_cursor n t'))
              (λ _. fails n))
          (λ _. fails n)

  -- The name of the first subnode, which becomes the node.
  unfoldable pub first_child : FdtNode → Outcome FdtNode Slice
  first_child n =
      and_then (skip_properties mem (tokenizer n))
        (λ _ t.
          and_then (next_subnode mem t) (λ child t'. got child (at_cursor n t')) (λ _. fails n))
        (λ _. fails n)

  unfoldable pub next_sibling : FdtNode → Outcome FdtNode Slice
  next_sibling n =
      and_then (skip_node mem (tokenizer n))
        (λ _ t.
          and_then (next_subnode mem t) (λ child t'. got child (at_cursor n t')) (λ _. fails n))
        (λ _. fails n)
