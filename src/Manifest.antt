-- ===== src/Manifest.antt =====
-- hfo2/src/manifest.rs: the VMs that the device tree describes.
pub mod Init
pub mod Accepts
pub mod Iff
pub mod Names
pub mod Strings
use hafnium_verification.Prelude.{
  ℕ, zero, suc, ◌+◌, ◌-◌, ◌^◌, Bool, true, false, not, Option, none, some, List, [], ◌∷◌, ◌++◌, leb,
  ltb, ◌==◌, if◌then◌else◌, sub_usize, length, take, drop,
}
use hafnium_verification.Text.{Bytes, Slice, load, position, ascii, asciz, decimal}
use hafnium_verification.Outcome.{Outcome, got, fails, panicked, out_of_fuel}
use hafnium_verification.MemIter.{MemIter, at, len, advance, iseq}
use hafnium_verification.Fdt.Node.{FdtNode, fdt_parse_number, read_property, find_child}

pub data Error : Type 0 where
  no_hypervisor_fdt_node not_compatible reserved_vm_id no_primary_vm too_many_vms : Error
  property_not_found malformed_string string_too_long malformed_string_list : Error
  malformed_integer integer_overflow : Error

-- How a function that returns a `Result` ends.
pub data Result (A : Type 0) : Type 0 where
  ok : A → Result A
  err : Error → Result A
  panics : Result A
  no_fuel : Result A

infixl 5 ◌>>=◌
abbrev pub ◌>>=◌ : {A B : Type 0} → Result A → (A → Result B) → Result B
ok a >>= f = f a
err e >>= f = err e
panics >>= f = panics
no_fuel >>= f = no_fuel

-- `ok_or(e)?` and `map_err(|_| e)?`
abbrev pub ok_or : {S A : Type 0} → Error → Outcome S A → Result A
ok_or e (got a s) = ok a
ok_or e (fails s) = err e
ok_or e panicked = panics
ok_or e out_of_fuel = no_fuel

-- `ok_or(e)?` on a search that moves its object
abbrev pub moved_or : {S A : Type 0} → Error → Outcome S A → Result S
moved_or e (got a s) = ok s
moved_or e (fails s) = err e
moved_or e panicked = panics
moved_or e out_of_fuel = no_fuel

-- `unwrap()`
abbrev pub unwrap : {A : Type 0} → Option A → Result A
unwrap none = panics
unwrap (some a) = ok a

abbrev pub max_string_length : ℕ
max_string_length = 32

abbrev pub vm_name_buf_size : ℕ
vm_name_buf_size = 8

abbrev pub vm_id_offset : ℕ
vm_id_offset = 1

abbrev pub primary_vm_id : ℕ
primary_vm_id = vm_id_offset

pub record ManifestVm : Type 0 where
  pub debug_name : Bytes
  pub kernel_filename : Bytes
  pub mem_size : ℕ
  pub vcpu_count : ℕ

-- What the buffer holds, and what is written behind it.
unfoldable pub write_str : Bytes → Bytes → Option Bytes
write_str written s =
    if leb (length written + length s) vm_name_buf_size then some (written ++ s) else none

unfoldable pub generate_vm_node_name : ℕ → Result Bytes
generate_vm_node_name vm_id = do
  vm ← unwrap (write_str [] (ascii "vm"))
  digits ← unwrap (write_str vm (decimal 4 vm_id))
  unwrap (write_str digits (0 ∷ []))

-- `Default::default()` of an array of bytes
abbrev pub zeros : ℕ → Bytes
zeros zero = []
zeros (suc n) = 0 ∷ zeros n

abbrev pub is_last : Option ℕ → ℕ → Bool
is_last none n = false
is_last (some i) n = i == sub_usize n 1

-- The contents of a string property, copied over a buffer of zeros.
unfoldable pub copy_string : Bytes → Bytes → Result Bytes
copy_string value out =
    if not (is_last (position 0 value) (length value))
    then err malformed_string
    else if ltb (length out) (length value)
    then err string_too_long
    else ok (value ++ drop (length value) out)

unfoldable pub to_u16 : ℕ → Result ℕ
to_u16 value = if ltb value (2 ^ 16) then ok value else err integer_overflow

pub record StringList : Type 0 where
  pub mem_it : MemIter

abbrev pub string_list : MemIter → StringList
string_list it = record { mem_it = it }

abbrev pub last : Bytes → Option ℕ
last [] = none
last (c ∷ []) = some c
last (c ∷ cs) = last cs

abbrev pub has_next : StringList → Bool
has_next l = ltb 0 (len l.mem_it)

-- The entry up to a NUL and the list behind it, or the last entry and an empty list.
unfoldable pub get_next : StringList → Result (MemIter × StringList)
get_next l =
    let it = l.mem_it in
    let advanced : MemIter → ℕ → Result (MemIter × StringList) =
      λ entry n. unwrap (advance it n) >>= λ rest. ok (entry, string_list rest) in
    if not (has_next l) then panics else elim (position 0 it.bytes) [
      | some pos ↦ advanced (at it.next (take pos it.bytes)) (pos + 1)
      | none ↦ advanced it (len it)
    ]

unfoldable pub contains_loop : Bytes → ℕ → StringList → Result Bool
contains_loop text zero l = no_fuel
contains_loop text (suc fuel) l = elim (has_next l) [
  | false ↦ ok false
  | true ↦ get_next l >>= λ (entry, rest). elim (iseq entry text) [
    | true ↦ ok true
    | false ↦ contains_loop text fuel rest
  ]
]

-- Every entry is at least one byte of the list.
abbrev pub contains : StringList → Bytes → Result Bool
contains l text = contains_loop text (len l.mem_it + 1) l

unfoldable pub string_list_of : ℕ → Bytes → Result StringList
string_list_of p value = unwrap (last value) >>= λ c.
    if not (c == 0)
    then err malformed_string_list
    else ok (string_list (at p (take (length value - 1) value)))

module _ (mem : ℕ → ℕ) where
  abbrev pub contents : Slice → Bytes
  contents s = load mem s.ptr s.size

  unfoldable pub read_string : FdtNode → Bytes → Bytes → Result Bytes
  read_string n property out = do
    value ← ok_or property_not_found (read_property mem property n)
    copy_string (contents value) out

  unfoldable pub read_u64 : FdtNode → Bytes → Result ℕ
  read_u64 n property = do
    value ← ok_or property_not_found (read_property mem property n)
    ok_or malformed_integer (fdt_parse_number mem value)

  unfoldable pub read_u16 : FdtNode → Bytes → Result ℕ
  read_u16 n property = do value ← read_u64 n property; to_u16 value

  unfoldable pub read_from : FdtNode → Bytes → Result StringList
  read_from n property = do
    value ← ok_or property_not_found (read_property mem property n)
    string_list_of value.ptr (contents value)

  unfoldable pub new : FdtNode → ℕ → Result ManifestVm
  new n vm_id = do
    debug_name ← read_string n (asciz (ascii "debug_name")) (zeros max_string_length)
    if vm_id == primary_vm_id
        then ok (record {
          debug_name = debug_name;
          kernel_filename = zeros max_string_length;
          mem_size = 0;
          vcpu_count = 0;
        })
        else do
          file ← read_string n (asciz (ascii "kernel_filename")) (zeros max_string_length)
          size ← read_u64 n (asciz (ascii "mem_size"))
          count ← read_u16 n (asciz (ascii "vcpu_count"))
          ok (record {
            debug_name = debug_name;
            kernel_filename = file;
            mem_size = size;
            vcpu_count = count;
          })
