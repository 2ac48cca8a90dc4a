-- ===== src/Load.antt =====
-- hfo2/src/load.rs: the memory ranges that secondary VMs are loaded into, with boot_params.rs.
pub mod Reserved
use hafnium_verification.Prelude.{
  ℕ, zero, suc, Bool, true, false, not, Option, none, some, List, [], ◌∷◌, ◌++◌, if◌then◌else◌,
  ◌==◌, ltb, leb, length, sub_usize,
}
use hafnium_verification.Addr.{pa_difference}

abbrev pub max_mem_ranges : ℕ
max_mem_ranges = 20

pub record MemRange : Type 0 where
  pub begin : ℕ
  pub end : ℕ

-- The range that is found, and the ranges that are left.
unfoldable pub carve_out_mem_range : List MemRange → ℕ → Option (MemRange × List MemRange)
carve_out_mem_range [] size_to_find = none
carve_out_mem_range (mem_range ∷ rest) size_to_find =
    let found_begin = sub_usize mem_range.end size_to_find in
    let later = carve_out_mem_range rest size_to_find in
    if leb size_to_find (pa_difference mem_range.begin mem_range.end)
    then some (
      record { begin = found_begin; end = mem_range.end },
      record mem_range { end = found_begin } ∷ rest,
    )
    else elim later [ none ↦ none | some (found, rest') ↦ some (found, mem_range ∷ rest') ]

-- The next reserved range, if there is room; `false` is `Err`.
abbrev pub reserve : Bool → ℕ → ℕ → List MemRange → List MemRange × Bool
reserve needed begin end reserved =
    if needed
    then (if leb max_mem_ranges (length reserved)
        then (reserved, false)
        else (reserved ++ (record { begin = begin; end = end } ∷ []), true))
    else (reserved, true)

abbrev pub reserve_all : List MemRange → List MemRange → List MemRange → List MemRange × Bool
reserve_all reserved [] after = (reserved, true)
reserve_all reserved (b ∷ before) [] = (reserved, true)
reserve_all reserved (b ∷ before) (a ∷ after) =
    let (front, front_ok) = reserve (ltb b.begin a.begin) b.begin a.begin reserved in
    let (back, back_ok) = reserve (ltb a.end b.end) a.end b.end front in
    let rest = reserve_all back before after in
    if not front_ok then (front, false) else if not back_ok then (back, false) else rest

-- The reserved ranges of the update; `none` is the assertion that fails.
unfoldable pub update_reserved_ranges :
    List MemRange → List MemRange → List MemRange → Option (List MemRange × Bool)
update_reserved_ranges reserved before after =
    if length before == length after then some (reserve_all reserved before after) else none
