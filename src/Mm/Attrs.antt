-- ===== src/Mm/Attrs.antt =====
-- hfo2/src/mm.rs: `get_attrs_level`, `get_attrs`, `get_mode` and `defrag`.
use hafnium_verification.Prelude.{
  ℕ, zero, suc, ◌+◌, min, not, ◌&&◌, Option, none, some, List, [], ◌∷◌, ltb, leb, ◌==◌,
  if◌then◌else◌, drop,
}
use hafnium_verification.Mode.{Mode}
use hafnium_verification.MPool.{MPool}
use hafnium_verification.MPool
use hafnium_verification.Mm.{
  Arch, leaf, table, Child, Pte, entry_size, start_of_next_block, level_end, index,
  round_down_to_page, round_up_to_page, ptable_addr_space_end, attrs,
}
use hafnium_verification.Mm.Map.{Tables}

-- `zip(BlockIter::new(begin, cap, size)).map(f)`
module _ {T : Type 0} (f : ℕ → T → Option ℕ) (size cap : ℕ) where
  abbrev pub zip_map : ℕ → List T → List (Option ℕ)
  zip_map begin [] = []
  zip_map begin (t ∷ ts) =
      let rest = zip_map (start_of_next_block begin size) ts in
      if ltb begin cap then f begin t ∷ rest else []

-- `res_reduce(|l, r| if l == r { Ok(l) } else { Err(()) })`: `Err` of nothing, too.
abbrev pub agree : ℕ → List (Option ℕ) → Option ℕ
agree acc [] = some acc
agree acc (none ∷ os) = none
agree acc (some a ∷ os) = let rest = agree acc os in if acc == a then rest else none

abbrev pub res_reduce : List (Option ℕ) → Option ℕ
res_reduce [] = none
res_reduce (none ∷ os) = none
res_reduce (some a ∷ os) = agree a os

-- `Iterator::reduce` with the test on results: two errors agree, too.
abbrev pub same_result : Option ℕ → Option ℕ → Option ℕ
same_result none r = none
same_result (some a) none = none
same_result (some a) (some b) = if a == b then some a else none

abbrev pub reduce : Option ℕ → List (Option ℕ) → Option ℕ
reduce acc [] = acc
reduce acc (o ∷ os) = reduce (same_result acc o) os

module _ (arch : Arch) where
  open arch use {
    absent_pte, block_pte, pte_is_present, pte_is_block, pte_attrs, is_block_allowed, max_level,
    attrs_to_mode, block_from_pte, combine_table_entry_attrs,
  }

  -- The closure of `get_attrs_level`: into a table, or the attributes of a leaf.
  abbrev pub entry_attrs :
      (level : ℕ) → (ℕ → List (Child level) → Option ℕ) → ℕ → Pte level → Option ℕ
  entry_attrs level below begin (leaf pte) = some (pte_attrs pte level)
  entry_attrs level below begin (table page ptes) = below begin ptes

  abbrev pub table_attrs :
      (level : ℕ) → (ℕ → List (Child level) → Option ℕ) → ℕ → ℕ → List (Pte level) → Option ℕ
  table_attrs level below end begin ptes = res_reduce (
      zip_map (entry_attrs level below) (entry_size level) (min end (level_end begin level)) begin
        (drop (index begin level) ptes))

  unfoldable pub get_attrs_level : (level : ℕ) → ℕ → ℕ → List (Pte level) → Option ℕ
  get_attrs_level zero end begin ptes = table_attrs zero (λ b es. none) end begin ptes
  get_attrs_level (suc level) end begin ptes =
      table_attrs (suc level) (get_attrs_level level end) end begin ptes

  unfoldable pub get_attrs : Tables arch → ℕ → ℕ → Option ℕ
  get_attrs tables begin end =
      let root_level = max_level + 1 in
      let first = round_down_to_page begin in
      let last = round_up_to_page end in
      if leb first last && leb last (ptable_addr_space_end arch)
      then res_reduce (
          zip_map (get_attrs_level max_level last) (entry_size root_level) last first
            (drop (index first root_level) tables))
      else none

  unfoldable pub get_mode : Tables arch → ℕ → ℕ → Option Mode
  get_mode tables begin end = elim (get_attrs tables begin end) [
    | none ↦ none
    | some attributes ↦ some (attrs_to_mode attributes)
  ]

  -- The entries of a table, each defragmented, and their results.
  abbrev pub defrag_all :
      {T : Type 0}
      → (T → MPool → T × MPool × Option ℕ)
      → List T
      → MPool
      → List T × MPool × List (Option ℕ)
  defrag_all f [] mpool = ([], mpool, [])
  defrag_all f (t ∷ ts) mpool =
      let (t', mpool', o) = f t mpool in
      let (ts', mpool'', os) = defrag_all f ts mpool' in (t' ∷ ts', mpool'', o ∷ os)

  -- The address of the first entry, which is taken to be a block.
  abbrev pub first_block : (level : ℕ) → List (Pte level) → ℕ
  first_block level [] = 0
  first_block level (leaf pte ∷ ptes) = block_from_pte pte level
  first_block level (table page es ∷ ptes) = 0

  -- After the entries of a table are defragmented, with what their results reduce to.
  abbrev pub merge_table :
      (level : ℕ) → ℕ → List (Pte level) → MPool → Option ℕ → Pte (suc level) × MPool × Option ℕ
  merge_table level page ptes mpool none = (table page ptes, mpool, none)
  merge_table level page ptes mpool (some children_attrs) =
      let own = attrs arch (suc level) (table page ptes) in
      let combined = combine_table_entry_attrs own children_attrs in
      let gone = absent_pte (suc level) in
      if not (pte_is_present children_attrs level)
      then (leaf gone, MPool.free mpool page, some (pte_attrs gone (suc level)))
      else if not (is_block_allowed (suc level))
      then (table page ptes, mpool, none)
      else (
        leaf (block_pte (suc level) (first_block level ptes) combined),
        MPool.free mpool page,
        some combined,
      )

  abbrev pub reduce_results : List (Option ℕ) → Option ℕ
  reduce_results [] = none
  reduce_results (o ∷ os) = reduce o os

  -- `PageTableEntry::defrag`
  unfoldable pub defrag_pte : (level : ℕ) → Pte level → MPool → Pte level × MPool × Option ℕ
  defrag_pte zero (leaf pte) mpool =
      (leaf pte, mpool, if pte_is_block pte zero then some (pte_attrs pte zero) else none)
  defrag_pte zero (table page ptes) mpool = (table page ptes, mpool, none)
  defrag_pte (suc level) (leaf pte) mpool = (
    leaf pte,
    mpool,
    if pte_is_block pte (suc level) then some (pte_attrs pte (suc level)) else none,
  )
  defrag_pte (suc level) (table page ptes) mpool =
      let (ptes', mpool', results) = defrag_all (defrag_pte level) ptes mpool in
      merge_table level page ptes' mpool' (reduce_results results)

  -- `PageTable::defrag`, table by table.
  unfoldable pub defrag : Tables arch → MPool → Tables arch × MPool
  unfolding defrag_pte
  defrag [] mpool = ([], mpool)
  defrag (ptes ∷ tables) mpool =
      let (ptes', mpool', results) = defrag_all (defrag_pte max_level) ptes mpool in
      let (tables', mpool'') = defrag tables mpool' in (ptes' ∷ tables', mpool'')
