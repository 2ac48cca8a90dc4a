-- ===== src/Mm/Map.antt =====
-- hfo2/src/mm.rs: `replace`, `populate_table`, `map_level`, `map_root` and `identity_update`.
-- A mutable table is passed in and returned, with the pool. An early return leaves the entries
-- that the loop has passed as they are. TLB maintenance has no state here.
use hafnium_verification.Prelude.{
  ℕ, zero, suc, ◌+◌, ◌*◌, ◌%◌, min, Bool, true, false, not, ◌&&◌, ◌||◌, Option, none, some, List,
  [], ◌∷◌, ◌++◌, add_usize, sub_usize, if◌then◌else◌, ltb, leb, ◌==◌, take, drop,
}
use hafnium_verification.Mode.{Mode, mode_unowned, mode_invalid, mode_shared, ◌∪◌}
use hafnium_verification.MPool.{MPool}
use hafnium_verification.MPool
use hafnium_verification.Mm.{
  Arch, Entry, leaf, table, Child, Pte, round_up_to_page, entry_size, start_of_next_block,
  level_end, index, pte_per_page, ptable_addr_space_end, is_present, is_valid, is_block, attrs,
}

-- How a call ends: `Ok`, `Err` for want of memory, or the `level - 1` of level 0, a panic.
pub data Status : Type 0 where
  done : Status
  no_memory : Status
  fault : Status

-- `for (t, begin) in ts.zip(BlockIter::new(begin, cap, size)) { step }`, with its `?`.
module _ {T S : Type 0} (step : ℕ → T → S → T × S × Status) (size cap : ℕ) where
  unfoldable pub walk : ℕ → List T → S → List T × S × Status
  walk begin [] s = ([], s, done)
  walk begin (t ∷ ts) s = elim (ltb begin cap) [
    | false ↦ (t ∷ ts, s, done)
    | true ↦
        let (t', s', status) = step begin t s in
        let (ts', s'', status') = walk (start_of_next_block begin size) ts s' in
        elim status [
          | done ↦ (t' ∷ ts', s'', status')
          | no_memory ↦ (t' ∷ ts, s', no_memory)
          | fault ↦ (t' ∷ ts, s', fault)
        ]
  ]

-- `self[start..]`, updated in place.
module _ {T S : Type 0} (f : List T → S → List T × S × Status) where
  abbrev pub on_tail : ℕ → List T → S → List T × S × Status
  on_tail start ts s =
      let (ts', s', status) = f (drop start ts) s in (take start ts ++ ts', s', status)

-- The entries of a new table: `pte_init` at 0, 1, …
unfoldable pub tabulate {ℓ} : {A : Type ℓ} → ℕ → ℕ → (ℕ → A) → List A
tabulate i zero f = []
tabulate i (suc n) f = f i ∷ tabulate (i + 1) n f

-- `first?; second`
abbrev pub and_then {ℓ} :
    {A : Type ℓ} → A × MPool × Status → A × MPool × Status → A × MPool × Status
and_then first second = elim first.2 [ done ↦ second | no_memory ↦ first | fault ↦ first ]

-- What `map_level` passes down as it is.
pub record Update : Type 0 where
  pub end : ℕ
  pub attrs : ℕ
  pub commit : Bool
  pub unmap : Bool

-- `RawPageTable::drop`
abbrev pub drop_all {ℓ} : {A : Type ℓ} → (A → MPool → MPool) → List A → MPool → MPool
drop_all f [] mpool = mpool
drop_all f (e ∷ es) mpool = drop_all f es (f e mpool)

-- `PageTableEntry::drop` and `PageTableNode::drop`: the tables below an entry go back to the pool.
unfoldable pub drop_pte : (level : ℕ) → Pte level → MPool → MPool
drop_pte zero (leaf pte) mpool = mpool
drop_pte zero (table page ptes) mpool = MPool.free mpool page
drop_pte (suc level) (leaf pte) mpool = mpool
drop_pte (suc level) (table page ptes) mpool =
    MPool.free (drop_all (drop_pte level) ptes mpool) page

-- How `map_level` goes on below: the entries of a table of the next level.
abbrev pub Below : ℕ → Type 0
Below level = ℕ → List (Child level) → MPool → List (Child level) × MPool × Status

module _ (arch : Arch) where
  open arch use {
    absent_pte, block_pte, pte_is_block, pte_attrs, is_block_allowed, max_level, clear_pa,
    mode_to_attrs,
  }

  -- `replace`: if both entries are valid, the old one is overwritten by an absent entry before it is
  -- taken out and dropped, so what is dropped is the absent entry.
  unfoldable pub replace : (level : ℕ) → Pte level → Pte level → MPool → Pte level × MPool
  replace level old new mpool =
      if is_valid arch level old && is_valid arch level new
      then (new, drop_pte level (leaf (absent_pte level)) mpool)
      else (new, drop_pte level old mpool)

  -- The entries of the table that takes the place of a leaf.
  unfoldable pub fresh_ptes : (level : ℕ) → ℕ → List (Child level)
  fresh_ptes zero pte = []
  fresh_ptes (suc level) pte =
      if pte_is_block pte (suc level)
      then tabulate 0 pte_per_page (λ i.
        leaf (block_pte level (add_usize pte (i * entry_size level)) (pte_attrs pte (suc level))))
      else tabulate 0 pte_per_page λ i. leaf (absent_pte level)

  unfoldable pub populate_table : (level : ℕ) → Pte level → MPool → Option (Pte level × MPool)
  unfolding replace fresh_ptes
  populate_table level (table page ptes) mpool = some (table page ptes, mpool)
  populate_table level (leaf pte) mpool = elim (MPool.alloc mpool) [
    | none ↦ none
    | some (page, rest) ↦ some (replace level (leaf pte) (table page (fresh_ptes level pte)) rest)
  ]

  -- `RawPageTable::is_empty`
  abbrev pub is_empty : {T : Type 0} → ℕ → List (Entry T) → Bool
  is_empty level [] = true
  is_empty level (e ∷ es) = not (is_present arch level e) && is_empty level es

  -- The entry is mapped with the right attributes, or absent when unmapping.
  abbrev pub is_settled : (level : ℕ) → Update → Pte level → Bool
  is_settled level u pte =
      (u.unmap && not (is_present arch level pte))
      || (not u.unmap && is_block arch level pte && attrs arch level pte == u.attrs)

  -- The region holds the entire entry, which may be a block.
  abbrev pub is_whole : ℕ → Update → ℕ → Bool
  is_whole level u begin =
      leb (entry_size level) (sub_usize u.end begin)
      && (u.unmap || is_block_allowed level)
      && begin % entry_size level == 0

  abbrev pub new_pte : (level : ℕ) → Update → ℕ → Pte level
  new_pte level u begin =
      if u.unmap then leaf (absent_pte level) else leaf (block_pte level begin u.attrs)

  -- After the recursive call: a subtable that unmapping has emptied is replaced.
  abbrev pub close_table :
      (level : ℕ) → Update → ℕ → List (Child level) × MPool × Status → Pte level × MPool × Status
  close_table zero u page r = (table page r.0, r.1, r.2)
  close_table (suc level) u page r = elim r.2 [
    | done ↦
        let q = replace (suc level) (table page r.0) (leaf (absent_pte (suc level))) r.1 in
        if u.commit && u.unmap && is_empty level r.0
        then (q.0, q.1, done)
        else (table page r.0, r.1, done)
    | no_memory ↦ (table page r.0, r.1, no_memory)
    | fault ↦ (table page r.0, r.1, fault)
  ]

  -- Goes on below the table that an entry has been made into.
  abbrev pub enter_table :
      (level : ℕ) → Update → Below level → ℕ → Pte level → MPool → Pte level × MPool × Status
  enter_table level u below begin (leaf pte) mpool = (leaf pte, mpool, fault)
  enter_table level u below begin (table page ptes) mpool =
      close_table level u page (below begin ptes mpool)

  -- The body of the loop of `map_level`.
  unfoldable pub map_entry :
      (level : ℕ) → Update → Below level → ℕ → Pte level → MPool → Pte level × MPool × Status
  unfolding replace populate_table
  map_entry level u below begin pte mpool = elim (is_settled level u pte) [
    | true ↦ (pte, mpool, done)
    | false ↦ elim (is_whole level u begin) [
      | true ↦ elim u.commit [
        | true ↦
            let (pte', mpool') = replace level pte (new_pte level u begin) mpool in
            (pte', mpool', done)
        | false ↦ (pte, mpool, done)
      ]
      | false ↦ elim (populate_table level pte mpool) [
        | none ↦ (pte, mpool, no_memory)
        | some (pte', mpool') ↦ enter_table level u below begin pte' mpool'
      ]
    ]
  ]

  abbrev pub map_table : (level : ℕ) → Update → Below level → Below (suc level)
  map_table level u below begin ptes mpool =
      on_tail
        (walk (map_entry level u below) (entry_size level) (min u.end (level_end begin level))
          begin)
        (index begin level) ptes mpool

  -- `RawPageTable::map_level`
  unfoldable pub map_level : (level : ℕ) → Update → Below (suc level)
  unfolding map_entry walk
  map_level zero u begin ptes mpool = map_table zero u (λ b es m. (es, m, fault)) begin ptes mpool
  map_level (suc level) u begin ptes mpool =
      map_table (suc level) u (map_level level u) begin ptes mpool

  -- The root tables of a `PageTable`.
  abbrev pub Tables : Type 0
  Tables = List (List (Pte max_level))

  -- `PageTable::map_root`; `root_level` is `max_level + 1`.
  unfoldable pub map_root : ℕ → Update → Tables → MPool → Tables × MPool × Status
  unfolding map_level walk
  map_root begin u tables mpool =
      let root_level = max_level + 1 in
      on_tail (walk (λ b t m. map_level max_level u b t m) (entry_size root_level) u.end begin)
        (index begin root_level) tables mpool

  -- `identity_update`: first without `COMMIT`, then with it.
  unfoldable pub identity_update : ℕ → ℕ → ℕ → Bool → Tables → MPool → Tables × MPool × Status
  identity_update begin end attributes unmap tables mpool =
      let u : Update = record {
        end = min (round_up_to_page end) (ptable_addr_space_end arch);
        attrs = attributes;
        commit = false;
        unmap = unmap;
      } in
      let first = map_root (clear_pa begin) u tables mpool in
      and_then first (map_root (clear_pa begin) (record u { commit = true }) first.0 first.1)

  unfoldable pub identity_map : ℕ → ℕ → Mode → Tables → MPool → Tables × MPool × Status
  identity_map begin end mode tables mpool =
      identity_update begin end (mode_to_attrs mode) false tables mpool

  unfoldable pub unmap : ℕ → ℕ → Tables → MPool → Tables × MPool × Status
  unmap begin end tables mpool =
      identity_update begin end (mode_to_attrs (mode_unowned ∪ mode_invalid ∪ mode_shared)) true
        tables mpool
