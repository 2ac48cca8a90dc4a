-- ===== src/Mm/Root.antt =====
-- `PageTable::map_root` and `identity_update`: what a page table shows after an update.
use native.Mathlib.Nat.{div-mul-le_self, div-lt_iff_lt-mul}
use native.Mathlib.Decide.{dec_lt}
use hafnium_verification.Prelude.{
  ℕ, suc, ◌≡◌, ◌≢◌, sym, ap, subst, ◌∙◌, ◌+◌, ◌-◌, ◌*◌, ◌/◌, ◌%◌, ◌<◌, ◌≤◌, ◌⊎◌, Bool, false, ◌++◌,
  arith, length, get_elem?, word, take, drop, All, length-append, length-take_le, length-drop,
  get_elem?-splice_lt, get_elem?-splice_ge, get_elem?-drop, take-All, drop-All, append-All,
}
use hafnium_verification.Addr.{page_size}
use hafnium_verification.Mode.{Mode}
use hafnium_verification.MPool.{MPool}
use hafnium_verification.Mm.{Arch, entry_size, index, ptable_addr_space_end}
use hafnium_verification.Mm.Map.{Update, Status, done, fault, walk, map_level, map_root, Tables}
use hafnium_verification.Mm.View.{view_table, pick, IsTable, IsIdentity, Shown, Laws, after}
use hafnium_verification.Mm.Levels.{size_pos, size_paged}
use hafnium_verification.Mm.Loop.{LoopOk, walk-WalkOk, block_lt}
use hafnium_verification.Mm.Tables.{map_level-TableOk}

below_size : (a n size : ℕ) → 0 < size → a < n * size → a / size < n
below_size a n size pos h = (div-lt_iff_lt-mul pos).1 h

module _ (arch : Arch) where
  abbrev pub root_size : ℕ
  root_size = entry_size (suc arch.max_level)

  -- What a page table gives to an address.
  abbrev pub shows : Tables arch → ℕ → Shown
  shows tables a =
      pick (λ ptes. view_table arch arch.max_level ptes a)
        (get_elem? tables (index a (arch.max_level + 1)))

  -- The root tables are as many as the architecture says, each is complete, and all that they span
  -- can be addressed.
  abbrev pub IsPageTable : Tables arch → Type 0
  IsPageTable tables =
      (length tables ≡ arch.root_table_count)
      × (arch.root_table_count ≤ 512)
      × (arch.root_table_count * root_size + root_size ≤ word)
      × All (IsTable arch.max_level) tables

  pub space_end_lem :
      (tables : Tables arch)
      → IsPageTable tables
      → ptable_addr_space_end arch ≡ arch.root_table_count * root_size
  space_end_lem tables ok =
      let e : arch.max_level + 1 ≡ suc arch.max_level = omega arith in
      ap (λ (n : ℕ). arch.root_table_count * entry_size n % word) e
      ∙ omega (arith, ok.2, size_pos (suc arch.max_level))

  module _ (visible : ℕ → Bool) (u : Update) where
    pub record RootOk (begin : ℕ) (tables : Tables arch) (r : Tables arch × MPool × Status)
        : Type 0 where
      pub tree : IsPageTable r.0
      pub safe : r.2 ≢ fault
      pub seen :
          (a : ℕ)
          → a < ptable_addr_space_end arch
          → IsIdentity a (shows tables a)
          → (u.commit ≡ false) ⊎ (r.2 ≡ done)
          → shows r.0 a ≡ after visible u begin a (shows tables a)

module _ (arch : Arch) (visible : ℕ → Bool) (u : Update) (tables : Tables arch)
    (ok : IsPageTable arch tables) (inside : u.end ≤ ptable_addr_space_end arch) (begin : ℕ)
    (h : begin < u.end) where
  abbrev size : ℕ
  size = root_size arch

  abbrev start : ℕ
  start = index begin (arch.max_level + 1)

  root_index : (a : ℕ) → a < ptable_addr_space_end arch → index a (arch.max_level + 1) ≡ a / size
  root_index a lt =
      let e : arch.max_level + 1 ≡ suc arch.max_level = omega arith in
      ap (λ (n : ℕ). index a n) e
      ∙ omega (
        arith,
        ok.1,
        below_size a arch.root_table_count size (size_pos (suc arch.max_level))
            (omega (arith, lt, space_end_lem arch tables ok)),
      )

  pub start_le : start ≤ length tables
  start_le = omega (
    arith,
    ok.0,
    root_index begin (omega (arith, h, inside)),
    below_size begin arch.root_table_count size (size_pos (suc arch.max_level))
        (omega (arith, h, inside, space_end_lem arch tables ok)),
  )

  after_before : (a : ℕ) (old : Shown) → a < begin → after visible u begin a old ≡ old
  after_before a old lt = ground arith

  -- The looked-up table lies before the loop's start, or is the loop's.
  splice-RootOk :
      (r : Tables arch × MPool × Status)
      → LoopOk visible u
          (IsTable arch.max_level)
          (view_table arch arch.max_level)
          size
          u.end
          begin
          (drop start tables)
          r
      → RootOk arch visible u begin tables (take start tables ++ r.0, r.1, r.2)
  splice-RootOk r w = record {
    tree = (
      omega (
        arith,
        ok.0,
        w.len,
        length-append (take start tables) r.0,
        length-take_le start tables start_le,
        length-drop start tables,
        start_le,
      ),
      ok.1,
      ok.2,
      append-All (IsTable arch.max_level) (take start tables) r.0
          (take-All (IsTable arch.max_level) start tables ok.3) w.trees,
    );
    safe = w.safe;
    seen = λ a lt was how.
        let n = index a (arch.max_level + 1) in
        let at_a = root_index a lt in
        let at_begin = root_index begin (omega (arith, h, inside)) in
        elim (dec_lt n start) [
          | yes before ↦
              ap (pick (λ t. view_table arch arch.max_level t a))
                (get_elem?-splice_lt start n tables r.0 before start_le)
              ∙ sym (
                  after_before a (shows arch tables a) (
                    omega (
                      arith,
                      block_lt (begin / size) a size (size_pos (suc arch.max_level))
                          (omega (arith, at_a, at_begin, before)),
                      div-mul-le_self begin size,
                    )))
          | no later ↦
              let e : a / size - begin / size ≡ n - start = omega (arith, at_a, at_begin) in
              ap (pick (λ t. view_table arch arch.max_level t a)) (
                get_elem?-splice_ge start n tables r.0 (omega arith) start_le
                ∙ ap (get_elem? r.0) (sym e))
              ∙ w.seen a (omega (arith, at_a, at_begin))
                  (omega (
                    arith,
                    at_a,
                    at_begin,
                    ok.0,
                    length-drop start tables,
                    below_size a arch.root_table_count size (size_pos (suc arch.max_level))
                        (omega (arith, lt, space_end_lem arch tables ok)),
                  ))
                  (λ p. p)
                  (subst (λ o. IsIdentity a (pick (λ t. view_table arch arch.max_level t a) o))
                    (sym (
                      ap (get_elem? (drop start tables)) e
                      ∙ get_elem?-drop start n tables (omega arith)))
                    was)
                  how
              ∙ ap (λ o. after visible u begin a (pick (λ t. view_table arch arch.max_level t a) o))
                  (ap (get_elem? (drop start tables)) e
                    ∙ get_elem?-drop start n tables (omega arith))
        ];
  }

module _ (arch : Arch) (limit : ℕ) (visible : ℕ → Bool) (laws : Laws arch limit visible) where
  module _ (u : Update) (mode : Mode) (is_mode : u.attrs ≡ arch.mode_to_attrs mode)
      (paged : u.end % page_size ≡ 0) (limited : u.end ≤ limit)
      (inside : u.end ≤ ptable_addr_space_end arch) where
    -- `map_root` does what its `Update` says to the whole page table, for the addresses that are mapped
    -- to themselves or to nothing.
    pub map_root-RootOk :
        (begin : ℕ) (tables : Tables arch) (m : MPool)
        → IsPageTable arch tables
        → begin % page_size ≡ 0
        → begin < u.end
        → RootOk arch visible u begin tables (map_root arch begin u tables m)
    unfolding map_root
    map_root-RootOk begin tables m ok aligned h =
        let e : arch.max_level + 1 ≡ suc arch.max_level = omega arith in
        let fits = space_end_lem arch tables ok in
        splice-RootOk arch visible u tables ok inside begin h _ (
          subst
            (λ n.
              LoopOk visible u (IsTable arch.max_level) (view_table arch arch.max_level)
                (root_size arch) u.end begin (drop (index begin (arch.max_level + 1)) tables)
                (walk (λ b t m. map_level arch arch.max_level u b t m) (entry_size n) u.end begin
                  (drop (index begin (arch.max_level + 1)) tables) m))
            (sym e)
            (walk-WalkOk visible u (IsTable arch.max_level) (view_table arch arch.max_level)
              (root_size arch) (λ b t m. map_level arch arch.max_level u b t m) u.end
              (size_pos (suc arch.max_level)) (size_paged (suc arch.max_level)) (omega arith)
              (omega (arith, ok.2, inside, fits))
              (λ b t m p q tree.
                let k =
                  map_level-TableOk arch limit visible laws u mode is_mode paged limited
                    arch.max_level b t m tree (omega (arith, ok.2, inside, fits)) p q in
                record { tree = k.tree; safe = k.safe; seen = k.seen })
              begin (drop (index begin (arch.max_level + 1)) tables) m aligned
              (drop-All (IsTable arch.max_level) (index begin (arch.max_level + 1)) tables ok.3)))
