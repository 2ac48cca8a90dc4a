-- ===== src/Mm/Update.antt =====
-- `map_level`: each entry and each table comes to show what the update asks for, to the addresses that
-- it maps to themselves or to nothing.
use hafnium_verification.Prelude.{
  ℕ, zero, suc, ◌≡◌, refl, sym, ap, ap₂, ◌∙◌, ◌/◌, ◌%◌, ◌<◌, ◌≤◌, ◌⊎◌, inl, inr, Bool, true, false,
  none, some, List, arith, word, Bool-cases, Option-cases, sub_usize, ◌&&◌, ◌||◌, ◌==◌, leb,
}
use hafnium_verification.Addr.{page_size}
use hafnium_verification.Mode.{Mode}
use hafnium_verification.MPool.{MPool}
use hafnium_verification.MPool
use hafnium_verification.Mm.{Arch, leaf, table, Pte, entry_size, index}
use hafnium_verification.Mm.Map.{
  Update, Status, done, no_memory, fault, replace, fresh_ptes, populate_table, is_empty, is_settled,
  is_whole, new_pte, close_table,
}
use hafnium_verification.Mm.View.{
  view, view_table, seen, IsTree, IsTable, IsIdentity, Shown, Laws, target,
}
use hafnium_verification.Mm.Levels.{TableOk, EntryOk}
use hafnium_verification.Mm.Entries.{
  length-tabulate, tabulate-All, leaf-IsTree, view-leaf, is_empty-pick, replace-new, absent_seen,
  fresh_seen,
}

module _ (arch : Arch) (limit : ℕ) (visible : ℕ → Bool) (laws : Laws arch limit visible)
    (u : Update) (mode : Mode) (is_mode : u.attrs ≡ arch.mode_to_attrs mode)
    (paged : u.end % page_size ≡ 0) (limited : u.end ≤ limit) where
  abbrev wanted : ℕ → Shown
  wanted = target visible u

  settled_leaf :
      (level pte a : ℕ)
      → is_settled arch level u (leaf pte) ≡ true
      → IsIdentity a (seen arch level pte a)
      → seen arch level pte a ≡ wanted a
  settled_leaf level pte a h same =
      let v = laws.present_visible level pte in
      elim (Bool-cases u.unmap) [
        | inl g ↦
            let hidden : arch.pte_is_present pte level ≡ false = ground (arith, h, g) in
            rw (hidden, g) refl
        | inr g ↦
            let block : arch.pte_is_block pte level ≡ true = ground (arith, h, g) in
            let right : arch.pte_attrs pte level ≡ u.attrs = ground (arith, h, g) in
            elim (Bool-cases (arch.pte_is_present pte level)) [
              | inr e ↦
                  let w : visible u.attrs ≡ false = sym (ap visible right) ∙ sym v ∙ e in
                  rw (e, g, w) refl
              | inl e ↦
                  let w : visible u.attrs ≡ true = sym (ap visible right) ∙ sym v ∙ e in
                  let itself = rw (e, block) at same in
                  rw (e, block, g, w) (ap₂ (λ x y. some (x, y)) itself right)
            ]
      ]

  pub settled_target :
      (level : ℕ) (t : Pte level) (a : ℕ)
      → is_settled arch level u t ≡ true
      → IsIdentity a (view arch level t a)
      → view arch level t a ≡ wanted a
  settled_target zero (leaf pte) a h same = settled_leaf zero pte a h same
  settled_target zero (table page ptes) a h same = ground (arith, h)
  settled_target (suc level) (leaf pte) a h same = settled_leaf (suc level) pte a h same
  settled_target (suc level) (table page ptes) a h same = ground (arith, h)

  pub new_target :
      (level begin a : ℕ)
      → begin % entry_size level ≡ 0
      → begin < u.end
      → a / entry_size level ≡ begin / entry_size level
      → (u.unmap || arch.is_block_allowed level) ≡ true
      → view arch level (new_pte arch level u begin) a ≡ wanted a
  new_target level begin a aligned h same allowed = elim (Bool-cases u.unmap) [
    | inl e ↦ rw e (view-leaf arch level _ a ∙ absent_seen arch limit visible laws level a)
    | inr e ↦
        rw (e, is_mode)
          (view-leaf arch level _ a
            ∙ laws.block_shows level begin a mode (omega arith) aligned same
                (ground (arith, allowed, e)))
  ]

  pub new_pte-IsTree : (level begin : ℕ) → IsTree level (new_pte arch level u begin)
  new_pte-IsTree level begin = elim (Bool-cases u.unmap) [
    | inl e ↦ rw e (leaf-IsTree level _)
    | inr e ↦ rw e (leaf-IsTree level _)
  ]

  -- At level 0 an entry is never split.
  pub page_whole :
      (begin : ℕ)
      → begin % page_size ≡ 0
      → begin < u.end
      → u.end < word
      → is_whole arch zero u begin ≡ true
  page_whole begin aligned h w =
      let e : leb 4096 (sub_usize u.end begin) ≡ true = ground (arith, paged) in
      let f : (begin % 4096 == 0) ≡ true = ground arith in
      rw (e, f, laws.pages_allowed) (ground arith)

  fresh-IsTable : (level pte : ℕ) → IsTable level (fresh_ptes arch (suc level) pte)
  unfolding fresh_ptes
  fresh-IsTable level pte = elim (Bool-cases (arch.pte_is_block pte (suc level))) [
    | inl e ↦
        rw e
          (length-tabulate 0 512 _, tabulate-All (IsTree level) 0 512 _ (λ i. leaf-IsTree level _))
    | inr e ↦
        rw e
          (length-tabulate 0 512 _, tabulate-All (IsTree level) 0 512 _ (λ i. leaf-IsTree level _))
  ]

  pub populate_keeps :
      (level : ℕ) (t : Pte (suc level)) (m : MPool)
      → IsTree (suc level) t
      → (populate_table arch (suc level) t m ≡ none)
        ⊎ ((page : ℕ) × (ptes : List (Pte level)) × (m' : MPool) × (populate_table arch
                (suc level)
                t
                m
              ≡ some (table page ptes, m'))
            × IsTable level ptes
            × ((a : ℕ)
                → IsIdentity a (view arch (suc level) t a)
                → view_table arch level ptes a ≡ view arch (suc level) t a))
  unfolding populate_table
  populate_keeps level (table page ptes) m tree = inr (page, ptes, m, refl, tree, λ a same. refl)
  populate_keeps level (leaf pte) m tree = elim (Option-cases (MPool.alloc m)) [
    | inl e ↦ inl (rw (e, populate_table) refl)
    | inr (r, e) ↦
        let fresh = fresh_ptes arch (suc level) pte in
        let made = replace arch (suc level) (leaf pte) (table r.0 fresh) r.1 in
        inr (
          r.0,
          fresh,
          made.1,
          rw (e, populate_table)
              (ap (λ p. some (p, made.1))
                (replace-new arch (suc level) (leaf pte) (table r.0 fresh) r.1)),
          fresh-IsTable level pte,
          λ a same. fresh_seen arch limit visible laws level pte a same,
        )
  ]

  pub close_table-EntryOk :
      (level begin page : ℕ) (ptes : List (Pte level)) (r : List (Pte level) × MPool × Status)
      → TableOk arch visible u level begin ptes r
      → EntryOk arch visible u
          (suc level)
          begin
          (table page ptes)
          (close_table arch (suc level) u page r)
  close_table-EntryOk level begin page ptes (es, m, done) k =
      elim (Bool-cases (u.commit && u.unmap && is_empty arch level es)) [
        | inr e ↦ rw e (record { tree = k.tree; safe = k.safe; seen = k.seen })
        | inl e ↦
            rw
              (
                e,
                replace-new arch (suc level) (table page es) (leaf (arch.absent_pte (suc level))) m,
              )
              (record {
                tree = tt;
                safe = λ q. cc;
                seen = λ a same was how.
                    absent_seen arch limit visible laws (suc level) a
                    ∙ sym (is_empty-pick arch level es (index a level) a (ground (arith, e)))
                    ∙ k.seen a same was how;
              })
      ]
  close_table-EntryOk level begin page ptes (es, m, no_memory) k = record {
    tree = k.tree;
    safe = k.safe;
    seen = k.seen;
  }
  close_table-EntryOk level begin page ptes (es, m, fault) k = record {
    tree = k.tree;
    safe = k.safe;
    seen = k.seen;
  }
