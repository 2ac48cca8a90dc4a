-- ===== src/Mm/Steps.antt =====
-- The ways through the body of the loop of `map_level`, each as an equation.
use hafnium_verification.Prelude.{
  ℕ, ◌≡◌, refl, ap, ◌⊎◌, inl, inr, true, false, none, some, List, Option-cases, arith, suc, of_some,
  Bool-cases,
}
use hafnium_verification.MPool.{MPool}
use hafnium_verification.MPool
use hafnium_verification.Mm.{Arch, leaf, table, Pte, Child}
use hafnium_verification.Mm.Map.{
  Update, done, no_memory, map_entry, Below, is_settled, is_whole, populate_table, close_table,
  replace, new_pte, fresh_ptes,
}
use hafnium_verification.Mm.Entries.{replace-new, length-tabulate, tabulate-All, leaf-IsTree}
use hafnium_verification.Mm.View.{IsTree, IsTable}

module _ (arch : Arch) (level : ℕ) where
  -- If a table is made, it is the entry.
  pub populate-table :
      (t : Pte level) (m : MPool)
      → (populate_table arch level t m ≡ none)
        ⊎ ((page : ℕ) × (ptes : List (Child level)) × (m' : MPool) × (populate_table arch level t m
              ≡ some (table page ptes, m')))
  unfolding populate_table
  populate-table (table page ptes) m = inr (page, ptes, m, refl)
  populate-table (leaf pte) m = elim (Option-cases (MPool.alloc m)) [
    | inl e ↦ inl (rw (e, populate_table) refl)
    | inr (r, e) ↦
        let fresh = fresh_ptes arch level pte in
        let made = replace arch level (leaf pte) (table r.0 fresh) r.1 in
        inr (
          r.0,
          fresh,
          made.1,
          rw (e, populate_table)
              (ap (λ p. some (p, made.1))
                (replace-new arch level (leaf pte) (table r.0 fresh) r.1)),
        )
  ]

module _ (arch : Arch) (level : ℕ) (u : Update) (below : Below level) (begin : ℕ) (t : Pte level)
    (m : MPool) where
  pub map_entry_settled :
      is_settled arch level u t ≡ true → map_entry arch level u below begin t m ≡ (t, m, done)
  unfolding map_entry
  map_entry_settled s = rw (s, map_entry) refl

  pub map_entry_whole :
      is_settled arch level u t ≡ false
      → is_whole arch level u begin ≡ true
      → u.commit ≡ true
      → map_entry arch level u below begin t m ≡ (
        (replace arch level t (new_pte arch level u begin) m).0,
        (replace arch level t (new_pte arch level u begin) m).1,
        done,
      )
  unfolding map_entry
  map_entry_whole s whole c = rw (s, whole, c, map_entry) refl

  pub map_entry_keep :
      is_settled arch level u t ≡ false
      → is_whole arch level u begin ≡ true
      → u.commit ≡ false
      → map_entry arch level u below begin t m ≡ (t, m, done)
  unfolding map_entry
  map_entry_keep s whole c = rw (s, whole, c, map_entry) refl

  pub map_entry-none :
      is_settled arch level u t ≡ false
      → is_whole arch level u begin ≡ false
      → populate_table arch level t m ≡ none
      → map_entry arch level u below begin t m ≡ (t, m, no_memory)
  unfolding map_entry
  map_entry-none s whole e = rw (s, whole, e, map_entry) refl

  pub map_entry_below :
      (page : ℕ) (ptes : List (Child level)) (m' : MPool)
      → is_settled arch level u t ≡ false
      → is_whole arch level u begin ≡ false
      → populate_table arch level t m ≡ some (table page ptes, m')
      → map_entry arch level u below begin t m ≡ close_table arch level u page (below begin ptes m')
  unfolding map_entry
  map_entry_below page ptes m' s whole e = rw (s, whole, e, map_entry) refl

module _ (arch : Arch) (level : ℕ) where
  pub fresh-IsTable : (pte : ℕ) → IsTable level (fresh_ptes arch (suc level) pte)
  unfolding fresh_ptes
  fresh-IsTable pte = elim (Bool-cases (arch.pte_is_block pte (suc level))) [
    | inl e ↦
        rw e
          (length-tabulate 0 512 _, tabulate-All (IsTree level) 0 512 _ (λ i. leaf-IsTree level _))
    | inr e ↦
        rw e
          (length-tabulate 0 512 _, tabulate-All (IsTree level) 0 512 _ (λ i. leaf-IsTree level _))
  ]

  pub populate_table-IsTable :
      (t : Pte (suc level)) (m : MPool) (page : ℕ) (ptes : List (Pte level)) (m' : MPool)
      → IsTree (suc level) t
      → populate_table arch (suc level) t m ≡ some (table page ptes, m')
      → IsTable level ptes
  unfolding populate_table
  populate_table-IsTable (table page' ptes') m page ptes m' tree h =
      of_some (λ p. IsTree (suc level) p.0) h tree
  populate_table-IsTable (leaf pte) m page ptes m' tree h = elim (Option-cases (MPool.alloc m)) [
    | inl e ↦ absurd (ground (arith, e, h))
    | inr (r, e) ↦
        of_some (λ p. IsTree (suc level) p.0) (rw (e, populate_table) at h)
          (rw
            (replace-new arch (suc level) (leaf pte) (table r.0 (fresh_ptes arch (suc level) pte))
              r.1)
            (fresh-IsTable pte))
  ]
