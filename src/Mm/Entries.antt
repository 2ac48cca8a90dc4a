-- ===== src/Mm/Entries.antt =====
-- What `map_level` does to one entry: where it settles, replaces, splits or closes it.
use hafnium_verification.Prelude.{
  ℕ, zero, suc, ◌≡◌, refl, ap, ◌∙◌, ◌+◌, ◌*◌, ◌<◌, add_usize, inl, inr, Bool, true, false, none,
  some, List, [], ◌∷◌, arith, length, get_elem?, All, Bool-cases,
}
use hafnium_verification.MPool.{MPool}
use hafnium_verification.Mm.{Arch, leaf, table, Pte, index, entry_size, is_present}
use hafnium_verification.Mm.Map.{tabulate, replace, fresh_ptes, is_empty}
use hafnium_verification.Mm.View.{view, view_table, seen, pick, IsTree, IsIdentity, Laws}

module _ {ℓ} {A : Type ℓ} where
  pub length-tabulate : (i n : ℕ) (f : ℕ → A) → length (tabulate i n f) ≡ n
  unfolding tabulate
  length-tabulate i zero f = refl
  length-tabulate i (suc n) f = ap suc (length-tabulate (i + 1) n f)

  pub get_elem?-tabulate :
      (i n k : ℕ) (f : ℕ → A) → k < n → get_elem? (tabulate i n f) k ≡ some (f (i + k))
  unfolding tabulate
  get_elem?-tabulate i zero k f h = elim h [ ]
  get_elem?-tabulate i (suc n) zero f h =
      ap (λ j. some (f j)) (let e : i ≡ i + 0 = omega arith in e)
  get_elem?-tabulate i (suc n) (suc k) f h =
      get_elem?-tabulate (i + 1) n k f (omega arith)
      ∙ ap (λ j. some (f j)) (let e : i + 1 + k ≡ i + suc k = omega arith in e)

  pub tabulate-All {κ} :
      (P : A → Type κ) (i n : ℕ) (f : ℕ → A) → ((j : ℕ) → P (f j)) → All P (tabulate i n f)
  unfolding tabulate
  tabulate-All P i zero f h = tt
  tabulate-All P i (suc n) f h = (h i, tabulate-All P (i + 1) n f h)

pub leaf-IsTree : (level pte : ℕ) → IsTree level (leaf pte)
leaf-IsTree zero pte = tt
leaf-IsTree (suc level) pte = tt

module _ (arch : Arch) where
  pub view-leaf : (level pte a : ℕ) → view arch level (leaf pte) a ≡ seen arch level pte a
  view-leaf zero pte a = refl
  view-leaf (suc level) pte a = refl

  pub absent_view :
      (level : ℕ) (t : Pte level) (a : ℕ)
      → is_present arch level t ≡ false
      → view arch level t a ≡ none
  absent_view zero (leaf pte) a h = rw h
  absent_view zero (table page ptes) a h = refl
  absent_view (suc level) (leaf pte) a h = rw h
  absent_view (suc level) (table page ptes) a h = cc

  pub is_empty-pick :
      (level : ℕ) (ts : List (Pte level)) (n a : ℕ)
      → is_empty arch level ts ≡ true
      → pick (λ t. view arch level t a) (get_elem? ts n) ≡ none
  is_empty-pick level [] n a h = refl
  is_empty-pick level (t ∷ ts) zero a h = absent_view level t a (ground (arith, h))
  is_empty-pick level (t ∷ ts) (suc n) a h = is_empty-pick level ts n a (ground (arith, h))

  pub replace-new :
      (level : ℕ) (old new : Pte level) (m : MPool) → (replace arch level old new m).0 ≡ new
  unfolding replace
  replace-new level old new m = ground arith

module _ (arch : Arch) (limit : ℕ) (visible : ℕ → Bool) (laws : Laws arch limit visible) where
  pub absent_seen : (level a : ℕ) → seen arch level (arch.absent_pte level) a ≡ none
  absent_seen level a = rw (laws.absent_hidden level)

  -- The table that takes the place of a leaf shows what the leaf showed to an address that it maps to
  -- itself or to nothing.
  pub fresh_seen :
      (level pte a : ℕ)
      → IsIdentity a (seen arch (suc level) pte a)
      → view_table arch level (fresh_ptes arch (suc level) pte) a ≡ seen arch (suc level) pte a
  unfolding fresh_ptes
  fresh_seen level pte a same = elim (Bool-cases (arch.pte_is_block pte (suc level))) [
    | inl p ↦
        let zeroth : seen arch level
              (arch.block_pte level (add_usize pte ((0 + index a level) * entry_size level))
                (arch.pte_attrs pte (suc level)))
              a
            ≡ seen arch level
                (arch.block_pte level (add_usize pte (index a level * entry_size level))
                  (arch.pte_attrs pte (suc level)))
                a =
          ap
            (λ (n : ℕ).
              seen arch level
                (arch.block_pte level (add_usize pte (n * entry_size level))
                  (arch.pte_attrs pte (suc level)))
                a)
            (let z : 0 + index a level ≡ index a level = omega arith in z) in
        let split = rw p at (laws.split_shows level pte a p same) in
        rw p (
          ap (pick (λ t. view arch level t a))
            (get_elem?-tabulate 0 512 (index a level) _ (omega arith))
          ∙ view-leaf arch level _ a
          ∙ zeroth
          ∙ split)
    | inr n ↦ rw n (
        ap (pick (λ t. view arch level t a))
          (get_elem?-tabulate 0 512 (index a level) _ (omega arith))
        ∙ view-leaf arch level _ a
        ∙ absent_seen level a
        ∙ ground (arith, n))
  ]
