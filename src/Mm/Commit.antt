-- ===== src/Mm/Commit.antt =====
-- The pass that commits is done in tables that are ready: an update is all or nothing.
use hafnium_verification.Prelude.{
  ℕ, zero, suc, ◌+◌, ◌≡◌, refl, ap, ◌∙◌, ◌≤◌, ◌<◌, ◌⊎◌, inl, inr, min, Bool, true, false, List,
  arith, drop, Bool-cases, drop-All,
}
use hafnium_verification.MPool.{MPool}
use hafnium_verification.Mm.{Arch, leaf, table, Pte, entry_size, level_end, index}
use hafnium_verification.Mm.Map.{
  Update, Status, done, no_memory, fault, walk, map_entry, map_level, Below, is_settled, is_whole,
  populate_table, close_table,
}
use hafnium_verification.Mm.View.{IsTree, IsTable}
use hafnium_verification.Mm.Steps.{map_entry_settled, map_entry_whole, map_entry_below}
use hafnium_verification.Mm.Ready.{
  Ready, ReadyTable, Visited, Visited-walk, walk-Visited, drop-splice, memory_done, fault_done,
  prepare-ReadyTable,
}
use hafnium_verification.Mm.Map.{Tables, map_root}
use hafnium_verification.Mm.Root.{IsPageTable, start_le}
use hafnium_verification.Mm.{ptable_addr_space_end}

module _ (arch : Arch) (u : Update) (committing : u.commit ≡ true) where
  close_done :
      (level page : ℕ) (r : List (Pte level) × MPool × Status)
      → r.2 ≡ done
      → (close_table arch (suc level) u page r).2 ≡ done
  close_done level page (es, m, done) e = ground arith
  close_done level page (es, m, no_memory) e = absurd (memory_done e)
  close_done level page (es, m, fault) e = absurd (fault_done e)

  in_place_done :
      (level begin : ℕ) (below : Below level) (t : Pte level) (m : MPool)
      → (is_settled arch level u t ≡ true) ⊎ (is_whole arch level u begin ≡ true)
      → (map_entry arch level u below begin t m).2 ≡ done
  in_place_done level begin below t m h = elim (Bool-cases (is_settled arch level u t)) [
    | inl s ↦ ap (λ r. r.2) (map_entry_settled arch level u below begin t m s)
    | inr s ↦
        let whole : is_whole arch level u begin ≡ true = elim h [ inl e ↦ absurd cc | inr e ↦ e ] in
        ap (λ r. r.2) (map_entry_whole arch level u below begin t m s whole committing)
  ]

  commit_entry :
      (level begin : ℕ) (below : Below (suc level)) (t : Pte (suc level)) (m : MPool)
      → ((ptes : List (Pte level)) (m : MPool)
          → ReadyTable arch u level begin ptes
          → (below begin ptes m).2 ≡ done)
      → Ready arch u (suc level) begin t
      → (map_entry arch (suc level) u below begin t m).2 ≡ done
  unfolding populate_table
  commit_entry level begin below (leaf pte) m goes h =
      in_place_done (suc level) begin below (leaf pte) m h
  commit_entry level begin below (table page ptes) m goes h =
      elim (Bool-cases (is_whole arch (suc level) u begin)) [
        | inl whole ↦ in_place_done (suc level) begin below (table page ptes) m (inr whole)
        | inr whole ↦ elim h [
          | inl e ↦ absurd cc
          | inr v ↦
              ap (λ r. r.2)
                (map_entry_below arch (suc level) u below begin (table page ptes) m page ptes m
                  (ground arith) whole refl)
              ∙ close_done level page (below begin ptes m) (goes ptes m v)
        ]
      ]

  -- In tables that are ready the pass that commits is done, whatever the pool holds.
  pub ReadyTable-commit :
      (level begin : ℕ) (ptes : List (Pte level)) (m : MPool)
      → ReadyTable arch u level begin ptes
      → (map_level arch level u begin ptes m).2 ≡ done
  unfolding map_level
  ReadyTable-commit zero begin ptes m v =
      Visited-walk (IsTree zero) (Ready arch u zero)
        (map_entry arch zero u (λ b es m. (es, m, fault))) (entry_size zero)
        (min u.end (level_end begin zero))
        (λ b t m h. in_place_done zero b (λ b es m. (es, m, fault)) t m h) begin
        (drop (index begin zero) ptes) m v
  ReadyTable-commit (suc level) begin ptes m v =
      Visited-walk (IsTree (suc level)) (Ready arch u (suc level))
        (map_entry arch (suc level) u (map_level arch level u)) (entry_size (suc level))
        (min u.end (level_end begin (suc level)))
        (λ b t m h.
          commit_entry level b (map_level arch level u) t m
            (λ ptes m v. ReadyTable-commit level b ptes m v) h)
        begin (drop (index begin (suc level)) ptes) m v

module _ (arch : Arch) (visible : ℕ → Bool) (u : Update) (preparing : u.commit ≡ false)
    (tables : Tables arch) (ok : IsPageTable arch tables)
    (inside : u.end ≤ ptable_addr_space_end arch) (begin : ℕ) (h : begin < u.end) (m : MPool) where
  abbrev ReadyRoot : ℕ → List (Pte arch.max_level) → Type 0
  ReadyRoot b t = ReadyTable arch u arch.max_level b t

  abbrev start : ℕ
  start = index begin (arch.max_level + 1)

  prepare_root :
      (map_root arch begin u tables m).2 ≡ done
      → Visited ReadyRoot
          (entry_size (arch.max_level + 1))
          u.end
          begin
          (drop start (map_root arch begin u tables m).0)
  unfolding map_root
  prepare_root e =
      let v =
        walk-Visited (IsTable arch.max_level) ReadyRoot
          (λ b t m. map_level arch arch.max_level u b t m) (entry_size (arch.max_level + 1)) u.end
          (λ b t m tree d. prepare-ReadyTable arch u preparing arch.max_level b t m tree d) begin
          (drop start tables) m (drop-All (IsTable arch.max_level) start tables ok.3) e in
      rw
        (drop-splice start tables
          (walk (λ b t m. map_level arch arch.max_level u b t m) (entry_size (arch.max_level + 1))
            u.end begin (drop start tables) m).0
          (start_le arch visible u tables ok inside begin h))
        v

  -- If the pass that prepares is done, so is the one that commits, whatever the pool holds by then.
  pub commit_root :
      (m' : MPool)
      → (map_root arch begin u tables m).2 ≡ done
      → (map_root arch begin (record u { commit = true }) (map_root arch begin u tables m).0 m').2
        ≡ done
  unfolding map_root
  commit_root m' e =
      Visited-walk (IsTable arch.max_level) ReadyRoot
        (λ b t m. map_level arch arch.max_level (record u { commit = true }) b t m)
        (entry_size (arch.max_level + 1)) u.end
        (λ b t m v. ReadyTable-commit arch (record u { commit = true }) refl arch.max_level b t m v)
        begin (drop start (map_root arch begin u tables m).0) m' (prepare_root e)
