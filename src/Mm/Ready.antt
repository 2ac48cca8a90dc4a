-- ===== src/Mm/Ready.antt =====
-- The pass that prepares leaves tables in which the pass that commits needs no memory.
use hafnium_verification.Prelude.{
  ℕ, zero, suc, ◌≡◌, ◌≢◌, refl, sym, ap, ◌∙◌, ◌≤◌, ◌⊎◌, inl, inr, min, true, false, List, [], ◌∷◌,
  ◌++◌, arith, ltb, length, take, drop, All, Bool-cases, drop-All,
}
use hafnium_verification.MPool.{MPool}
use hafnium_verification.Mm.{
  Arch, leaf, table, Pte, Child, entry_size, start_of_next_block, level_end, index,
}
use hafnium_verification.Mm.Map.{
  Update, Status, done, no_memory, fault, walk, map_entry, map_table, map_level, Below, is_settled,
  is_whole, close_table,
}
use hafnium_verification.Mm.View.{IsTree, IsTable}
use hafnium_verification.Mm.Steps.{
  populate-table, populate_table-IsTable, map_entry_settled, map_entry_keep, map_entry-none,
  map_entry_below,
}
use hafnium_verification.Mm.Loop.{Status-cases}

-- What holds of each entry that a loop visits.
module _ {T : Type 0} (R : ℕ → T → Type 0) (size cap : ℕ) where
  abbrev pub Visited : ℕ → List T → Type 0
  Visited begin [] = Unit
  Visited begin (t ∷ ts) = elim (ltb begin cap) [
    | false ↦ Unit
    | true ↦ R begin t × Visited (start_of_next_block begin size) ts
  ]

  Visited-cons :
      (begin : ℕ) (t : T) (ts : List T)
      → ltb begin cap ≡ true
      → R begin t × Visited (start_of_next_block begin size) ts
      → Visited begin (t ∷ ts)
  Visited-cons begin t ts go h = rw (go, Visited) h

module _ {T S : Type 0} (Tree : T → Type 0) (R : ℕ → T → Type 0) (step : ℕ → T → S → T × S × Status)
    (size cap : ℕ) where
  abbrev loop : ℕ → List T → S → List T × S × Status
  loop = walk step size cap

  pub walk-Visited :
      ((b : ℕ) (t : T) (s : S) → Tree t → (step b t s).2 ≡ done → R b (step b t s).0)
      → (begin : ℕ) (ts : List T) (s : S) → All Tree ts
      → (loop begin ts s).2 ≡ done
      → Visited R size cap begin (loop begin ts s).0
  unfolding walk
  walk-Visited steps begin [] s trees e = tt
  walk-Visited steps begin (t ∷ ts) s trees e = elim (Bool-cases (ltb begin cap)) [
    | inr stop ↦ rw (stop, walk) (rw (stop, Visited) tt)
    | inl go ↦ elim (Status-cases (step begin t s).2) [
      | inl d ↦
          let rest : (loop (start_of_next_block begin size) ts (step begin t s).1).2 ≡ done =
            rw (go, d, walk) at e in
          rw (go, d, walk)
            (Visited-cons R size cap begin (step begin t s).0 _ go (
              steps begin t s trees.0 d,
              walk-Visited steps (start_of_next_block begin size) ts (step begin t s).1 trees.1
                  rest,
            ))
      | inr f ↦ absurd (f (ground (arith, go, e)))
    ]
  ]

  pub Visited-walk :
      ((b : ℕ) (t : T) (s : S) → R b t → (step b t s).2 ≡ done)
      → (begin : ℕ) (ts : List T) (s : S) → Visited R size cap begin ts
      → (loop begin ts s).2 ≡ done
  unfolding walk
  Visited-walk steps begin [] s v = refl
  Visited-walk steps begin (t ∷ ts) s v = elim (Bool-cases (ltb begin cap)) [
    | inr stop ↦ rw (stop, walk) refl
    | inl go ↦
        let w : R begin t × Visited R size cap (start_of_next_block begin size) ts =
          rw (go, Visited) at v in
        rw (go, steps begin t s w.0, walk)
          (Visited-walk steps (start_of_next_block begin size) ts (step begin t s).1 w.1)
  ]

pub drop-splice {ℓ} :
    {A : Type ℓ} (i : ℕ) (xs ys : List A) → i ≤ length xs → drop i (take i xs ++ ys) ≡ ys
drop-splice zero xs ys h = refl
drop-splice (suc i) [] ys h = absurd (omega arith)
drop-splice (suc i) (x ∷ xs) ys h = drop-splice i xs ys (omega arith)

module _ (arch : Arch) (u : Update) where
  -- A loop over the entries of a table from `begin` on.
  abbrev VisitedTable : (level : ℕ) → (ℕ → Pte level → Type 0) → ℕ → List (Pte level) → Type 0
  VisitedTable level R begin ptes =
      Visited R (entry_size level) (min u.end (level_end begin level)) begin
        (drop (index begin level) ptes)

  -- The pass that commits needs no new table at or below an entry.
  abbrev pub Ready : (level : ℕ) → ℕ → Pte level → Type 0
  Ready zero begin t = (is_settled arch zero u t ≡ true) ⊎ (is_whole arch zero u begin ≡ true)
  Ready (suc level) begin (leaf pte) =
      (is_settled arch (suc level) u (leaf pte) ≡ true) ⊎ (is_whole arch (suc level) u begin ≡ true)
  Ready (suc level) begin (table page ptes) =
      (is_whole arch (suc level) u begin ≡ true) ⊎ VisitedTable level (Ready level) begin ptes

  abbrev pub ReadyTable : (level : ℕ) → ℕ → List (Pte level) → Type 0
  ReadyTable level = VisitedTable level (Ready level)

  in_place-Ready :
      (level begin : ℕ) (t : Pte level)
      → (is_settled arch level u t ≡ true) ⊎ (is_whole arch level u begin ≡ true)
      → Ready level begin t
  in_place-Ready zero begin t h = h
  in_place-Ready (suc level) begin (leaf pte) h = h
  in_place-Ready (suc level) begin (table page ptes) h = elim h [
    | inl e ↦ absurd (ground (arith, e))
    | inr e ↦ inl e
  ]

pub memory_done : no_memory ≢ done
memory_done e = cc

pub fault_done : fault ≢ done
fault_done e = cc

module _ (arch : Arch) (u : Update) (preparing : u.commit ≡ false) where
  close-Ready :
      (level begin page : ℕ) (r : List (Pte level) × MPool × Status)
      → (r.2 ≡ done → ReadyTable arch u level begin r.0)
      → (close_table arch (suc level) u page r).2 ≡ done
      → Ready arch u (suc level) begin (close_table arch (suc level) u page r).0
  close-Ready level begin page (es, m, done) k e = rw preparing (inr (k refl))
  close-Ready level begin page (es, m, no_memory) k e = absurd (memory_done e)
  close-Ready level begin page (es, m, fault) k e = absurd (fault_done e)

  -- The table that the pass that prepares leaves.
  prepare_table :
      (level : ℕ) (below : Below level) (begin : ℕ) (ptes : List (Pte level)) (m : MPool)
      → IsTable level ptes
      → ((b : ℕ) (t : Pte level) (m : MPool)
          → IsTree level t
          → (map_entry arch level u below b t m).2 ≡ done
          → Ready arch u level b (map_entry arch level u below b t m).0)
      → (map_table arch level u below begin ptes m).2 ≡ done
      → ReadyTable arch u level begin (map_table arch level u below begin ptes m).0
  prepare_table level below begin ptes m tree steps e =
      let start = index begin level in
      let cap = min u.end (level_end begin level) in
      let v =
        walk-Visited (IsTree level) (Ready arch u level) (map_entry arch level u below)
          (entry_size level) cap steps begin (drop start ptes) m
          (drop-All (IsTree level) start ptes tree.1) e in
      rw
        (drop-splice start ptes
          (walk (map_entry arch level u below) (entry_size level) cap begin (drop start ptes) m).0
          (omega (arith, tree.0)))
        v

  prepare_page :
      (begin : ℕ) (below : Below zero) (t : Pte zero) (m : MPool)
      → ((b : ℕ) (es : List (Child zero)) (m : MPool) → (below b es m).2 ≡ fault)
      → (map_entry arch zero u below begin t m).2 ≡ done
      → Ready arch u zero begin (map_entry arch zero u below begin t m).0
  prepare_page begin below t m none_below e = elim (Bool-cases (is_settled arch zero u t)) [
    | inl s ↦ rw (map_entry_settled arch zero u below begin t m s) (inl s)
    | inr s ↦ elim (Bool-cases (is_whole arch zero u begin)) [
      | inl whole ↦ inr whole
      | inr whole ↦ elim (populate-table arch zero t m) [
        | inl p ↦ absurd (
            memory_done
              (sym (ap (λ r. r.2) (map_entry-none arch zero u below begin t m s whole p)) ∙ e))
        | inr (page, ptes, m', p) ↦ absurd (
            fault_done (
              sym (none_below begin ptes m')
              ∙ sym (
                  ap (λ r. r.2)
                    (map_entry_below arch zero u below begin t m page ptes m' s whole p))
              ∙ e))
      ]
    ]
  ]

  prepare_entry :
      (level begin : ℕ) (below : Below (suc level)) (t : Pte (suc level)) (m : MPool)
      → ((ptes : List (Pte level)) (m : MPool)
          → IsTable level ptes
          → (below begin ptes m).2 ≡ done
          → ReadyTable arch u level begin (below begin ptes m).0)
      → IsTree (suc level) t
      → (map_entry arch (suc level) u below begin t m).2 ≡ done
      → Ready arch u (suc level) begin (map_entry arch (suc level) u below begin t m).0
  prepare_entry level begin below t m goes tree e =
      elim (Bool-cases (is_settled arch (suc level) u t)) [
        | inl s ↦
            rw (map_entry_settled arch (suc level) u below begin t m s)
              (in_place-Ready arch u (suc level) begin t (inl s))
        | inr s ↦ elim (Bool-cases (is_whole arch (suc level) u begin)) [
          | inl whole ↦
              rw (map_entry_keep arch (suc level) u below begin t m s whole preparing)
                (in_place-Ready arch u (suc level) begin t (inr whole))
          | inr whole ↦ elim (populate-table arch (suc level) t m) [
            | inl p ↦ absurd (
                memory_done (
                  sym (ap (λ r. r.2) (map_entry-none arch (suc level) u below begin t m s whole p))
                  ∙ e))
            | inr (page, ptes, m', p) ↦
                let f = map_entry_below arch (suc level) u below begin t m page ptes m' s whole p in
                rw f (
                  close-Ready level begin page (below begin ptes m')
                    (goes ptes m' (populate_table-IsTable arch level t m page ptes m' tree p))
                    (sym (ap (λ r. r.2) f) ∙ e))
          ]
        ]
      ]

  -- A pass that prepares and is done leaves tables that are ready.
  pub prepare-ReadyTable :
      (level begin : ℕ) (ptes : List (Pte level)) (m : MPool)
      → IsTable level ptes
      → (map_level arch level u begin ptes m).2 ≡ done
      → ReadyTable arch u level begin (map_level arch level u begin ptes m).0
  unfolding map_level
  prepare-ReadyTable zero begin ptes m tree e =
      prepare_table zero (λ b es m. (es, m, fault)) begin ptes m tree
        (λ b t m tree d. prepare_page b (λ b es m. (es, m, fault)) t m (λ b es m. refl) d) e
  prepare-ReadyTable (suc level) begin ptes m tree e =
      prepare_table (suc level) (map_level arch level u) begin ptes m tree
        (λ b t m tree d.
          prepare_entry level b (map_level arch level u) t m
            (λ ptes m is_table d. prepare-ReadyTable level b ptes m is_table d) tree d)
        e
