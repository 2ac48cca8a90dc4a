-- ===== src/Mm/Tables.antt =====
-- `map_level` and its loop's body, by induction on the level.
use native.Mathlib.Nat.{div-add-mod}
use hafnium_verification.Prelude.{
  ℕ, zero, suc, ◌≡◌, refl, sym, ap, subst, ◌∙◌, ◌+◌, ◌-◌, ◌/◌, ◌%◌, ◌<◌, ◌≤◌, ◌⊎◌, inl, inr, Bool,
  true, false, List, arith, word, Bool-cases, sub_usize,
}
use hafnium_verification.Addr.{page_size}
use hafnium_verification.Mode.{Mode}
use hafnium_verification.MPool.{MPool}
use hafnium_verification.Mm.{Arch, Pte, entry_size}
use hafnium_verification.Mm.Map.{
  Update, done, no_memory, fault, replace, is_settled, is_whole, new_pte, map_entry, map_level,
  Below,
}
use hafnium_verification.Mm.View.{view, IsIdentity, Shown, IsTree, IsTable, Laws, after, target}
use hafnium_verification.Mm.Levels.{TableOk, EntryOk, map_table-TableOk, size_suc, size_pos}
use hafnium_verification.Mm.Loop.{block_le, block_lt}
use hafnium_verification.Mm.Entries.{replace-new}
use hafnium_verification.Mm.Update.{
  settled_target, new_target, new_pte-IsTree, page_whole, populate_keeps, close_table-EntryOk,
}

module _ (arch : Arch) (limit : ℕ) (visible : ℕ → Bool) (laws : Laws arch limit visible)
    (u : Update) (mode : Mode) (is_mode : u.attrs ≡ arch.mode_to_attrs mode)
    (paged : u.end % page_size ≡ 0) (limited : u.end ≤ limit) where
  after-target :
      (begin a : ℕ) (old : Shown) → old ≡ target visible u a → old ≡ after visible u begin a old
  after-target begin a old h = ground arith

  after_inside :
      (begin a : ℕ) (old : Shown)
      → u.commit ≡ true
      → begin ≤ a
      → a < u.end
      → after visible u begin a old ≡ target visible u a
  after_inside begin a old e p q = ground arith

  after_keep : (begin a : ℕ) (old : Shown) → u.commit ≡ false → after visible u begin a old ≡ old
  after_keep begin a old e = rw e

  settled-EntryOk :
      (level begin : ℕ) (t : Pte level) (m : MPool)
      → IsTree level t
      → is_settled arch level u t ≡ true
      → EntryOk arch visible u level begin t (t, m, done)
  settled-EntryOk level begin t m tree h = record {
    tree = tree;
    safe = λ q. cc;
    seen = λ a same was how.
        after-target begin a (view arch level t a)
          (settled_target arch limit visible laws u mode is_mode paged limited level t a h was);
  }

  -- The whole entry lies in the region.
  whole_inside :
      (level begin a : ℕ)
      → u.end < word
      → begin < u.end
      → is_whole arch level u begin ≡ true
      → a / entry_size level ≡ begin / entry_size level
      → (begin % entry_size level ≡ 0) × (begin ≤ a) × (a < u.end)
  whole_inside level begin a w h whole same =
      let size = entry_size level in
      let aligned : begin % size ≡ 0 = ground (arith, whole) in
      let room : size ≤ sub_usize u.end begin = ground (arith, whole) in
      let e : sub_usize u.end begin ≡ u.end - begin = omega arith in
      let low = block_le (begin / size) a size (size_pos level) (omega (arith, same)) in
      let high = block_lt (begin / size + 1) a size (size_pos level) (omega (arith, same)) in
      let whole_blocks = div-add-mod begin size in
      (
        aligned,
        omega (arith, low, whole_blocks, aligned),
        omega (arith, high, whole_blocks, aligned, room, e),
      )

  whole-EntryOk :
      (level begin : ℕ) (t : Pte level) (m : MPool)
      → IsTree level t
      → u.end < word
      → begin < u.end
      → is_whole arch level u begin ≡ true
      → u.commit ≡ true
      → EntryOk arch visible u level begin t (
        (replace arch level t (new_pte arch level u begin) m).0,
        (replace arch level t (new_pte arch level u begin) m).1,
        done,
      )
  whole-EntryOk level begin t m tree w h whole c =
      rw (replace-new arch level t (new_pte arch level u begin) m) (record {
        tree = new_pte-IsTree arch limit visible laws u mode is_mode paged limited level begin;
        safe = λ q. cc;
        seen = λ a same was how.
            let i = whole_inside level begin a w h whole same in
            new_target arch limit visible laws u mode is_mode paged limited level begin a i.0 h same
              (ground (arith, whole))
            ∙ sym (after_inside begin a (view arch level t a) c i.1 i.2);
      })

  unchanged-EntryOk :
      (level begin : ℕ) (t : Pte level) (m : MPool)
      → IsTree level t
      → u.commit ≡ false
      → EntryOk arch visible u level begin t (t, m, done)
  unchanged-EntryOk level begin t m tree c = record {
    tree = tree;
    safe = λ q. cc;
    seen = λ a same was how. sym (after_keep begin a (view arch level t a) c);
  }

  no_memory-EntryOk :
      (level begin : ℕ) (t : Pte level) (m : MPool)
      → IsTree level t
      → EntryOk arch visible u level begin t (t, m, no_memory)
  no_memory-EntryOk level begin t m tree = record {
    tree = tree;
    safe = λ q. cc;
    seen = λ a same was how. elim how [
      | inl c ↦ sym (after_keep begin a (view arch level t a) c)
      | inr d ↦ absurd cc
    ];
  }

  -- An entry that the region holds, or that is settled, is dealt with in place.
  in_place-EntryOk :
      (level begin : ℕ) (below : Below level) (t : Pte level) (m : MPool)
      → IsTree level t
      → u.end < word
      → begin < u.end
      → (is_settled arch level u t ≡ true) ⊎ (is_whole arch level u begin ≡ true)
      → EntryOk arch visible u level begin t (map_entry arch level u below begin t m)
  unfolding map_entry
  in_place-EntryOk level begin below t m tree w h how =
      elim (Bool-cases (is_settled arch level u t)) [
        | inl s ↦ rw (s, map_entry) (settled-EntryOk level begin t m tree s)
        | inr s ↦
            let whole : is_whole arch level u begin ≡ true = elim how [
              | inl e ↦ absurd cc
              | inr e ↦ e
            ] in
            elim (Bool-cases u.commit) [
              | inl c ↦
                  let new = replace arch level t (new_pte arch level u begin) m in
                  let e : map_entry arch level u below begin t m ≡ (new.0, new.1, done) =
                    rw (s, whole, c, map_entry) refl in
                  subst (EntryOk arch visible u level begin t) (sym e)
                    (whole-EntryOk level begin t m tree w h whole c)
              | inr c ↦
                  let e : map_entry arch level u below begin t m ≡ (t, m, done) =
                    rw (s, whole, c, map_entry) refl in
                  subst (EntryOk arch visible u level begin t) (sym e)
                    (unchanged-EntryOk level begin t m tree c)
            ]
      ]

  -- At a level above 0 an entry may be split, and then the loop goes on below.
  split-EntryOk :
      (level begin : ℕ) (below : Below (suc level)) (t : Pte (suc level)) (m : MPool)
      → IsTree (suc level) t
      → is_settled arch (suc level) u t ≡ false
      → is_whole arch (suc level) u begin ≡ false
      → ((ptes : List (Pte level)) (m : MPool)
          → IsTable level ptes
          → TableOk arch visible u level begin ptes (below begin ptes m))
      → EntryOk arch visible u (suc level) begin t (map_entry arch (suc level) u below begin t m)
  unfolding map_entry
  split-EntryOk level begin below t m tree s whole goes =
      elim (populate_keeps arch limit visible laws u mode is_mode paged limited level t m tree) [
        | inl none_left ↦
            rw (s, whole, none_left, map_entry) (no_memory-EntryOk (suc level) begin t m tree)
        | inr (page, ptes, m', e, is_table, same_view) ↦
            let k =
              close_table-EntryOk arch limit visible laws u mode is_mode paged limited level begin
                page ptes (below begin ptes m') (goes ptes m' is_table) in
            rw (s, whole, e, map_entry)
              (record {
                tree = k.tree;
                safe = k.safe;
                seen = λ a same was how.
                    k.seen a same (subst (IsIdentity a) (sym (same_view a was)) was) how
                    ∙ ap (after visible u begin a) (same_view a was);
              })
      ]

  pub map_entry-EntryOk_page :
      (begin : ℕ) (below : Below zero) (t : Pte zero) (m : MPool)
      → u.end < word
      → begin % page_size ≡ 0
      → begin < u.end
      → IsTree zero t
      → EntryOk arch visible u zero begin t (map_entry arch zero u below begin t m)
  map_entry-EntryOk_page begin below t m w aligned h tree =
      in_place-EntryOk zero begin below t m tree w h
        (inr (page_whole arch limit visible laws u mode is_mode paged limited begin aligned h w))

  map_entry-EntryOk :
      (level begin : ℕ) (below : Below (suc level)) (t : Pte (suc level)) (m : MPool)
      → u.end < word
      → begin < u.end
      → IsTree (suc level) t
      → ((ptes : List (Pte level)) (m : MPool)
          → IsTable level ptes
          → TableOk arch visible u level begin ptes (below begin ptes m))
      → EntryOk arch visible u (suc level) begin t (map_entry arch (suc level) u below begin t m)
  map_entry-EntryOk level begin below t m w h tree goes =
      elim (Bool-cases (is_settled arch (suc level) u t)) [
        | inl s ↦ in_place-EntryOk (suc level) begin below t m tree w h (inl s)
        | inr s ↦ elim (Bool-cases (is_whole arch (suc level) u begin)) [
          | inl whole ↦ in_place-EntryOk (suc level) begin below t m tree w h (inr whole)
          | inr whole ↦ split-EntryOk level begin below t m tree s whole goes
        ]
      ]

  -- `map_level` on a table: it keeps its shape, it never faults, and if it is done, of the addresses
  -- that the table spans and maps to themselves or to nothing, those of the region show what the update
  -- asks for, the others what they did.
  pub map_level-TableOk :
      (level begin : ℕ) (ptes : List (Pte level)) (m : MPool)
      → IsTable level ptes
      → u.end + entry_size (suc level) ≤ word
      → begin % page_size ≡ 0
      → begin < u.end
      → TableOk arch visible u level begin ptes (map_level arch level u begin ptes m)
  unfolding map_level
  map_level-TableOk zero begin ptes m tree fits aligned h =
      map_table-TableOk arch visible u zero begin ptes tree fits h (λ b es m. (es, m, fault)) m
        aligned
        λ b t m p q tree.
          map_entry-EntryOk_page b (λ b es m. (es, m, fault)) t m (omega (arith, fits, size_pos 1))
            p q tree
  map_level-TableOk (suc level) begin ptes m tree fits aligned h =
      map_table-TableOk arch visible u (suc level) begin ptes tree fits h (map_level arch level u) m
        aligned
        λ b t m p q tree.
          map_entry-EntryOk level b (map_level arch level u) t m
            (omega (arith, fits, size_pos (suc (suc level)))) q tree
            λ ptes m is_table.
              map_level-TableOk level b ptes m is_table (omega (arith, fits, size_suc (suc level)))
                p q
