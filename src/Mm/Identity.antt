-- ===== src/Mm/Identity.antt =====
-- `identity_map` and `unmap`: what a page table shows after an update, and after a failed one.
use hafnium_verification.Prelude.{
  ℕ, suc, ◌≡◌, ◌≢◌, refl, sym, ap, subst, ◌∙◌, ◌+◌, ◌%◌, ◌<◌, ◌≤◌, inl, inr, min, Bool, true, false,
  arith, word, leb, ltb, ◌&&◌, if◌then◌else◌,
}
use hafnium_verification.Addr.{page_size}
use hafnium_verification.Mode.{Mode}
use hafnium_verification.MPool.{MPool}
use hafnium_verification.Mm.{Arch, round_up_to_page, round_down_to_page, ptable_addr_space_end}
use hafnium_verification.Mm.Map.{
  Update, Status, done, no_memory, fault, map_root, Tables, identity_update, unmap, and_then,
}
use hafnium_verification.Mm.View.{Shown, IsIdentity, Laws, after, target}
use hafnium_verification.Mm.Levels.{size_paged}
use hafnium_verification.Mm.Loop.{Status-cases, mul_paged}
use hafnium_verification.Mm.Commit.{commit_root}
use hafnium_verification.Mm.Root.{
  IsPageTable, RootOk, map_root-RootOk, shows, root_size, space_end_lem,
}

-- The addresses of the region, which the code rounds to whole pages.
abbrev pub in_region : ℕ → ℕ → ℕ → Bool
in_region begin end a = leb (round_down_to_page begin) a && ltb a (round_up_to_page end)

abbrev pub is_done : Status → Bool
is_done done = true
is_done no_memory = false
is_done fault = false

module _ {A : Type 0} (first second : A × MPool × Status) where
  and_then_done : first.2 ≡ done → and_then first second ≡ second
  and_then_done e = rw e

  and_then_fail : first.2 ≢ done → and_then first second ≡ first
  and_then_fail e = ground arith

module _ (arch : Arch) where
  -- What one update of a page table does: it never faults, the page table keeps its shape, and for the
  -- addresses that are mapped to themselves or to nothing, if it is done, the region shows `wanted`, all
  -- else what it did; if it is not, all shows what it did.
  pub record Updated (begin end : ℕ) (wanted : ℕ → Shown) (tables : Tables arch)
      (r : Tables arch × MPool × Status) : Type 0 where
    pub tree : IsPageTable arch r.0
    pub safe : r.2 ≢ fault
    pub seen :
        (a : ℕ)
        → a < ptable_addr_space_end arch
        → IsIdentity a (shows arch tables a)
        → r.2 ≡ done
        → shows arch r.0 a ≡ (if in_region begin end a then wanted a else shows arch tables a)
    pub kept :
        (a : ℕ)
        → a < ptable_addr_space_end arch
        → IsIdentity a (shows arch tables a)
        → r.2 ≢ done
        → shows arch r.0 a ≡ shows arch tables a

  -- The update of the pass that only prepares.
  abbrev pub prepare : ℕ → ℕ → Bool → Update
  prepare end attributes unmap = record {
    end = min (round_up_to_page end) (ptable_addr_space_end arch);
    attrs = attributes;
    commit = false;
    unmap = unmap;
  }

  module _ (limit : ℕ) (visible : ℕ → Bool) (laws : Laws arch limit visible)
      (inside : ptable_addr_space_end arch ≤ limit) (begin end : ℕ) (nonempty : begin < end)
      (no_wrap : end + page_size ≤ word) (in_space : begin < ptable_addr_space_end arch)
      (tables : Tables arch) (ok : IsPageTable arch tables) (mode : Mode) (unmapping : Bool)
      (mpool : MPool) where
    abbrev u : Update
    u = prepare end (arch.mode_to_attrs mode) unmapping

    abbrev first : Tables arch × MPool × Status
    first = map_root arch (round_down_to_page begin) u tables mpool

    abbrev second : Tables arch × MPool × Status
    second = map_root arch (round_down_to_page begin) (record u { commit = true }) first.0 first.1

    space_paged : ptable_addr_space_end arch % page_size ≡ 0
    space_paged =
        rw (space_end_lem arch tables ok)
          (mul_paged arch.root_table_count (root_size arch) (size_paged (suc arch.max_level)))

    end_paged : u.end % page_size ≡ 0
    end_paged = ground (arith, space_paged)

    begin_lem : arch.clear_pa begin ≡ round_down_to_page begin
    begin_lem = laws.clear_rounds begin (omega (arith, in_space, inside))

    region_nonempty : round_down_to_page begin < u.end
    region_nonempty = omega (arith, nonempty, no_wrap, in_space, space_paged)

    first-RootOk : RootOk arch visible u (round_down_to_page begin) tables first
    first-RootOk =
        map_root-RootOk arch limit visible laws u mode refl end_paged (omega (arith, inside))
          (omega arith) (round_down_to_page begin) tables mpool ok (omega arith) region_nonempty

    second-RootOk :
        RootOk arch visible (record u { commit = true }) (round_down_to_page begin) first.0 second
    second-RootOk =
        map_root-RootOk arch limit visible laws (record u { commit = true }) mode refl end_paged
          (omega (arith, inside)) (omega arith) (round_down_to_page begin) first.0 first.1
          first-RootOk.tree (omega arith) region_nonempty

    update_lem :
        identity_update arch begin end (arch.mode_to_attrs mode) unmapping tables mpool
        ≡ and_then first second
    unfolding identity_update
    update_lem =
        ap
          (λ b.
            let r = map_root arch b u tables mpool in
            and_then r (map_root arch b (record u { commit = true }) r.0 r.1))
          begin_lem

    -- If the pass that prepares succeeds, the result is that of the one that commits.
    update_second :
        first.2 ≡ done
        → identity_update arch begin end (arch.mode_to_attrs mode) unmapping tables mpool ≡ second
    update_second e = update_lem ∙ and_then_done first second e

    update_first :
        first.2 ≢ done
        → identity_update arch begin end (arch.mode_to_attrs mode) unmapping tables mpool ≡ first
    update_first e = update_lem ∙ and_then_fail first second e

    first_same :
        (a : ℕ)
        → a < ptable_addr_space_end arch
        → IsIdentity a (shows arch tables a)
        → shows arch first.0 a ≡ shows arch tables a
    first_same a h was = first-RootOk.seen a h was (inl refl)

    region_lem :
        (a : ℕ) (old : Shown)
        → a < ptable_addr_space_end arch
        → after visible (record u { commit = true }) (round_down_to_page begin) a old
          ≡ (if in_region begin end a then target visible u a else old)
    region_lem a old h = ground arith

    pub identity_update_lem :
        Updated begin end
          (target visible u)
          tables
          (identity_update arch begin end (arch.mode_to_attrs mode) unmapping tables mpool)
    identity_update_lem = elim (Status-cases first.2) [
      | inl e ↦
          subst (Updated begin end (target visible u) tables) (sym (update_second e)) (record {
            tree = second-RootOk.tree;
            safe = second-RootOk.safe;
            seen = λ a h was d.
                second-RootOk.seen a h (subst (IsIdentity a) (sym (first_same a h was)) was) (inr d)
                ∙ region_lem a (shows arch first.0 a) h
                ∙ ap (λ old. if in_region begin end a then target visible u a else old)
                    (first_same a h was);
            kept = λ a h was f. absurd (
                f (
                  commit_root arch visible u refl tables ok (omega arith) (round_down_to_page begin)
                    region_nonempty mpool first.1 e));
          })
      | inr e ↦ subst (Updated begin end (target visible u) tables) (sym (update_first e)) (record {
        tree = first-RootOk.tree;
        safe = first-RootOk.safe;
        seen = λ a h was d. absurd (e d);
        kept = λ a h was f. first_same a h was;
      })
    ]

  module _ (limit : ℕ) (visible : ℕ → Bool) (laws : Laws arch limit visible)
      (inside : ptable_addr_space_end arch ≤ limit) (begin end : ℕ) (nonempty : begin < end)
      (no_wrap : end + page_size ≤ word) (in_space : begin < ptable_addr_space_end arch)
      (tables : Tables arch) (ok : IsPageTable arch tables) where
    -- The rest of what `Updated` says, with both endings in one equation.
    abbrev shows_after : (ℕ → Shown) → Tables arch × MPool × Status → ℕ → Shown
    shows_after wanted r a =
        if is_done r.2 && in_region begin end a then wanted a else shows arch tables a
