-- ===== src/Mm/Levels.antt =====
-- The sizes of the levels, and the loop of `map_level` over one table.
use native.Mathlib.Nat.{pow-suc, one-le-pow, div-div-eq-div-mul, div-mul-le_self}
use native.Mathlib.Decide.{dec_lt}
use hafnium_verification.Prelude.{
  ℕ, zero, suc, ◌≡◌, ◌≢◌, refl, sym, ap, subst, ◌∙◌, ◌+◌, ◌-◌, ◌*◌, ◌/◌, ◌%◌, ◌^◌, ◌<◌, ◌≤◌, min,
  ◌⊎◌, Bool, false, List, ◌++◌, arith, length, get_elem?, take, drop, word, length-append,
  length-take_le, length-drop, get_elem?-splice_lt, get_elem?-splice_ge, get_elem?-drop, take-All,
  drop-All, append-All, mul_usize,
}
use hafnium_verification.Addr.{page_size}
use hafnium_verification.MPool.{MPool}
use hafnium_verification.Mm.{Arch, Pte, entry_size, level_end, index}
use hafnium_verification.Mm.Map.{Update, Status, done, fault, Below, map_entry, map_table}
use hafnium_verification.Mm.View.{view, view_table, pick, IsTree, IsTable, IsIdentity, Shown, after}
use hafnium_verification.Mm.Loop.{StepOk, LoopOk, walk-WalkOk, block_lt, mul_paged}

-- Nine bits more are 512 times as much.
pow_nine : (n : ℕ) → 2 ^ suc (suc (suc (suc (suc (suc (suc (suc (suc n)))))))) ≡ 512 * 2 ^ n
pow_nine n = omega (
  arith,
  pow-suc 2 n,
  pow-suc 2 (suc n),
  pow-suc 2 (suc (suc n)),
  pow-suc 2 (suc (suc (suc n))),
  pow-suc 2 (suc (suc (suc (suc n)))),
  pow-suc 2 (suc (suc (suc (suc (suc n))))),
  pow-suc 2 (suc (suc (suc (suc (suc (suc n)))))),
  pow-suc 2 (suc (suc (suc (suc (suc (suc (suc n))))))),
  pow-suc 2 (suc (suc (suc (suc (suc (suc (suc (suc n)))))))),
)

pub size_suc : (level : ℕ) → entry_size (suc level) ≡ 512 * entry_size level
size_suc level =
    let n = 12 + level * 9 in
    let e : 12 + suc level * 9 ≡ suc (suc (suc (suc (suc (suc (suc (suc (suc n)))))))) =
      omega arith in
    ap (λ (k : ℕ). 2 ^ k) e ∙ pow_nine n

pub size_pos : (level : ℕ) → 0 < entry_size level
size_pos level = one-le-pow (12 + level * 9) 2 (omega arith)

pub size_paged : (level : ℕ) → entry_size level % page_size ≡ 0
size_paged zero = refl
size_paged (suc level) =
    ap (λ (n : ℕ). n % page_size) (size_suc level)
    ∙ mul_paged 512 (entry_size level) (size_paged level)

-- One entry of the level above spans the 512 entries of a table.
pub region : (a level : ℕ) → a / entry_size (suc level) ≡ a / entry_size level / 512
region a level =
    let e : entry_size (suc level) ≡ entry_size level * 512 = omega (arith, size_suc level) in
    ap (λ (n : ℕ). a / n) e ∙ sym (div-div-eq-div-mul a (entry_size level) 512)

-- `level_end` is the end of the span of the table that `begin` lies in.
pub level_end_lem :
    (begin level : ℕ)
    → begin + entry_size (suc level) < word
    → level_end begin level ≡ (begin / entry_size (suc level) + 1) * entry_size (suc level)
level_end_lem begin level fits =
    let size = entry_size (suc level) in
    let e : 2 ^ (12 + (level + 1) * 9) ≡ size =
      ap (λ (n : ℕ). 2 ^ (12 + n * 9)) (let f : level + 1 ≡ suc level = omega arith in f) in
    ap (λ (n : ℕ). mul_usize (begin / n + 1) n) e ∙ omega (arith, div-mul-le_self begin size)

module _ (arch : Arch) (visible : ℕ → Bool) (u : Update) where
  -- What an update of a table does to the addresses that the table spans.
  pub record TableOk (level begin : ℕ) (ptes : List (Pte level))
      (r : List (Pte level) × MPool × Status) : Type 0 where
    pub tree : IsTable level r.0
    pub safe : r.2 ≢ fault
    pub seen :
        (a : ℕ)
        → a / entry_size (suc level) ≡ begin / entry_size (suc level)
        → IsIdentity a (view_table arch level ptes a)
        → (u.commit ≡ false) ⊎ (r.2 ≡ done)
        → view_table arch level r.0 a ≡ after visible u begin a (view_table arch level ptes a)

  -- What the step of one entry does.
  abbrev pub EntryOk : (level : ℕ) → ℕ → Pte level → Pte level × MPool × Status → Type 0
  EntryOk level = StepOk visible u (IsTree level) (view arch level) (entry_size level)

  module _ (level begin : ℕ) (ptes : List (Pte level)) (tree : IsTable level ptes)
      (fits : u.end + entry_size (suc level) ≤ word) (within : begin < u.end) where
    abbrev start : ℕ
    start = index begin level

    start_le : start ≤ length ptes
    start_le = omega (arith, tree.0)

    -- The entries' numbers within the table, and over the whole address space.
    block_split :
        (a : ℕ)
        → a / entry_size (suc level) ≡ begin / entry_size (suc level)
        → a / entry_size level + start ≡ begin / entry_size level + index a level
    block_split a same = omega (arith, same, region a level, region begin level)

    before_begin :
        (a : ℕ)
        → a / entry_size (suc level) ≡ begin / entry_size (suc level)
        → index a level < start
        → a < begin
    before_begin a same before = omega (
      arith,
      block_split a same,
      block_lt (begin / entry_size level) a (entry_size level) (size_pos level)
          (omega (arith, block_split a same)),
      div-mul-le_self begin (entry_size level),
    )

    after_before : (a : ℕ) (old : Shown) → a < begin → after visible u begin a old ≡ old
    after_before a old h = ground arith

    -- The looked-up entry lies before the loop's start, or is the loop's.
    splice_seen :
        (cap : ℕ) (r : List (Pte level) × MPool × Status)
        → ((a : ℕ)
            → a / entry_size (suc level) ≡ begin / entry_size (suc level)
            → a < u.end
            → a < cap)
        → LoopOk visible u
            (IsTree level)
            (view arch level)
            (entry_size level)
            cap
            begin
            (drop start ptes)
            r
        → TableOk level begin ptes (take start ptes ++ r.0, r.1, r.2)
    splice_seen cap r inside w = record {
      tree = (
        omega (
          arith,
          tree.0,
          w.len,
          length-append (take start ptes) r.0,
          length-take_le start ptes start_le,
          length-drop start ptes,
        ),
        append-All (IsTree level) (take start ptes) r.0 (take-All (IsTree level) start ptes tree.1)
            w.trees,
      );
      safe = w.safe;
      seen = λ a same was how. elim (dec_lt (index a level) start) [
        | yes before ↦
            ap (pick (λ t. view arch level t a))
              (get_elem?-splice_lt start (index a level) ptes r.0 before start_le)
            ∙ sym (after_before a (view_table arch level ptes a) (before_begin a same before))
        | no later ↦
            let e : a / entry_size level - begin / entry_size level ≡ index a level - start =
              omega (arith, block_split a same) in
            ap (pick (λ t. view arch level t a)) (
              get_elem?-splice_ge start (index a level) ptes r.0 (omega arith) start_le
              ∙ ap (get_elem? r.0) (sym e))
            ∙ w.seen a (omega (arith, block_split a same))
                (omega (arith, block_split a same, length-drop start ptes, tree.0)) (inside a same)
                (subst (λ o. IsIdentity a (pick (λ t. view arch level t a) o))
                  (sym (
                    ap (get_elem? (drop start ptes)) e
                    ∙ get_elem?-drop start (index a level) ptes (omega arith)))
                  was)
                how
            ∙ ap (λ o. after visible u begin a (pick (λ t. view arch level t a) o))
                (ap (get_elem? (drop start ptes)) e
                  ∙ get_elem?-drop start (index a level) ptes (omega arith))
      ];
    }

    -- If each step does its part, `map_level` does it to the whole table.
    pub map_table-TableOk :
        (below : Below level) (mpool : MPool)
        → begin % page_size ≡ 0
        → ((b : ℕ) (t : Pte level) (m : MPool)
            → b % page_size ≡ 0
            → b < u.end
            → IsTree level t
            → EntryOk level b t (map_entry arch level u below b t m))
        → TableOk level begin ptes (map_table arch level u below begin ptes mpool)
    map_table-TableOk below mpool paged steps =
        let cap = min u.end (level_end begin level) in
        let end_eq = level_end_lem begin level (omega arith) in
        splice_seen cap _
          (λ a same h. omega (
            arith,
            end_eq,
            h,
            block_lt (begin / entry_size (suc level) + 1) a (entry_size (suc level))
                (size_pos (suc level)) (omega (arith, same)),
          ))
          (walk-WalkOk visible u (IsTree level) (view arch level) (entry_size level)
            (map_entry arch level u below) cap (size_pos level) (size_paged level) (omega arith)
            (omega (arith, size_suc level)) (λ b t m p h k. steps b t m p (omega arith) k) begin
            (drop start ptes) mpool paged (drop-All (IsTree level) start ptes tree.1))
