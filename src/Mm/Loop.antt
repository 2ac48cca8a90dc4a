-- ===== src/Mm/Loop.antt =====
-- The loop over the entries of a table: what each entry's step does, the loop does to the table. All
-- that is said of an address supposes that it is mapped to itself or to nothing before.
use native.Mathlib.Nat.{
  add-div_right, div-lt_iff_lt-mul, le-div_iff_mul-le, lt-div-mul-add, mul-div_cancel,
}
use native.Mathlib.Decide.{dec_lt}
use hafnium_verification.Prelude.{
  ℕ, suc, ◌≡◌, ◌≢◌, refl, sym, ap, subst, ◌∙◌, ◌+◌, ◌-◌, ◌*◌, ◌/◌, ◌%◌, ◌<◌, ◌≤◌, ◌⊎◌, inl, inr,
  Bool, true, false, List, [], ◌∷◌, arith, length, get_elem?, ltb, word, Bool-cases, ltb→lt, All,
}
use hafnium_verification.Addr.{page_size}
use hafnium_verification.Mm.{start_of_next_block}
use hafnium_verification.Mm.Map.{Update, Status, done, no_memory, fault, walk}
use hafnium_verification.Mm.View.{Shown, IsIdentity, after, pick}

pub Status-cases : (s : Status) → (s ≡ done) ⊎ (s ≢ done)
Status-cases done = inl refl
Status-cases no_memory = inr (λ e. cc)
Status-cases fault = inr (λ e. cc)

-- A multiple of a multiple of the page size.
pub mul_paged : (k size : ℕ) → size % page_size ≡ 0 → (k * size) % page_size ≡ 0
mul_paged k size h =
    let whole : size ≡ page_size * (size / page_size) = omega (arith, h) in
    rw (ap (λ (x : ℕ). k * x % page_size) whole) (omega arith)

-- `BlockIter` steps to the start of the next block.
pub start_of_next_block_lem :
    (begin size : ℕ)
    → 0 < size
    → begin + size < word
    → start_of_next_block begin size ≡ (begin / size + 1) * size
start_of_next_block_lem begin size pos fits =
    let sum : (begin + size) % word ≡ begin + size = omega arith in
    ap (λ (x : ℕ). x / size * size) sum ∙ ap (λ (x : ℕ). x * size) (add-div_right begin pos)

-- Where an address lies among blocks.
pub block_le : (k a size : ℕ) → 0 < size → k ≤ a / size → k * size ≤ a
block_le k a size pos h = (le-div_iff_mul-le pos).0 h

pub block_lt : (k a size : ℕ) → 0 < size → a / size < k → a < k * size
block_lt k a size pos h = (div-lt_iff_lt-mul pos).0 h

-- What entries that begin with block `k` give to an address.
module _ {T : Type 0} (v : T → ℕ → Shown) (size : ℕ) where
  abbrev pub look_from : ℕ → List T → ℕ → Shown
  look_from k ts a = pick (λ t. v t a) (get_elem? ts (a / size - k))

module _ {T S : Type 0} (visible : ℕ → Bool) (u : Update) (Tree : T → Type 0) (v : T → ℕ → Shown)
    (size : ℕ) where
  -- What one entry's step does to the addresses of the block that `begin` lies in.
  pub record StepOk (begin : ℕ) (t : T) (r : T × S × Status) : Type 0 where
    pub tree : Tree r.0
    pub safe : r.2 ≢ fault
    pub seen :
        (a : ℕ)
        → a / size ≡ begin / size
        → IsIdentity a (v t a)
        → (u.commit ≡ false) ⊎ (r.2 ≡ done)
        → v r.0 a ≡ after visible u begin a (v t a)

  -- What a loop up to `cap` does to the addresses of the entries that it is given.
  pub record LoopOk (cap begin : ℕ) (ts : List T) (r : List T × S × Status) : Type 0 where
    pub len : length r.0 ≡ length ts
    pub trees : All Tree r.0
    pub safe : r.2 ≢ fault
    pub seen :
        (a : ℕ)
        → begin / size ≤ a / size
        → a / size < begin / size + length ts
        → (a < u.end → a < cap)
        → IsIdentity a (look_from v size (begin / size) ts a)
        → (u.commit ≡ false) ⊎ (r.2 ≡ done)
        → look_from v size (begin / size) r.0 a
          ≡ after visible u begin a (look_from v size (begin / size) ts a)

module _ {T S : Type 0} (visible : ℕ → Bool) (u : Update) (Tree : T → Type 0) (v : T → ℕ → Shown)
    (size : ℕ) (step : ℕ → T → S → T × S × Status) (cap : ℕ) where
  abbrev BodyOk : ℕ → T → T × S × Status → Type 0
  BodyOk = StepOk {S = S} visible u Tree v size

  abbrev WalkOk : ℕ → List T → List T × S × Status → Type 0
  WalkOk = LoopOk {S = S} visible u Tree v size cap

  abbrev look : ℕ → List T → ℕ → Shown
  look = look_from v size

  walk_stop :
      (begin : ℕ) (t : T) (ts : List T) (s : S)
      → ltb begin cap ≡ false
      → walk step size cap begin (t ∷ ts) s ≡ (t ∷ ts, s, done)
  unfolding walk
  walk_stop begin t ts s e = rw (e, walk)

  abbrev rest : ℕ → T → List T → S → List T × S × Status
  rest begin t ts s = walk step size cap (start_of_next_block begin size) ts (step begin t s).1

  walk_done :
      (begin : ℕ) (t : T) (ts : List T) (s : S)
      → ltb begin cap ≡ true
      → (step begin t s).2 ≡ done
      → walk step size cap begin (t ∷ ts) s
        ≡ ((step begin t s).0 ∷ (rest begin t ts s).0, (rest begin t ts s).1, (rest begin t ts s).2)
  unfolding walk
  walk_done begin t ts s e d = rw (e, d, walk)

  walk_fail :
      (begin : ℕ) (t : T) (ts : List T) (s : S)
      → ltb begin cap ≡ true
      → (step begin t s).2 ≢ done
      → walk step size cap begin (t ∷ ts) s
        ≡ ((step begin t s).0 ∷ ts, (step begin t s).1, (step begin t s).2)
  unfolding walk
  walk_fail begin t ts s e d = ground (arith, e, d)

  look_here : (k : ℕ) (t : T) (ts : List T) (a : ℕ) → a / size ≡ k → look k (t ∷ ts) a ≡ v t a
  look_here k t ts a h =
      ap (λ n. pick (λ t. v t a) (get_elem? (t ∷ ts) n))
        (let e : a / size - k ≡ 0 = omega arith in e)

  look_there :
      (k : ℕ) (t : T) (ts : List T) (a : ℕ) → k < a / size → look k (t ∷ ts) a ≡ look (k + 1) ts a
  look_there k t ts a h =
      ap (λ n. pick (λ t. v t a) (get_elem? (t ∷ ts) n))
        (let e : a / size - k ≡ suc (a / size - (k + 1)) = omega arith in e)

  head_seen :
      (begin : ℕ) (t : T) (r : T × S × Status) (ts ts' : List T) (a : ℕ)
      → BodyOk begin t r
      → a / size ≡ begin / size
      → IsIdentity a (look (begin / size) (t ∷ ts) a)
      → (u.commit ≡ false) ⊎ (r.2 ≡ done)
      → look (begin / size) (r.0 ∷ ts') a ≡ after visible u begin a (look (begin / size) (t ∷ ts) a)
  head_seen begin t r ts ts' a k here same how =
      look_here (begin / size) r.0 ts' a here
      ∙ k.seen a here (subst (IsIdentity a) (look_here (begin / size) t ts a here) same) how
      ∙ ap (after visible u begin a) (sym (look_here (begin / size) t ts a here))

  after_keep : (begin a : ℕ) (old : Shown) → u.commit ≡ false → after visible u begin a old ≡ old
  after_keep begin a old e = rw e

  after_both :
      (b c a : ℕ) (old : Shown) → b ≤ a → c ≤ a → after visible u b a old ≡ after visible u c a old
  after_both b c a old p q = ground arith

  module _ (pos : 0 < size) (paged : size % page_size ≡ 0) (cap_le : cap ≤ u.end)
      (fits : u.end + size ≤ word)
      (steps : (b : ℕ) (t : T) (s : S)
        → b % page_size ≡ 0
        → b < cap
        → Tree t
        → BodyOk b t (step b t s)) where
    next_div : (b : ℕ) → b < cap → start_of_next_block b size / size ≡ b / size + 1
    next_div b h =
        ap (λ (x : ℕ). x / size) (start_of_next_block_lem b size pos (omega arith))
        ∙ mul-div_cancel (b / size + 1) pos

    next_paged : (b : ℕ) → b < cap → start_of_next_block b size % page_size ≡ 0
    next_paged b h =
        ap (λ (x : ℕ). x % page_size) (start_of_next_block_lem b size pos (omega arith))
        ∙ mul_paged (b / size + 1) size paged

    -- Beyond the cap nothing is asked for.
    stop-WalkOk :
        (begin : ℕ) (ts : List T) (s : S)
        → cap ≤ begin
        → All Tree ts
        → WalkOk begin ts (ts, s, done)
    stop-WalkOk begin ts s h trees = record {
      len = refl;
      trees = trees;
      safe = λ e. cc;
      seen = λ a le lt inside same how. ground (arith, inside);
    }

    fail-WalkOk :
        (begin : ℕ) (t : T) (ts : List T) (r : T × S × Status)
        → r.2 ≢ done
        → All Tree ts
        → BodyOk begin t r
        → WalkOk begin (t ∷ ts) (r.0 ∷ ts, r.1, r.2)
    fail-WalkOk begin t ts r failed trees k = record {
      len = refl;
      trees = (k.tree, trees);
      safe = k.safe;
      seen = λ a le lt inside same how. elim (dec_lt (begin / size) (a / size)) [
        | yes later ↦
            let kept : u.commit ≡ false = elim how [ inl e ↦ e | inr d ↦ absurd (failed d) ] in
            look_there (begin / size) r.0 ts a later
            ∙ sym (look_there (begin / size) t ts a later)
            ∙ sym (after_keep begin a (look (begin / size) (t ∷ ts) a) kept)
        | no here ↦ head_seen begin t r ts ts a k (omega arith) same how
      ];
    }

    done-WalkOk :
        (begin : ℕ) (t : T) (ts : List T) (r : T × S × Status) (q : List T × S × Status)
        → begin < cap
        → r.2 ≡ done
        → BodyOk begin t r
        → WalkOk (start_of_next_block begin size) ts q
        → WalkOk begin (t ∷ ts) (r.0 ∷ q.0, q.1, q.2)
    done-WalkOk begin t ts r q h d k w = record {
      len = ap suc w.len;
      trees = (k.tree, w.trees);
      safe = w.safe;
      seen = λ a le lt inside same how. elim (dec_lt (begin / size) (a / size)) [
        | yes later ↦
            let b = start_of_next_block begin size in
            let nd = next_div begin h in
            let below : b ≤ a = omega (
              arith,
              start_of_next_block_lem begin size pos (omega arith),
              block_le (begin / size + 1) a size pos (omega arith),
            ) in
            let before : begin ≤ a = omega (
              arith,
              block_le (begin / size + 1) a size pos (omega arith),
              lt-div-mul-add {a = begin} {b = size} pos,
            ) in
            look_there (begin / size) r.0 q.0 a later
            ∙ ap (λ n. look n q.0 a) (sym nd)
            ∙ w.seen a (omega (arith, nd)) (omega (arith, nd)) inside
                (subst (IsIdentity a)
                  (look_there (begin / size) t ts a later ∙ ap (λ n. look n ts a) (sym nd)) same)
                how
            ∙ after_both b begin a (look (b / size) ts a) below before
            ∙ ap (after visible u begin a)
                (ap (λ n. look n ts a) nd ∙ sym (look_there (begin / size) t ts a later))
        | no here ↦ head_seen begin t r ts q.0 a k (omega arith) same (inr d)
      ];
    }

    -- If each step does its part, the loop does it to all the entries from `begin` on.
    pub walk-WalkOk :
        (begin : ℕ) (ts : List T) (s : S)
        → begin % page_size ≡ 0
        → All Tree ts
        → LoopOk {S = S} visible u Tree v size cap begin ts (walk step size cap begin ts s)
    unfolding walk
    walk-WalkOk begin [] s al trees = record {
      len = refl;
      trees = tt;
      safe = λ e. cc;
      seen = λ a le lt inside same how. absurd (omega arith);
    }
    walk-WalkOk begin (t ∷ ts) s al trees = elim (Bool-cases (ltb begin cap)) [
      | inr stop ↦
          subst (WalkOk begin (t ∷ ts)) (sym (walk_stop begin t ts s stop))
            (stop-WalkOk begin (t ∷ ts) s (ground (arith, stop)) trees)
      | inl go ↦
          let h = ltb→lt begin cap go in
          let k = steps begin t s al h trees.0 in
          elim (Status-cases (step begin t s).2) [
            | inl d ↦ subst (WalkOk begin (t ∷ ts)) (sym (walk_done begin t ts s go d)) (
                done-WalkOk begin t ts (step begin t s) (rest begin t ts s) h d k (
                  walk-WalkOk (start_of_next_block begin size) ts (step begin t s).1
                    (next_paged begin h) trees.1))
            | inr f ↦
                subst (WalkOk begin (t ∷ ts)) (sym (walk_fail begin t ts s go f))
                  (fail-WalkOk begin t ts (step begin t s) f trees.1 k)
          ]
    ]
